-- ===== src/Cast/Device/Reach.antt =====
-- The runs of a device: commands, messages, and the receiving thread's end, in any order.
use nexus_mainframe.Common.{
  ℕ, ◌≤◌, ◌∙◌, arith, ◌≡◌, ◌≢◌, refl, subst, ◌∙◌, List, [], Str, Option, none, some, arith, str_eq,
  not, codes, option_cases, if_cases,
}
use nexus_mainframe.Json.{Json}
use nexus_mainframe.Cast.Proto.{CastMessage}
use nexus_mainframe.Cast.Socket.{TlsSocket}
use nexus_mainframe.Cast.Channel.{CastChannel}
use nexus_mainframe.Common.Ints.{ℤ}
use nexus_mainframe.Json.{Reals}
use nexus_mainframe.Cast.Device.{
  CastDevice, ReceiverStatus, MediaStatus, Outcome, returned, threw, undefined, new_device,
  ns_receiver, ns_media,
}
use nexus_mainframe.Cast.Device.Control.{Action, perform}
use nexus_mainframe.Cast.Device.Status.{
  Report, handle_message, handle_receiver_status, handle_media_status, caught, take_media_status,
  take_receiver_status, take_media_entry,
}
use nexus_mainframe.Cast.Device.Guards.{
  IsValid, Holds, Numbered, Numbered-IsClosed, IsValid-IsClosed, perform-Holds, new_device-IsValid,
  with_channel-IsValid,
}

module _ {J D : Type 0} (json : Json J) (reals : Reals J D json) where
  -- A message comes over a channel.
  pub data DeviceStep : CastDevice D → CastDevice D → Type 0 where
    acts :
        {d d' : CastDevice D} (opened : Option TlsSocket) (a : Action D)
        → perform json reals opened a d ≡ returned d'
        → DeviceStep d d'
    fails :
        {d d' : CastDevice D} (opened : Option TlsSocket) (a : Action D)
        → perform json reals opened a d ≡ threw d'
        → DeviceStep d d'
    hears :
        {d d' : CastDevice D} {rs : List (Report D)} (ch : CastChannel) (msg : CastMessage)
        → d.channel ≡ some ch
        → handle_message json reals d msg ≡ returned (d', rs)
        → DeviceStep d d'
    hangs_up :
        {d : CastDevice D} (ch ch' : CastChannel)
        → d.channel ≡ some ch
        → DeviceStep d (record d { channel = some ch' })

  pub data DeviceRun : CastDevice D → CastDevice D → Type 0 where
    here : {d : CastDevice D} → DeviceRun d d
    after : {d d' d'' : CastDevice D} → DeviceRun d d' → DeviceStep d' d'' → DeviceRun d d''

  -- The state of an outcome keeps the channel and the count of requests of `d`.
  Keeps : CastDevice D → Outcome (CastDevice D × List (Report D)) → Type 0
  Keeps d (returned s) = (s.0.channel ≡ d.channel) × (s.0.request_id ≡ d.request_id)
  Keeps d (threw s) = (s.0.channel ≡ d.channel) × (s.0.request_id ≡ d.request_id)
  Keeps d undefined = (d ≡ d)

  caught-Keeps :
      (d : CastDevice D) (o : Outcome (CastDevice D × List (Report D)))
      → Keeps d o
      → Keeps d (caught json reals o)
  unfolding Keeps caught
  caught-Keeps d (returned s) h = h
  caught-Keeps d (threw s) h = h
  caught-Keeps d undefined h = h

  take_receiver_status-Keeps :
      (d : CastDevice D) (o : Option (ReceiverStatus D))
      → Keeps d (take_receiver_status json reals d o)
  unfolding Keeps take_receiver_status
  take_receiver_status-Keeps d none = (refl, refl)
  take_receiver_status-Keeps d (some s) = (refl, refl)

  take_media_status-Keeps :
      (d : CastDevice D) (o : Option (MediaStatus D)) → Keeps d (take_media_status json reals d o)
  unfolding Keeps take_media_status
  take_media_status-Keeps d none = (refl, refl)
  take_media_status-Keeps d (some s) = (refl, refl)

  take_media_entry-Keeps :
      (d : CastDevice D) (o : Option (Option J)) → Keeps d (take_media_entry json reals d o)
  unfolding Keeps take_media_entry
  take_media_entry-Keeps d none = (refl, refl)
  take_media_entry-Keeps d (some none) = (refl, refl)
  take_media_entry-Keeps d (some (some ms)) = take_media_status-Keeps d _

  handle_receiver_status-Keeps :
      (d : CastDevice D) (j : J) → Keeps d (handle_receiver_status json reals d j)
  unfolding handle_receiver_status Keeps
  handle_receiver_status-Keeps d j =
      option_cases (Keeps d) (json.value_string j (codes "type") []) _ _ (λ _. (refl, refl))
        λ t e.
          if_cases (Keeps d) (not (str_eq t (codes "RECEIVER_STATUS"))) _ _ (λ _. (refl, refl))
            λ _.
              if_cases (Keeps d) (not (json.contains j (codes "status"))) _ _ (λ _. refl)
                λ _. take_receiver_status-Keeps d _

  handle_media_status-Keeps :
      (d : CastDevice D) (j : J) → Keeps d (handle_media_status json reals d j)
  unfolding handle_media_status Keeps take_media_status
  handle_media_status-Keeps d j =
      option_cases (Keeps d) (json.value_string j (codes "type") []) _ _ (λ _. (refl, refl))
        λ t e.
          if_cases (Keeps d) (not (str_eq t (codes "MEDIA_STATUS"))) _ _ (λ _. (refl, refl))
            λ _. take_media_entry-Keeps d _

  handle_message-Keeps :
      (d : CastDevice D) (msg : CastMessage) → Keeps d (handle_message json reals d msg)
  unfolding handle_message Keeps
  handle_message-Keeps d msg =
      option_cases (Keeps d) (json.parse msg.payload_utf8) _ _ (λ _. (refl, refl))
        λ j e.
          if_cases (Keeps d) (str_eq msg.namespace_uri ns_receiver) _ _
            (λ _. caught-Keeps d _ (handle_receiver_status-Keeps d j))
            λ _.
              if_cases (Keeps d) (str_eq msg.namespace_uri ns_media) _ _
                (λ _. caught-Keeps d _ (handle_media_status-Keeps d j)) λ _. (refl, refl)

  step-Numbered : (n : ℕ) (d d' : CastDevice D) → DeviceStep d d' → Numbered n d → Numbered n d'
  unfolding Holds Keeps Numbered
  step-Numbered n d d' (acts opened a e) v =
      subst (Holds (Numbered n)) e
        (perform-Holds json reals (Numbered n) (Numbered-IsClosed n) opened a d v)
  step-Numbered n d d' (fails opened a e) v =
      subst (Holds (Numbered n)) e
        (perform-Holds json reals (Numbered n) (Numbered-IsClosed n) opened a d v)
  step-Numbered n d d' (hears ch msg c e) (v, h) =
      let (kept, counted) = subst (Keeps d) e (handle_message-Keeps d msg) in
      (with_channel-IsValid d' ch (kept ∙ c), omega arith)
  step-Numbered n d d' (hangs_up ch ch' c) (v, h) = (with_channel-IsValid _ ch' refl, h)

  run-Numbered : (n : ℕ) (d d' : CastDevice D) → DeviceRun d d' → Numbered n d → Numbered n d'
  run-Numbered n d d' here v = v
  run-Numbered n d d'' (after {d' = d'} r s) v = step-Numbered n d' d'' s (run-Numbered n d d' r v)

  -- A device that a run of commands, messages and hang-ups reaches from a new one has no session
  -- where it has no channel, and every action on it is defined: no command uses the pointer to a
  -- channel that is not there.
  pub reached-perform :
      (host : Str) (port : ℤ) (d : CastDevice D) (opened : Option TlsSocket) (a : Action D)
      → DeviceRun (new_device host port) d
      → IsValid d × (perform json reals opened a d ≢ undefined)
  unfolding Holds Numbered
  reached-perform host port d opened a r =
      let (v, h) =
        run-Numbered 0 (new_device host port) d r (new_device-IsValid host port, omega arith) in
      (
        v,
        λ e.
            subst (Holds IsValid) e
              (perform-Holds json reals IsValid IsValid-IsClosed opened a d v),
      )

  -- Over a run from a well-formed device the count of requests never falls.
  pub run-request_id :
      (d d' : CastDevice D) → DeviceRun d d' → IsValid d → d.request_id ≤ d'.request_id
  unfolding Numbered
  run-request_id d d' r v = (run-Numbered d.request_id d d' r (v, omega arith)).1
