-- ===== src/Cast/Device/Guards.antt =====
-- What holds of a device between two calls, over all runs of commands and messages.
use nexus_mainframe.Common.{
  ℕ, ◌≤◌, ◌≡◌, refl, [], Str, Bool, Option, none, some, arith, sym, subst, is_empty, if◌then◌else◌,
}
use nexus_mainframe.Common.{option_cases, if_cases}
use nexus_mainframe.Common.Ints.{ℤ}
use nexus_mainframe.Json.{Json}
use nexus_mainframe.Cast.Socket.{TlsSocket}
use nexus_mainframe.Cast.Channel.{CastChannel, send_connect}
use nexus_mainframe.Json.{Reals}
use nexus_mainframe.Cast.Device.{
  CastDevice, Outcome, returned, threw, undefined, no_session, next_id, new_device,
  send_receiver_msg, send_media_msg, get_status, connect, disconnect, is_connected, with_answer,
  sender_id, receiver_id,
}
use nexus_mainframe.Cast.Device.Control.{
  Action, connects, disconnects, gets_status, launches, stops_app, plays, pauses, stops_media,
  seeks, sets_volume, sets_muted, loads_media, perform, device_of, launch_default_media_receiver,
  stop_app, play, pause, stop_media, seek, set_volume, set_muted, load_media, set_volume_field,
}

-- Without a channel there is no session.
pub record IsValid {D : Type 0} (d : CastDevice D) : Type 0 where
  pub no_transport : d.channel ≡ none → d.transport_id ≡ []
  pub no_app : d.channel ≡ none → d.session_id ≡ []
  pub no_media : d.channel ≡ none → d.media_session_id ≡ no_session

pub new_device-IsValid : {D : Type 0} (h : Str) (p : ℤ) → IsValid (new_device {D = D} h p)
unfolding new_device
new_device-IsValid h p = record {
  no_transport = λ _. refl;
  no_app = λ _. refl;
  no_media = λ _. refl;
}

pub with_channel-IsValid :
    {D : Type 0} (d : CastDevice D) (ch : CastChannel) → d.channel ≡ some ch → IsValid d
with_channel-IsValid d ch e = record {
  no_transport = λ n. ground arith;
  no_app = λ n. ground arith;
  no_media = λ n. ground arith;
}

pub disconnect-IsValid : {D : Type 0} (d : CastDevice D) → IsValid d → IsValid (disconnect d)
unfolding disconnect
disconnect-IsValid d v =
    option_cases IsValid d.channel _ _ (λ _. v)
      λ ch e. record { no_transport = λ _. refl; no_app = λ _. refl; no_media = λ _. refl }

-- An outcome that is defined, and whose state has a property.
unfoldable pub Holds : {S : Type 0} → (S → Type 0) → Outcome S → Type 0
Holds P (returned s) = P s
Holds P (threw s) = P s
Holds P undefined = ⊥

device_of-with_answer : {D : Type 0} (o : Outcome (CastDevice D)) → device_of (with_answer o) ≡ o
unfolding device_of with_answer
device_of-with_answer (returned d) = refl
device_of-with_answer (threw d) = refl
device_of-with_answer undefined = refl

-- A property of devices that the parts of the commands keep.
pub record IsClosed {D : Type 0} (P : CastDevice D → Type 0) : Type 0 where
  pub valid : (d : CastDevice D) → P d → IsValid d
  pub numbered : (d : CastDevice D) → P d → P (next_id d)
  pub channelled : (d : CastDevice D) (ch : CastChannel) → P d → P (record d { channel = some ch })
  pub dropped : (d : CastDevice D) → P d → P (disconnect d)

module _ {J D : Type 0} (json : Json J) (P : CastDevice D → Type 0) (closed : IsClosed P) where
  send_receiver_msg-Holds :
      (d : CastDevice D) (payload : J) → P d → Holds P (send_receiver_msg json d payload)
  unfolding send_receiver_msg Holds
  send_receiver_msg-Holds d payload v =
      option_cases (Holds P) d.channel _ _ (λ _. v)
        λ ch e.
          option_cases (Holds P) (json.dump payload) _ _ (λ _. v) λ text f. closed.channelled d _ v

  send_media_msg-Holds :
      (d : CastDevice D) (payload : J) → P d → Holds P (send_media_msg json d payload)
  unfolding send_media_msg Holds
  send_media_msg-Holds d payload v =
      option_cases (Holds P) d.channel _ _ (λ _. v)
        λ ch e.
          if_cases (Holds P) (is_empty d.transport_id) _ _ (λ _. v)
            λ _.
              option_cases (Holds P) (json.dump payload) _ _ (λ _. v)
                λ text f. closed.channelled d _ v

  receiver_request-Holds :
      (d : CastDevice D) (payload : J) → P d → Holds P (send_receiver_msg json (next_id d) payload)
  receiver_request-Holds d payload v =
      send_receiver_msg-Holds (next_id d) payload (closed.numbered d v)

  -- A request to the media behind a guard.
  media_request-Holds :
      (d : CastDevice D) (payload : J) (b : Bool)
      → P d
      → Holds P (if b then returned d else send_media_msg json (next_id d) payload)
  unfolding Holds
  media_request-Holds d payload b v =
      if_cases (Holds P) b _ _ (λ _. v)
        λ _. send_media_msg-Holds (next_id d) payload (closed.numbered d v)

  connect-Holds :
      (opened : Option TlsSocket) (d : CastDevice D)
      → P d
      → Holds P (device_of (connect json opened d))
  unfolding connect get_status device_of Holds
  connect-Holds none d v = closed.channelled d _ v
  connect-Holds (some s) d v =
      if_cases (λ (o : Outcome (CastDevice D × Bool)). Holds P (device_of o))
        (send_connect s sender_id receiver_id).0 _ _
        (λ _.
          subst (Holds P) (sym (device_of-with_answer _))
            (receiver_request-Holds _ _ (closed.channelled d _ v)))
        (λ _. closed.channelled d _ v)

module _ {J D : Type 0} (json : Json J) (reals : Reals J D json) (P : CastDevice D → Type 0)
    (closed : IsClosed P) where
  load_media-Holds :
      (d : CastDevice D) (u c t : Str) → P d → Holds P (load_media json reals d u c t)
  unfolding load_media Holds is_empty
  load_media-Holds d u c t v =
      if_cases (Holds P) (is_empty d.transport_id) _ _ (λ _. v)
        λ e.
          option_cases (Holds P) d.channel _ _
            (λ n. absurd (ground (arith, (closed.valid d v).no_transport n)))
            λ ch f.
              send_media_msg-Holds json P closed _ _ (closed.numbered _ (closed.channelled d _ v))

  pub perform-Holds :
      (opened : Option TlsSocket) (a : Action D) (d : CastDevice D)
      → P d
      → Holds P (perform json reals opened a d)
  unfolding perform Holds get_status launch_default_media_receiver stop_app play pause stop_media
      seek set_volume set_muted set_volume_field
  perform-Holds opened connects d v =
      if_cases (Holds P) (is_connected d) _ _ (λ _. v) λ _. connect-Holds json P closed opened d v
  perform-Holds opened disconnects d v = closed.dropped d v
  perform-Holds opened gets_status d v = receiver_request-Holds json P closed d _ v
  perform-Holds opened launches d v = receiver_request-Holds json P closed d _ v
  perform-Holds opened stops_app d v =
      if_cases (Holds P) (is_empty d.session_id) _ _ (λ _. v)
        λ _. receiver_request-Holds json P closed d _ v
  perform-Holds opened plays d v = media_request-Holds json P closed d _ _ v
  perform-Holds opened pauses d v = media_request-Holds json P closed d _ _ v
  perform-Holds opened stops_media d v = media_request-Holds json P closed d _ _ v
  perform-Holds opened (seeks x) d v = media_request-Holds json P closed d _ _ v
  perform-Holds opened (sets_volume x) d v = receiver_request-Holds json P closed d _ v
  perform-Holds opened (sets_muted b) d v = receiver_request-Holds json P closed d _ v
  perform-Holds opened (loads_media u c t) d v = load_media-Holds d u c t v

pub IsValid-IsClosed : {D : Type 0} → IsClosed (IsValid {D = D})
unfolding next_id
IsValid-IsClosed = record {
  valid = λ d v. v;
  numbered =
      λ d v. record { no_transport = v.no_transport; no_app = v.no_app; no_media = v.no_media };
  channelled = λ d ch v. with_channel-IsValid _ ch refl;
  dropped = disconnect-IsValid;
}

-- The device is well formed, and has given out `n` request ids at least.
unfoldable pub Numbered : {D : Type 0} → ℕ → CastDevice D → Type 0
Numbered n d = IsValid d × (n ≤ d.request_id)

pub Numbered-IsClosed : {D : Type 0} (n : ℕ) → IsClosed (Numbered {D = D} n)
unfolding Numbered next_id disconnect
Numbered-IsClosed n = record {
  valid = λ d (v, h). v;
  numbered = λ d (v, h). ((IsValid-IsClosed {D = _}).numbered d v, omega arith);
  channelled = λ d ch (v, h). (with_channel-IsValid _ ch refl, h);
  dropped = λ d (v, h). (
    disconnect-IsValid d v,
    option_cases (λ (e : CastDevice _). n ≤ e.request_id) d.channel _ _ (λ _. h) λ ch e. h,
  );
}
