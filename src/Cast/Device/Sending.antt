-- ===== src/Cast/Device/Sending.antt =====
-- What the commands for the media write to the channel.
use nexus_mainframe.Common.{
  suc, ◌≡◌, ◌⊎◌, inl, inr, refl, ap, sym, ◌∙◌, List, [], ◌∷◌, Str, codes, str_eq, is_empty, Bool,
  true, false, ◌||◌, Option, some, arith, subst, if◌then◌else◌, option_cases, if_cases,
}
use nexus_mainframe.Common.Ints.{pos, is_negative}
use nexus_mainframe.Json.{Json, field}
use nexus_mainframe.Cast.Proto.{CastMessage}
use nexus_mainframe.Cast.Socket.{TlsSocket}
use nexus_mainframe.Cast.Channel.{CastChannel}
use nexus_mainframe.Json.{Reals}
use nexus_mainframe.Cast.Device.{
  CastDevice, Outcome, returned, threw, undefined, send_media_msg, send_on, next_id, request,
  ns_media, sender_id,
}
use nexus_mainframe.Cast.Device.Control.{
  Action, connects, disconnects, gets_status, launches, stops_app, plays, pauses, stops_media,
  seeks, sets_volume, sets_muted, loads_media, perform, play, pause, stop_media, seek,
  session_field,
}

-- A message for the media of `d`, written to its channel `ch`, of which `d'` is left.
pub record MediaRequest {J D : Type 0} (json : Json J) (d d' : CastDevice D) (ch : CastChannel)
    : Type 0 where
  pub msg : CastMessage
  pub payload : J
  pub has_transport : is_empty d.transport_id ≡ false
  pub has_session : is_negative d.media_session_id ≡ false
  pub to_transport : msg.destination_id ≡ d.transport_id
  pub in_namespace : msg.namespace_uri ≡ ns_media
  pub carries : json.parse msg.payload_utf8 ≡ some payload
  pub for_session :
      json.at payload (codes "mediaSessionId") ≡ some (json.integer d.media_session_id)
  pub numbered : json.at payload (codes "requestId") ≡ some (json.integer (pos d'.request_id))
  pub next : d'.request_id ≡ suc d.request_id
  pub sent : d'.channel ≡ some (send_on ch msg)

returned-injective : {S : Type 0} {s t : S} → returned s ≡ returned t → s ≡ t
returned-injective {s = s} e = ap (λ o. elim o [ returned x ↦ x | threw x ↦ s | undefined ↦ s ]) e

abbrev pub media_message : {D : Type 0} → CastDevice D → Str → CastMessage
media_message d text = record {
  source_id = sender_id;
  destination_id = d.transport_id;
  namespace_uri = ns_media;
  payload_utf8 = text;
}

abbrev pub numbered_on : {D : Type 0} → CastDevice D → CastChannel → Str → CastDevice D
numbered_on d ch text = record d {
  request_id = suc d.request_id;
  channel = some (send_on ch (media_message d text));
}

some-injective : {A : Type 0} {s t : A} → some s ≡ some t → s ≡ t
some-injective e = ground (arith, e)

module _ {J D : Type 0} (json : Json J) (reals : Reals J D json) where
  abbrev sent_fields : CastDevice D → Str → List (Str × J) → List (Str × J)
  sent_fields d type rest =
      (codes "type", json.string type)
      ∷ (codes "requestId", json.integer (pos (next_id d).request_id))
      ∷ session_field json reals d
      ∷ rest

  send_media_msg-MediaRequest :
      (d d' : CastDevice D) (ch : CastChannel) (type : Str) (rest : List (Str × J))
      → d.channel ≡ some ch
      → is_empty d.transport_id ≡ false
      → is_negative d.media_session_id ≡ false
      → send_media_msg json (next_id d) (request json d type (session_field json reals d ∷ rest))
        ≡ returned d'
      → MediaRequest json d d' ch
  unfolding send_media_msg request next_id session_field field str_eq
  send_media_msg-MediaRequest d d' ch type rest c t s e =
      let fs = sent_fields d type rest in
      let P = λ (o : Outcome (CastDevice D)). o ≡ returned d' → MediaRequest json d d' ch in
      option_cases P d.channel _ _ (λ n. absurd (ground (arith, c, n)))
        (λ ch' c'.
          if_cases P (is_empty d.transport_id) _ _ (λ y. absurd (ground (arith, y, t)))
            λ _.
              option_cases P (json.dump (json.object fs)) _ _ (λ f q. absurd (cc))
                λ text f q.
                  subst (λ x. MediaRequest json d x ch) {x = numbered_on d ch' text}
                    (returned-injective q)
                    (record {
                      msg = media_message d text;
                      payload = json.object fs;
                      has_transport = t;
                      has_session = s;
                      to_transport = refl;
                      in_namespace = refl;
                      carries = json.parse-dump _ text f;
                      for_session = json.at-object fs (codes "mediaSessionId") _ refl;
                      numbered = json.at-object fs (codes "requestId") _ refl;
                      next = refl;
                      sent =
                          ap (λ k. some (send_on k (media_message d text)))
                            (some-injective (sym c' ∙ c));
                    }))
        e

  -- A command behind the guard of the media commands.
  guarded-MediaRequest :
      (d d' : CastDevice D) (ch : CastChannel) (type : Str) (rest : List (Str × J))
      → d.channel ≡ some ch
      → (if is_empty d.transport_id || is_negative d.media_session_id
          then returned d
          else send_media_msg json
              (next_id d)
              (request json d type (session_field json reals d ∷ rest)))
        ≡ returned d'
      → ((is_empty d.transport_id || is_negative d.media_session_id ≡ true) × (d' ≡ d))
        ⊎ MediaRequest json d d' ch
  guarded-MediaRequest d d' ch type rest c e =
      let b = is_empty d.transport_id || is_negative d.media_session_id in
      if_cases
        (λ (o : Outcome (CastDevice D)).
          o ≡ returned d' → ((b ≡ true) × (d' ≡ d)) ⊎ MediaRequest json d d' ch)
        b _ _ (λ y q. inl (y, sym (returned-injective q)))
        (λ n q. inr (
          send_media_msg-MediaRequest d d' ch type rest c (ground (arith, n)) (ground (arith, n))
            q))
        e

abbrev pub is_media_command : {D : Type 0} → Action D → Bool
is_media_command plays = true
is_media_command pauses = true
is_media_command stops_media = true
is_media_command (seeks x) = true
is_media_command _ = false

module _ {J D : Type 0} (json : Json J) (reals : Reals J D json) where
  -- Play, pause, stop and seek, on a device with a channel, where no exception leaves them: without
  -- a transport or a media session nothing is sent and the device stays as it was; with both, one
  -- message is written to the channel, to the transport and in the namespace of the media, whose text
  -- reads back as an object with the media session and the next request id.
  pub perform-MediaRequest :
      (opened : Option TlsSocket) (a : Action D) (d d' : CastDevice D) (ch : CastChannel)
      → is_media_command a ≡ true
      → d.channel ≡ some ch
      → perform json reals opened a d ≡ returned d'
      → ((is_empty d.transport_id || is_negative d.media_session_id ≡ true) × (d' ≡ d))
        ⊎ MediaRequest json d d' ch
  unfolding perform play pause stop_media seek
  perform-MediaRequest opened plays d d' ch m c e =
      guarded-MediaRequest json reals d d' ch (codes "PLAY") [] c e
  perform-MediaRequest opened pauses d d' ch m c e =
      guarded-MediaRequest json reals d d' ch (codes "PAUSE") [] c e
  perform-MediaRequest opened stops_media d d' ch m c e =
      guarded-MediaRequest json reals d d' ch (codes "STOP") [] c e
  perform-MediaRequest opened (seeks x) d d' ch m c e =
      guarded-MediaRequest json reals d d' ch (codes "SEEK")
        ((codes "currentTime", reals.real x) ∷ []) c e
  perform-MediaRequest opened connects d d' ch m c e = absurd (cc)
  perform-MediaRequest opened disconnects d d' ch m c e = absurd (cc)
  perform-MediaRequest opened gets_status d d' ch m c e = absurd (cc)
  perform-MediaRequest opened launches d d' ch m c e = absurd (cc)
  perform-MediaRequest opened stops_app d d' ch m c e = absurd (cc)
  perform-MediaRequest opened (sets_volume x) d d' ch m c e = absurd (cc)
  perform-MediaRequest opened (sets_muted b) d d' ch m c e = absurd (cc)
  perform-MediaRequest opened (loads_media u k t) d d' ch m c e = absurd (cc)
