-- ===== src/Mqtt/Client/Messages.antt =====
-- What the receiving thread makes of PUBLISH packets.
use Prim.Native.Nat.{bit_and, bit_or}
use nexus_mainframe.Common.{
  ℕ, zero, suc, ◌+◌, ◌≤◌, take, true, ◌*◌, ◌/◌, ◌%◌, ◌^◌, ◌<◌, ◌≡◌, ◌≢◌, ◌↔◌, refl, sym, ap, ◌∙◌,
  List, [], ◌∷◌, ◌++◌, append_assoc, append-nil, Str, codes, length, length-append, take-append,
  drop-append, All, false, Option, none, some, if_cases, arith,
}
use nexus_mainframe.Common.Bits.{bit_and_mask}
use nexus_mainframe.Common.BigEndian.{be16}
use nexus_mainframe.Cast.Proto.Varint.{groups}
use nexus_mainframe.Event.Bus.{EventBus, Event, text, pair}
use nexus_mainframe.Event.Bus
use nexus_mainframe.Mqtt.Client.{
  MqttClient, encode_string, with_length, publish_body, publish_packet, publish_message,
  handle_publish, handle_packet, Received, bytes, end_of_stream, receive_loop,
}

-- The two events of each message.
unfoldable pub events : List (Str × Str) → List Event
events [] = []
events ((topic, payload) ∷ msgs) =
    record { name = codes "mqtt:" ++ topic; payload = text payload }
    ∷ record { name = codes "mqtt:message"; payload = pair topic payload }
    ∷ events msgs

-- A PUBLISH packet of MQTT 3.1.1 that asks for no answer: the length of the rest in base-128 groups,
-- the topic behind its length in two bytes, and the payload.
unfoldable pub broker_packet : Str → Str → List ℕ
broker_packet topic payload =
    0x30 ∷ groups 3 (2 + length topic + length payload)
    ++ length topic / 256 ∷ length topic % 256 ∷ topic
    ++ payload

broker_packet-publish_packet :
    (topic payload : Str)
    → length topic + length payload < 126
    → broker_packet topic payload ≡ publish_packet topic payload
unfolding broker_packet publish_packet publish_body with_length encode_string groups
broker_packet-publish_packet topic payload h = ground (
  arith,
  length-append topic payload,
  bit_and_mask 8 (length topic / 2 ^ 8),
  bit_and_mask 8 (length topic),
)

unfoldable pub deliveries : List (Str × Str) → List Received
deliveries [] = []
deliveries ((topic, payload) ∷ msgs) = bytes (broker_packet topic payload) ∷ deliveries msgs

length-broker_packet :
    (topic payload : Str)
    → length topic + length payload < 126
    → length (broker_packet topic payload) ≤ 1024
unfolding broker_packet groups
length-broker_packet topic payload h = ground (arith, length-append topic payload)

take_whole : (n : ℕ) (l : List ℕ) → length l ≤ n → take n l ≡ l
take_whole zero [] h = refl
take_whole zero (x ∷ l) h = absurd (omega arith)
take_whole (suc n) [] h = refl
take_whole (suc n) (x ∷ l) h = ap (λ (r : List ℕ). x ∷ r) (take_whole n l (omega arith))

module _ {C : Type 0} where
  -- A PUBLISH packet with a topic of fewer than 2 ^ 16 bytes, and whatever stands behind it in the
  -- buffer, is published under `mqtt:` and the
  -- topic, and again under `mqtt:message`. The length byte of the packet is not read: what follows the
  -- packet becomes part of the payload.
  pub handle_packet-publish :
      (bus : EventBus C) (topic payload more : Str)
      → length topic < 2 ^ 16
      → handle_packet bus (publish_packet topic payload ++ more)
        ≡ some (publish_message bus topic (payload ++ more))
  unfolding handle_packet handle_publish publish_packet with_length publish_body encode_string
  handle_packet-publish bus topic payload more h =
      let len : bit_or (bit_and (length topic / 2 ^ 8) 0xff * 2 ^ 8) (bit_and (length topic) 0xff)
          ≡ length topic =
        rw
          (
            bit_and_mask 8 (length topic / 2 ^ 8),
            bit_and_mask 8 (length topic),
            be16 (length topic / 2 ^ 8 % 256) (length topic % 256) (omega arith),
          )
          (omega arith) in
      ground (
        arith,
        len,
        append_assoc topic payload more,
        length-append topic (payload ++ more),
        take-append topic (payload ++ more),
        drop-append topic (payload ++ more),
      )

  handle_publish-reads :
      (bus : EventBus C) (a : ℕ) (rest : List ℕ) → handle_publish bus (a ∷ rest) ≢ none
  unfolding handle_publish
  handle_publish-reads bus a [] e = cc
  handle_publish-reads bus a (hi ∷ []) e = cc
  handle_publish-reads bus a (hi ∷ lo ∷ rest) e = ground (arith, e)

  handle_packet-byte :
      (bus : EventBus C) (header : ℕ) → header / 2 ^ 4 ≡ 3 → handle_packet bus (header ∷ []) ≡ none
  unfolding handle_packet handle_publish
  handle_packet-byte bus header t = rw t refl

  -- A buffer is read past its end just when it is one byte of the type PUBLISH.
  pub handle_packet-none :
      (bus : EventBus C) (data' : List ℕ)
      → (handle_packet bus data' ≡ none)
        ↔ ((header : ℕ) × (data' ≡ header ∷ []) × (header / 2 ^ 4 ≡ 3))
  unfolding handle_packet
  handle_packet-none bus [] = (λ e. cc, λ (h, e, t). cc)
  handle_packet-none bus (header ∷ []) = (
    λ e. (header, refl, ground (arith, e)),
    λ (h, e, t). handle_packet-byte bus header (ground (arith, e, t)),
  )
  handle_packet-none bus (header ∷ a ∷ rest) =
      (λ e. absurd (ground (arith, e, handle_publish-reads bus a rest)), λ (h, e, t). cc)

  publish-queue :
      (bus : EventBus C) (event : Event)
      → bus.is_shutting_down ≡ false
      → Bus.publish bus event ≡ record bus { event_queue = bus.event_queue ++ event ∷ [] }
  unfolding Bus.publish
  publish-queue bus event up =
      if_cases (λ (b : EventBus C). b ≡ record bus { event_queue = bus.event_queue ++ event ∷ [] })
        bus.is_shutting_down _ _ (λ down. cc) λ _. refl

  publish_message-queue :
      (bus : EventBus C) (topic payload : Str)
      → bus.is_shutting_down ≡ false
      → publish_message bus topic payload
        ≡ record bus { event_queue = bus.event_queue ++ events ((topic, payload) ∷ []) }
  unfolding publish_message events
  publish_message-queue bus topic payload up =
      let e1 : Event = record { name = codes "mqtt:" ++ topic; payload = text payload } in
      let e2 : Event = record { name = codes "mqtt:message"; payload = pair topic payload } in
      ap (λ (b : EventBus C). Bus.publish b e2) (publish-queue bus e1 up)
      ∙ publish-queue (record bus { event_queue = bus.event_queue ++ e1 ∷ [] }) e2 up
      ∙ ap (λ (q : List Event). record bus { event_queue = q })
          (append_assoc bus.event_queue (e1 ∷ []) (e2 ∷ []))

  handle_packet-queue :
      (bus : EventBus C) (topic payload : Str)
      → length topic < 2 ^ 16
      → bus.is_shutting_down ≡ false
      → handle_packet bus (publish_packet topic payload)
        ≡ some (record bus { event_queue = bus.event_queue ++ events ((topic, payload) ∷ []) })
  handle_packet-queue bus topic payload h up =
      ap (handle_packet bus) (sym (append-nil (publish_packet topic payload)))
      ∙ handle_packet-publish bus topic payload [] h
      ∙ ap (λ p. some (publish_message bus topic p)) (append-nil payload)
      ∙ ap some (publish_message-queue bus topic payload up)

  receive_bytes :
      (data' : List ℕ) (rs : List Received) (c : MqttClient) (bus bus' : EventBus C)
      → c.running ≡ true
      → length data' ≤ 1024
      → handle_packet bus data' ≡ some bus'
      → receive_loop (bytes data' ∷ rs) (c, bus) ≡ receive_loop rs (c, bus')
  unfolding receive_loop
  receive_bytes data' rs c bus bus' up h e =
      if_cases (λ (r : Option (MqttClient × EventBus C)). r ≡ receive_loop rs (c, bus')) c.running _
        _ (λ t. rw (take_whole 1024 data' h, e) refl) λ f. cc

  receive_end :
      (rs : List Received) (c : MqttClient) (bus : EventBus C)
      → c.running ≡ true
      → receive_loop (end_of_stream ∷ rs) (c, bus) ≡ some (record c { connected = false }, bus)
  unfolding receive_loop
  receive_end rs c bus up =
      if_cases
        (λ (r : Option (MqttClient × EventBus C)). r ≡ some (record c { connected = false }, bus))
        c.running _ _ (λ t. refl) λ f. cc

  broker_packet-queue :
      (bus : EventBus C) (topic payload : Str)
      → length topic + length payload < 126
      → bus.is_shutting_down ≡ false
      → handle_packet bus (broker_packet topic payload)
        ≡ some (record bus { event_queue = bus.event_queue ++ events ((topic, payload) ∷ []) })
  broker_packet-queue bus topic payload h up =
      ap (handle_packet bus) (broker_packet-publish_packet topic payload h)
      ∙ handle_packet-queue bus topic payload (omega arith) up

  -- PUBLISH packets as the protocol has them, with a topic and a payload of fewer than 126 bytes
  -- together, that arrive in one `recv` each while the client runs, until the peer closes, are queued
  -- on a bus that is not shutting down in order, two events each, and the client is then no longer
  -- connected. (From 126 bytes on the length takes two bytes, of which the client reads one.)
  pub receive_loop-deliveries :
      (msgs : List (Str × Str)) (rest : List Received) (c : MqttClient) (bus : EventBus C)
      → All (λ m. length m.0 + length m.1 < 126) msgs
      → c.running ≡ true
      → bus.is_shutting_down ≡ false
      → receive_loop (deliveries msgs ++ end_of_stream ∷ rest) (c, bus)
        ≡ some (
          record c { connected = false },
          record bus { event_queue = bus.event_queue ++ events msgs },
        )
  unfolding deliveries events
  receive_loop-deliveries [] rest c bus small on up =
      receive_end rest c bus on
      ∙ ap
          (λ (q : List Event).
            some (record c { connected = false }, record bus { event_queue = q }))
          (sym (append-nil bus.event_queue))
  receive_loop-deliveries ((topic, payload) ∷ msgs) rest c bus small on up =
      let e1 : List Event = events ((topic, payload) ∷ []) in
      let bus1 : EventBus C = record bus { event_queue = bus.event_queue ++ e1 } in
      receive_bytes (broker_packet topic payload) (deliveries msgs ++ end_of_stream ∷ rest) c bus
        bus1 on (length-broker_packet topic payload small.0)
        (broker_packet-queue bus topic payload small.0 up)
      ∙ receive_loop-deliveries msgs rest c bus1 small.1 on up
      ∙ ap
          (λ (q : List Event).
            some (record c { connected = false }, record bus { event_queue = q }))
          (append_assoc bus.event_queue e1 (events msgs))
