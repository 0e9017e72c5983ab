-- ===== src/Mqtt/Client/Packets.antt =====
-- The packets of the client against the frame of MQTT 3.1.1, whose remaining length is a number in
-- base-128 groups.
use nexus_mainframe.Common.{
  ℕ, ◌+◌, ◌/◌, ◌<◌, ◌≡◌, [], ◌↔◌, ap, List, ◌∷◌, ◌++◌, Str, length, length-append, arith,
}
use nexus_mainframe.Cast.Proto.Varint.{groups, length-groups}
use nexus_mainframe.Mqtt.Client.{
  encode_string, with_length, connect_body, connect_packet, subscribe_body, subscribe_packet,
  publish_body, publish_packet,
}

-- A control packet: at most four groups of length before the body.
unfoldable pub framed : ℕ → List ℕ → List ℕ
framed header body = header ∷ groups 3 (length body) ++ body

with_length-short :
    (header : ℕ) (body : List ℕ) → length body < 128 → with_length header body ≡ framed header body
unfolding with_length framed groups
with_length-short header body h = ground arith

with_length-fits :
    (header : ℕ) (body : List ℕ) → with_length header body ≡ framed header body → length body < 128
unfolding with_length framed groups
with_length-fits header body e = ground (
  arith,
  ap length e,
  length-append (groups 2 (length body / 128)) body,
  length-groups 2 (length body / 128),
)

with_length-framed :
    (header n : ℕ) (body : List ℕ)
    → length body ≡ n
    → (n < 128) ↔ (with_length header body ≡ framed header body)
with_length-framed header n body e = (
  λ h. with_length-short header body (omega arith),
  λ f. omega (arith, with_length-fits header body f),
)

-- The packet of a body is the one of the protocol just when the body is shorter than 128 bytes: the
-- client id of CONNECT has fewer than 116 bytes, the topic of SUBSCRIBE fewer than 123, and the
-- topic and the payload of PUBLISH together fewer than 126.
pub packets-framed :
    (pid : ℕ) (id topic payload : Str)
    → ((12 + length id < 128) ↔ (connect_packet id ≡ framed 0x10 (connect_body id)))
      × ((5 + length topic < 128)
          ↔ (subscribe_packet pid topic ≡ framed 0x82 (subscribe_body pid topic)))
      × ((2 + length topic + length payload < 128)
          ↔ (publish_packet topic payload ≡ framed 0x30 (publish_body topic payload)))
unfolding connect_packet connect_body subscribe_packet subscribe_body publish_packet publish_body
    encode_string
packets-framed pid id topic payload = (
  with_length-framed 0x10 (12 + length id) (connect_body id) (omega arith),
  with_length-framed 0x82 (5 + length topic) (subscribe_body pid topic)
      (omega (arith, length-append topic (0x00 ∷ []))),
  with_length-framed 0x30 (2 + length topic + length payload) (publish_body topic payload)
      (omega (arith, length-append topic payload)),
)
