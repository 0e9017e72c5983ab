-- ===== src/Cast/Proto/RoundTrip.antt =====
-- What `encodeCastMessage` writes, and that `decodeCastMessage` reads it back.
use Prim.Native.Nat.{bit_or}
use nexus_mainframe.Common.{
  ℕ, ◌+◌, ◌*◌, ◌%◌, ◌^◌, ◌≤◌, ◌<◌, ◌≡◌, refl, ap, ◌∙◌, List, [], ◌∷◌, ◌++◌, append_assoc,
  append-nil, Str, length, length-append, All, arith,
}
use nexus_mainframe.Cast.Proto.{
  CastMessage, empty_message, ok, write_varint_field, write_string_field, encode_cast_message,
  set_field, decode_cast_message,
}
use nexus_mainframe.Cast.Proto.Fields.{
  Field, varint, text, field_bytes, wire, IsField, apply_fields, decode-wire, length-field_bytes,
}
use nexus_mainframe.Cast.Proto.Varint.{groups, write_varint-groups, length-groups}

abbrev pub rest_fields : CastMessage → List Field
rest_fields msg =
    text 2 msg.source_id
    ∷ text 3 msg.destination_id
    ∷ text 4 msg.namespace_uri
    ∷ varint 5 0
    ∷ text 6 msg.payload_utf8
    ∷ []

unfoldable pub message_fields : CastMessage → List Field
message_fields msg = varint 1 0 ∷ rest_fields msg

write_string-bytes :
    (buf : List ℕ) (n : ℕ) (s : Str)
    → bit_or (n * 2 ^ 3 % 2 ^ 64) 2 ≡ n * 8 + 2
    → n < 2 ^ 29
    → length s < 2 ^ 64
    → write_string_field buf n s ≡ buf ++ field_bytes (text n s)
unfolding write_string_field field_bytes
write_string-bytes buf n s e h fits = rw (
  e,
  write_varint-groups buf (n * 8 + 2) (omega arith),
  write_varint-groups (buf ++ groups 9 (n * 8 + 2)) (length s) fits,
  append_assoc (buf ++ groups 9 (n * 8 + 2)) (groups 9 (length s)) s,
  append_assoc buf (groups 9 (n * 8 + 2)) (groups 9 (length s) ++ s),
)

write_varint-bytes :
    (buf : List ℕ) (n v : ℕ)
    → bit_or (n * 2 ^ 3 % 2 ^ 64) 0 ≡ n * 8
    → n < 2 ^ 29
    → v < 2 ^ 64
    → write_varint_field buf n v ≡ buf ++ field_bytes (varint n v)
unfolding write_varint_field field_bytes
write_varint-bytes buf n v e h fits = rw (
  e,
  write_varint-groups buf (n * 8) (omega arith),
  write_varint-groups (buf ++ groups 9 (n * 8)) v fits,
  append_assoc buf (groups 9 (n * 8)) (groups 9 v),
)

abbrev pub IsMessage : CastMessage → Type 0
IsMessage msg =
    (length msg.source_id < 2 ^ 64)
    × (length msg.destination_id < 2 ^ 64)
    × (length msg.namespace_uri < 2 ^ 64)
    × (length msg.payload_utf8 < 2 ^ 64)

-- `encodeCastMessage` writes the six fields of the protocol in order.
pub encode-wire :
    (msg : CastMessage) → IsMessage msg → encode_cast_message msg ≡ wire (message_fields msg)
unfolding encode_cast_message message_fields wire
encode-wire msg (hs, hd, hn, hp) = simp (
  write_varint-bytes [] 1 0 refl (omega arith) (omega arith),
  write_string-bytes _ 2 msg.source_id refl (omega arith) hs,
  write_string-bytes _ 3 msg.destination_id refl (omega arith) hd,
  write_string-bytes _ 4 msg.namespace_uri refl (omega arith) hn,
  write_varint-bytes _ 5 0 refl (omega arith) (omega arith),
  write_string-bytes _ 6 msg.payload_utf8 refl (omega arith) hp,
  append_assoc,
  append-nil,
)

length-text-le : (n : ℕ) (s : Str) → length (field_bytes (text n s)) ≤ 20 + length s
unfolding field_bytes
length-text-le n s = omega (
  arith,
  length-groups 9 (n * 8 + 2),
  length-groups 9 (length s),
  length-append (groups 9 (n * 8 + 2)) (groups 9 (length s) ++ s),
  length-append (groups 9 (length s)) s,
)

length-varint-le : (n v : ℕ) → length (field_bytes (varint n v)) ≤ 20
unfolding field_bytes
length-varint-le n v = omega (
  arith,
  length-groups 9 (n * 8),
  length-groups 9 v,
  length-append (groups 9 (n * 8)) (groups 9 v),
)

abbrev pub text_size : CastMessage → ℕ
text_size msg =
    length msg.source_id
    + length msg.destination_id
    + length msg.namespace_uri
    + length msg.payload_utf8

pub length-wire-le : (msg : CastMessage) → length (wire (message_fields msg)) ≤ 120 + text_size msg
unfolding wire message_fields
length-wire-le msg = simp length-append (
    omega (
      arith,
      length-varint-le 1 0,
      length-text-le 2 msg.source_id,
      length-text-le 3 msg.destination_id,
      length-text-le 4 msg.namespace_uri,
      length-varint-le 5 0,
      length-text-le 6 msg.payload_utf8,
    ))

message_fields-IsField : (msg : CastMessage) → IsMessage msg → All IsField (message_fields msg)
unfolding message_fields
message_fields-IsField msg (hs, hd, hn, hp) = omega arith

apply-message_fields : (msg : CastMessage) → apply_fields empty_message (message_fields msg) ≡ msg
unfolding apply_fields message_fields set_field
apply-message_fields msg = refl

-- A message whose four strings have fewer than 2 ^ 64 - 120 bytes together decodes to itself.
pub decode-encode :
    (msg : CastMessage)
    → 120 + text_size msg < 2 ^ 64
    → decode_cast_message (encode_cast_message msg) ≡ ok msg
decode-encode msg fits =
    let m : IsMessage msg = (omega arith, omega arith, omega arith, omega arith) in
    rw (encode-wire msg m) (
      decode-wire (message_fields msg) (message_fields-IsField msg m)
        (omega (arith, length-wire-le msg))
      ∙ ap ok (apply-message_fields msg))

pub length-encode-bounds :
    (msg : CastMessage)
    → 120 + text_size msg < 2 ^ 64
    → (1 ≤ length (encode_cast_message msg))
      × (length (encode_cast_message msg) ≤ 120 + text_size msg)
unfolding message_fields wire
length-encode-bounds msg fits =
    let m : IsMessage msg = (omega arith, omega arith, omega arith, omega arith) in
    rw (encode-wire msg m) (
      omega (
        arith,
        length-field_bytes (varint 1 0),
        length-append (field_bytes (varint 1 0)) (wire (rest_fields msg)),
      ),
      length-wire-le msg,
    )
