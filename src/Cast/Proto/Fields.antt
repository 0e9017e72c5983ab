-- ===== src/Cast/Proto/Fields.antt =====
-- The wire format as a list of protobuf fields: `decodeCastMessage` folds over any such list, and
-- `encodeCastMessage` writes one.
use Prim.Native.Nat.{bit_and}
use nexus_mainframe.Common.{
  ℕ, zero, suc, ◌+◌, ◌*◌, ◌/◌, ◌%◌, ◌^◌, ◌≤◌, ◌<◌, ◌≡◌, refl, ◌∙◌, List, [], ◌∷◌, ◌++◌,
  append_assoc, Str, length, length-append, take-append, drop-append, All, arith,
}
use nexus_mainframe.Common.Bits.{bit_and_mask}
use nexus_mainframe.Cast.Proto.{
  CastMessage, empty_message, ok, assign_string, read_string_field, set_field, decode_field,
  decode_loop, decode_cast_message,
}
use nexus_mainframe.Cast.Proto.Varint.{groups, length-groups, read_varint-groups}

-- A field of wire type 0 or 2, by its number.
pub data Field : Type 0 where
  varint : ℕ → ℕ → Field
  text : ℕ → Str → Field

unfoldable pub field_bytes : Field → List ℕ
field_bytes (varint n v) = groups 9 (n * 8) ++ groups 9 v
field_bytes (text n s) = groups 9 (n * 8 + 2) ++ (groups 9 (length s) ++ s)

unfoldable pub wire : List Field → List ℕ
wire [] = []
wire (f ∷ fs) = field_bytes f ++ wire fs

-- A field's number has 29 bits.
abbrev pub IsField : Field → Type 0
IsField (varint n v) = (n < 2 ^ 29) × (v < 2 ^ 64)
IsField (text n s) = (n < 2 ^ 29) × (length s < 2 ^ 64)

unfoldable pub apply_field : CastMessage → Field → CastMessage
apply_field msg (varint n v) = msg
apply_field msg (text n s) = set_field n s msg

unfoldable pub apply_fields : CastMessage → List Field → CastMessage
unfolding apply_field
apply_fields msg [] = msg
apply_fields msg (f ∷ fs) = apply_fields (apply_field msg f) fs

assign_string-append :
    (s rest : Str) (pos : ℕ)
    → pos + length s + length rest < 2 ^ 64
    → assign_string (length s) pos (s ++ rest) ≡ ok (s, pos + length s, rest)
unfolding assign_string
assign_string-append s rest pos h =
    ground (arith, length-append s rest, take-append s rest, drop-append s rest)

read_string-groups :
    (s rest : Str) (pos : ℕ)
    → pos + length (groups 9 (length s)) + length s + length rest < 2 ^ 64
    → read_string_field pos (groups 9 (length s) ++ (s ++ rest))
      ≡ ok (s, pos + length (groups 9 (length s)) + length s, rest)
unfolding read_string_field
read_string-groups s rest pos h =
    rw (read_varint-groups (length s) pos (s ++ rest) (omega arith))
      (assign_string-append s rest (pos + length (groups 9 (length s))) h)

decode_field-bytes :
    (f : Field) (msg : CastMessage) (pos : ℕ) (rest : List ℕ)
    → IsField f
    → pos + length (field_bytes f) + length rest < 2 ^ 64
    → decode_field msg pos (field_bytes f ++ rest)
      ≡ ok (apply_field msg f, pos + length (field_bytes f), rest)
unfolding decode_field field_bytes apply_field
decode_field-bytes (varint n v) msg pos rest h fits =
    let tag : bit_and (n * 8) 7 ≡ 0 = omega (arith, bit_and_mask 3 (n * 8)) in
    let here = length (groups 9 (n * 8)) in
    rw
      (
        append_assoc (groups 9 (n * 8)) (groups 9 v) rest,
        read_varint-groups (n * 8) pos (groups 9 v ++ rest) (omega arith),
        tag,
        read_varint-groups v (pos + here) rest (omega arith),
      )
      (ground (arith, length-append (groups 9 (n * 8)) (groups 9 v)))
decode_field-bytes (text n s) msg pos rest h fits =
    let tag : bit_and (n * 8 + 2) 7 ≡ 2 = omega (arith, bit_and_mask 3 (n * 8 + 2)) in
    let number : (n * 8 + 2) / 2 ^ 3 % 2 ^ 32 ≡ n = omega arith in
    let here = length (groups 9 (n * 8 + 2)) in
    let total = length-append (groups 9 (n * 8 + 2)) (groups 9 (length s) ++ s) in
    let body = length-append (groups 9 (length s)) s in
    rw
      (
        append_assoc (groups 9 (n * 8 + 2)) (groups 9 (length s) ++ s) rest,
        append_assoc (groups 9 (length s)) s rest,
        read_varint-groups (n * 8 + 2) pos (groups 9 (length s) ++ (s ++ rest)) (omega arith),
        tag,
        number,
        read_string-groups s rest (pos + here) (omega (arith, total, body)),
      )
      (ground (arith, total, body))

pub length-field_bytes : (f : Field) → 1 ≤ length (field_bytes f)
unfolding field_bytes
length-field_bytes (varint n v) =
    omega (arith, length-groups 9 (n * 8), length-append (groups 9 (n * 8)) (groups 9 v))
length-field_bytes (text n s) = omega (
  arith,
  length-groups 9 (n * 8 + 2),
  length-append (groups 9 (n * 8 + 2)) (groups 9 (length s) ++ s),
)

decode_loop_step :
    (fuel : ℕ) (msg msg' : CastMessage) (pos pos' : ℕ) (bytes rest : List ℕ)
    → 1 ≤ length bytes
    → decode_field msg pos bytes ≡ ok (msg', pos', rest)
    → decode_loop (suc fuel) msg pos bytes ≡ decode_loop fuel msg' pos' rest
unfolding decode_loop
decode_loop_step fuel msg msg' pos pos' [] rest h e = absurd (omega arith)
decode_loop_step fuel msg msg' pos pos' (b ∷ bs) rest h e = rw e

decode_loop-wire :
    (fs : List Field) (fuel : ℕ) (msg : CastMessage) (pos : ℕ)
    → All IsField fs
    → pos + length (wire fs) < 2 ^ 64
    → length (wire fs) ≤ fuel
    → decode_loop fuel msg pos (wire fs) ≡ ok (apply_fields msg fs)
unfolding wire apply_fields
decode_loop-wire [] fuel msg pos h fits enough = unfold decode_loop in refl
decode_loop-wire (f ∷ fs) zero msg pos h fits enough =
    absurd (omega (arith, length-field_bytes f, length-append (field_bytes f) (wire fs)))
decode_loop-wire (f ∷ fs) (suc fuel) msg pos h fits enough =
    let total = length-append (field_bytes f) (wire fs) in
    let some_byte = length-field_bytes f in
    decode_loop_step fuel msg (apply_field msg f) pos (pos + length (field_bytes f))
      (field_bytes f ++ wire fs) (wire fs) (omega (arith, total, some_byte))
      (decode_field-bytes f msg pos (wire fs) h.0 (omega (arith, total)))
    ∙ decode_loop-wire fs fuel (apply_field msg f) (pos + length (field_bytes f)) h.1
        (omega (arith, total)) (omega (arith, total, some_byte))

-- On the encoding of any list of fields, known or not and in any order, whose total length is below
-- 2 ^ 64, `decodeCastMessage` succeeds, and its result is the fold that keeps the last value of
-- each of the fields 2, 3, 4 and 6 and ignores every other field.
pub decode-wire :
    (fs : List Field)
    → All IsField fs
    → length (wire fs) < 2 ^ 64
    → decode_cast_message (wire fs) ≡ ok (apply_fields empty_message fs)
unfolding decode_cast_message
decode-wire fs h fits =
    decode_loop-wire fs (length (wire fs)) empty_message 0 h (omega arith) (omega arith)
