-- ===== src/Cast/Proto.antt =====
-- CastProto.cpp and CastMessage.hpp: the protobuf encoding of a CASTV2 message.
-- A vector of bytes is the list of its bytes. A reader's position `pos` in `data` goes with the
-- list `rest` of the bytes from there on, so `size` is `pos + length rest`.
pub mod Varint
pub mod Fields
pub mod RoundTrip
pub mod Total
use Prim.Native.Nat.{bit_and, bit_or}
use mathlib.Core.Logic.{dite}
use mathlib.Core.WellFounded.{Acc}
use native.Mathlib.Decide.{dec_lt}
use nexus_mainframe.Common.{
  ℕ, zero, suc, ◌+◌, ◌*◌, ◌/◌, ◌%◌, ◌^◌, ◌<◌, List, [], ◌∷◌, ◌++◌, Str, length, take, drop, leb,
  ltb, ◌==◌, if◌then◌else◌, arith,
}
use nexus_mainframe.Common.WfOrder.{lt_wf}

pub record CastMessage : Type 0 where
  pub source_id : Str
  pub destination_id : Str
  pub namespace_uri : Str
  pub payload_utf8 : Str

abbrev pub empty_message : CastMessage
empty_message = record {
  source_id = [];
  destination_id = [];
  namespace_uri = [];
  payload_utf8 = [];
}

-- `failed` is `false` or `std::nullopt`, `threw` the `std::length_error` of `std::string::assign`,
-- and `stuck` no value of the program: the fuel of a loop ran out.
pub data Read {ℓ} (A : Type ℓ) : Type ℓ where
  ok : A → Read A
  failed : Read A
  threw : Read A
  stuck : Read A

infixl 5 ◌>>=◌
abbrev pub ◌>>=◌ {ℓ κ} : {A : Type ℓ} {B : Type κ} → Read A → (A → Read B) → Read B
ok a >>= f = f a
failed >>= f = failed
threw >>= f = threw
stuck >>= f = stuck

-- `v` is a `uint64_t`; `static_cast<uint8_t>` is `% 256`.
unfoldable pub write_varint_loop : List ℕ → (v : ℕ) → Acc ◌<◌ v → List ℕ
write_varint_loop buf v (Acc.intro _ smaller) =
    dite (dec_lt 0x7f v)
      (λ more.
        write_varint_loop (buf ++ (bit_or (bit_and v 0x7f) 0x80 % 256) ∷ []) (v / 2 ^ 7)
          (smaller (v / 2 ^ 7) (omega arith)))
      (λ _. buf ++ (v % 256) ∷ [])

unfoldable pub write_varint : List ℕ → ℕ → List ℕ
write_varint buf v = write_varint_loop buf v (lt_wf.apply v)

unfoldable pub write_tag : List ℕ → ℕ → ℕ → List ℕ
write_tag buf field wire_type = write_varint buf (bit_or (field * 2 ^ 3 % 2 ^ 64) wire_type)

unfoldable pub write_varint_field : List ℕ → ℕ → ℕ → List ℕ
unfolding write_tag
write_varint_field buf field v = write_varint (write_tag buf field 0) v

unfoldable pub write_string_field : List ℕ → ℕ → Str → List ℕ
unfolding write_tag
write_string_field buf field s = write_varint (write_tag buf field 2) (length s) ++ s

unfoldable pub encode_cast_message : CastMessage → List ℕ
encode_cast_message msg =
    let b1 = write_varint_field [] 1 0 in
    let b2 = write_string_field b1 2 msg.source_id in
    let b3 = write_string_field b2 3 msg.destination_id in
    let b4 = write_string_field b3 4 msg.namespace_uri in
    let b5 = write_varint_field b4 5 0 in write_string_field b5 6 msg.payload_utf8

-- The value read, the position behind it and the bytes from there on.
abbrev pub At {ℓ} : Type ℓ → Type ℓ
At A = A × ℕ × List ℕ

unfoldable pub read_varint_loop : List ℕ → ℕ → ℕ → ℕ → Read (At ℕ)
read_varint_loop [] pos out shift = failed
read_varint_loop (b ∷ rest) pos out shift =
    let out' = bit_or out (bit_and b 0x7f * 2 ^ shift % 2 ^ 64) in
    let more = read_varint_loop rest (pos + 1) out' (shift + 7) in
    if bit_and b 0x80 == 0
    then ok (out', pos + 1, rest)
    else if leb 64 (shift + 7)
    then failed
    else more

unfoldable pub read_varint : ℕ → List ℕ → Read (At ℕ)
read_varint pos rest = read_varint_loop rest pos 0 0

-- `pos + len > size` is computed in `uint64_t` and may wrap. Where it does, `len` passes the
-- largest size of a string, and `assign` throws.
unfoldable pub assign_string : ℕ → ℕ → List ℕ → Read (At Str)
assign_string len pos rest =
    if ltb (pos + length rest) ((pos + len) % 2 ^ 64)
    then failed
    else if ltb (length rest) len
    then threw
    else ok (take len rest, pos + len, drop len rest)

unfoldable pub read_string_field : ℕ → List ℕ → Read (At Str)
read_string_field pos rest = do
  (len, pos', rest') ← read_varint pos rest
  assign_string len pos' rest'

-- The `switch` on the field's number.
unfoldable pub set_field : ℕ → Str → CastMessage → CastMessage
set_field field s msg =
    if field == 2
    then record msg { source_id = s }
    else if field == 3
    then record msg { destination_id = s }
    else if field == 4
    then record msg { namespace_uri = s }
    else if field == 6
    then record msg { payload_utf8 = s }
    else msg

-- One round of the loop. The field's number is the bit pattern of an `int`.
unfoldable pub decode_field : CastMessage → ℕ → List ℕ → Read (At CastMessage)
decode_field msg pos rest = do
  (tag, pos1, rest1) ← read_varint pos rest
  let field = tag / 2 ^ 3 % 2 ^ 32
  let wire = bit_and tag 0x7
  if wire == 0
      then (do (v, pos2, rest2) ← read_varint pos1 rest1; ok (msg, pos2, rest2))
      else if wire == 2
      then (do
        (s, pos2, rest2) ← read_string_field pos1 rest1
        ok (set_field field s msg, pos2, rest2))
      else failed

unfoldable pub decode_loop : ℕ → CastMessage → ℕ → List ℕ → Read CastMessage
decode_loop fuel msg pos [] = ok msg
decode_loop zero msg pos (b ∷ bs) = stuck
decode_loop (suc fuel) msg pos (b ∷ bs) = do
  (msg', pos', rest') ← decode_field msg pos (b ∷ bs)
  decode_loop fuel msg' pos' rest'

-- A round reads a byte at least, so `size` rounds are enough.
unfoldable pub decode_cast_message : List ℕ → Read CastMessage
decode_cast_message data' = decode_loop (length data') empty_message 0 data'
