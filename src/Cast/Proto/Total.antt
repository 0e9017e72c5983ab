-- ===== src/Cast/Proto/Total.antt =====
-- `decodeCastMessage` on any bytes, well formed or not.
use Prim.Native.Nat.{bit_and}
use nexus_mainframe.Common.{
  ℕ, zero, suc, ◌+◌, ◌*◌, ◌%◌, ◌^◌, ◌≤◌, ◌<◌, ◌≡◌, ◌≢◌, ◌⊎◌, inl, inr, List, [], ◌∷◌, ◌++◌, length,
  length-append, length-drop, arith, ltb, ltb_false→le, Bool-cases, Bool, true, false, leb, ◌==◌,
  if◌then◌else◌, take, drop,
}
use nexus_mainframe.Common.Bits.{bit_and_mask}
use nexus_mainframe.Cast.Proto.{
  CastMessage, empty_message, ok, failed, threw, stuck, Read, At, ◌>>=◌, read_varint_loop,
  read_varint, assign_string, read_string_field, decode_field, decode_loop, decode_cast_message,
}
use nexus_mainframe.Cast.Proto.Varint.{groups, length-groups, read_varint-groups}

-- What a reader may answer at `n` bytes from `pos` on: a value with fewer bytes left, and the
-- position moved as far; or a failure, but never `stuck`.
abbrev Reads {ℓ} : {A : Type ℓ} → ℕ → ℕ → Read (At A) → Type 0
Reads pos n (ok (a, pos', rest)) = (length rest < n) × (pos' + length rest ≡ pos + n)
Reads pos n failed = Unit {0}
Reads pos n threw = Unit {0}
Reads pos n stuck = ⊥

module _ {ℓ} {A : Type ℓ} where
  Reads-if :
      (pos n : ℕ) (b : Bool) (r s : Read (At A))
      → Reads pos n r
      → Reads pos n s
      → Reads pos n (if b then r else s)
  Reads-if pos n true r s hr hs = hr
  Reads-if pos n false r s hr hs = hs

  -- An answer from a later position is one from an earlier.
  Reads-later :
      (pos n pos' n' : ℕ) (r : Read (At A))
      → n' ≤ n
      → pos' + n' ≡ pos + n
      → Reads pos' n' r
      → Reads pos n r
  Reads-later pos n pos' n' (ok (a, p, rest)) h e d = (omega arith, omega arith)
  Reads-later pos n pos' n' failed h e d = tt
  Reads-later pos n pos' n' threw h e d = tt
  Reads-later pos n pos' n' stuck h e d = d

  Reads-bind {κ} :
      {B : Type κ} (pos n : ℕ) (r : Read (At B)) (f : At B → Read (At A))
      → Reads pos n r
      → ((b : B) (p : ℕ) (rest : List ℕ)
          → length rest < n
          → p + length rest ≡ pos + n
          → Reads pos n (f (b, p, rest)))
      → Reads pos n (r >>= f)
  Reads-bind pos n (ok (b, p, rest)) f h k = k b p rest h.0 h.1
  Reads-bind pos n failed f h k = tt
  Reads-bind pos n threw f h k = tt
  Reads-bind pos n stuck f h k = h

read_varint_loop-Reads :
    (rest : List ℕ) (pos out shift : ℕ)
    → Reads pos (length rest) (read_varint_loop rest pos out shift)
unfolding read_varint_loop
read_varint_loop-Reads [] pos out shift = tt
read_varint_loop-Reads (b ∷ rest) pos out shift =
    Reads-if pos _ (bit_and b 0x80 == 0) _ _ (omega arith, omega arith)
      (Reads-if pos _ (leb 64 (shift + 7)) _ _ tt (
        Reads-later pos _ (pos + 1) (length rest) _ (omega arith) (omega arith)
          (read_varint_loop-Reads rest (pos + 1) _ (shift + 7))))

read_varint-Reads : (pos : ℕ) (rest : List ℕ) → Reads pos (length rest) (read_varint pos rest)
unfolding read_varint
read_varint-Reads pos rest = read_varint_loop-Reads rest pos 0 0

assign_string-Reads :
    (pos n len p : ℕ) (rest : List ℕ)
    → length rest < n
    → p + length rest ≡ pos + n
    → Reads pos n (assign_string len p rest)
unfolding assign_string
assign_string-Reads pos n len p rest h e = elim (Bool-cases (ltb (length rest) len)) [
  | inl beyond ↦
      rw beyond (Reads-if pos n (ltb (p + length rest) ((p + len) % 2 ^ 64)) failed threw tt tt)
  | inr within ↦
      let left = length-drop len rest in
      let fits = ltb_false→le (length rest) len within in
      rw within (
        Reads-if pos n (ltb (p + length rest) ((p + len) % 2 ^ 64)) failed _ tt
          (omega arith, omega arith))
]

read_string_field-Reads :
    (pos : ℕ) (rest : List ℕ) → Reads pos (length rest) (read_string_field pos rest)
unfolding read_string_field
read_string_field-Reads pos rest =
    Reads-bind pos _ (read_varint pos rest) _ (read_varint-Reads pos rest)
      λ len p rest' h e. assign_string-Reads pos _ len p rest' h e

decode_field-Reads :
    (msg : CastMessage) (pos : ℕ) (rest : List ℕ)
    → Reads pos (length rest) (decode_field msg pos rest)
unfolding decode_field
decode_field-Reads msg pos rest =
    Reads-bind pos _ (read_varint pos rest) _ (read_varint-Reads pos rest) λ tag p rest' h e.
      Reads-if pos _ (bit_and tag 7 == 0) _ _
        (Reads-bind pos _ (read_varint p rest') _
          (Reads-later pos _ p _ _ (omega arith) e (read_varint-Reads p rest'))
          λ v q rest'' h' e'. (h', e'))
        (Reads-if pos _ (bit_and tag 7 == 2) _ failed
          (Reads-bind pos _ (read_string_field p rest') _
            (Reads-later pos _ p _ _ (omega arith) e (read_string_field-Reads p rest'))
            λ s q rest'' h' e'. (h', e'))
          tt)

decode_loop-ne-stuck :
    (fuel : ℕ) (msg : CastMessage) (pos : ℕ) (bytes : List ℕ)
    → length bytes ≤ fuel
    → decode_loop fuel msg pos bytes ≢ stuck
unfolding decode_loop
decode_loop-ne-stuck fuel msg pos [] h = λ e. cc
decode_loop-ne-stuck zero msg pos (b ∷ bs) h = absurd (omega arith)
decode_loop-ne-stuck (suc fuel) msg pos (b ∷ bs) h =
    go (decode_field msg pos (b ∷ bs)) (decode_field-Reads msg pos (b ∷ bs))
      (λ m p rest shorter. decode_loop-ne-stuck fuel m p rest (omega arith))
  where
    go :
        (r : Read (At CastMessage))
        → Reads pos (suc (length bs)) r
        → ((m : CastMessage) (p : ℕ) (rest : List ℕ)
            → length rest < suc (length bs)
            → decode_loop fuel m p rest ≢ stuck)
        → (r >>= λ (m, p, rest). decode_loop fuel m p rest) ≢ stuck
    go (ok (m, p, rest)) d next = next m p rest d.0
    go failed d next = λ e. cc
    go threw d next = λ e. cc
    go stuck d next = absurd d

-- The loop of `decodeCastMessage` ends on every input: as many rounds as there are bytes suffice.
pub decode-ne-stuck : (bytes : List ℕ) → decode_cast_message bytes ≢ stuck
unfolding decode_cast_message
decode-ne-stuck bytes = decode_loop-ne-stuck (length bytes) empty_message 0 bytes (omega arith)

-- Where the position does not wrap, a string is taken exactly when its bytes are there.
pub assign_string_cases :
    (len pos : ℕ) (rest : List ℕ)
    → pos + len < 2 ^ 64
    → (length rest < len × (assign_string len pos rest ≡ failed))
      ⊎ ((len ≤ length rest)
          × (assign_string len pos rest ≡ ok (take len rest, pos + len, drop len rest)))
unfolding assign_string
assign_string_cases len pos rest h = ground arith

-- Where it does wrap, the test passes though the bytes are not there, and `assign` throws.
pub assign_string_wraps :
    (len pos : ℕ) (rest : List ℕ)
    → len < 2 ^ 64
    → pos + length rest < 2 ^ 64
    → 2 ^ 64 ≤ pos + len
    → assign_string len pos rest ≡ threw
unfolding assign_string
assign_string_wraps len pos rest hl hr h = ground arith

-- A message whose first field is a string with a length prefix so near 2 ^ 64 that the position
-- wraps makes `decodeCastMessage` throw, whatever follows.
pub decode-throws :
    (n len : ℕ) (rest : List ℕ)
    → n < 2 ^ 29
    → len < 2 ^ 64
    → 2 ^ 64 ≤ length (groups 9 (n * 8 + 2)) + length (groups 9 len) + len
    → length (groups 9 (n * 8 + 2)) + length (groups 9 len) + length rest < 2 ^ 64
    → decode_cast_message (groups 9 (n * 8 + 2) ++ (groups 9 len ++ rest)) ≡ threw
unfolding decode_cast_message decode_field read_string_field
decode-throws n len rest hn hl wraps fits =
    let total = length-append (groups 9 (n * 8 + 2)) (groups 9 len ++ rest) in
    let (some_byte, _) = length-groups 9 (n * 8 + 2) in
    let tag : bit_and (n * 8 + 2) 7 ≡ 2 = omega (arith, bit_and_mask 3 (n * 8 + 2)) in
    first_round (length (groups 9 (n * 8 + 2) ++ (groups 9 len ++ rest))) _ (omega (arith, total))
      (omega (arith, total))
      (rw (
        read_varint-groups (n * 8 + 2) 0 (groups 9 len ++ rest) (omega arith),
        tag,
        read_varint-groups len (0 + length (groups 9 (n * 8 + 2))) rest hl,
        assign_string_wraps len (0 + length (groups 9 (n * 8 + 2)) + length (groups 9 len)) rest hl
            (omega arith) (omega arith),
      ))
  where
    first_round :
        (fuel : ℕ) (bytes : List ℕ)
        → 1 ≤ fuel
        → 1 ≤ length bytes
        → decode_field empty_message 0 bytes ≡ threw
        → decode_loop fuel empty_message 0 bytes ≡ threw
    first_round fuel [] hf hb e = absurd (omega arith)
    first_round zero (b ∷ bs) hf hb e = absurd (omega arith)
    first_round (suc fuel) (b ∷ bs) hf hb e = unfold decode_loop in rw e
