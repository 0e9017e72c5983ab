-- ===== src/Cast/Proto/Varint.antt =====
-- `writeVarint` and `readVarint`: what is written, and that it is read back.
use Prim.Native.Nat.{bit_and, bit_or}
use mathlib.Core.WellFounded.{Acc}
use native.Mathlib.Nat.{div-add-mod, pow-suc}
use native.Mathlib.Numerals.{towards_suc}
use nexus_mainframe.Common.{
  ℕ, zero, suc, ◌+◌, ◌*◌, ◌/◌, ◌%◌, ◌^◌, ◌≤◌, ◌<◌, ◌≡◌, ap, inl, inr, Bool-cases, List, [], ◌∷◌,
  ◌++◌, append_assoc, length, All, ltb, if◌then◌else◌, arith,
}
use nexus_mainframe.Common.Bits.{bit_and_mask, bit_or_below, bit_and_top}
use nexus_mainframe.Cast.Proto.{ok, write_varint_loop, write_varint, read_varint_loop, read_varint}

-- The base-128 groups of `v`, lowest first, all but the last marked by the top bit; `k` bounds
-- how many follow the first.
unfoldable pub groups : ℕ → ℕ → List ℕ
groups zero v = v ∷ []
groups (suc k) v =
    let more = groups k (v / 128) in if ltb 127 v then (v % 128 + 128) ∷ more else v ∷ []

inner_group : (v : ℕ) → bit_or (bit_and v 0x7f) 0x80 % 256 ≡ v % 128 + 128
inner_group v = rw (bit_and_mask 7 v) (omega (arith, bit_or_below 7 1 (v % 128) (omega arith)))

write_varint_loop-groups :
    (k : ℕ) (buf : List ℕ) (v : ℕ) (w : Acc ◌<◌ v)
    → v < 128 ^ suc k
    → write_varint_loop buf v w ≡ buf ++ groups k v
unfolding write_varint_loop groups
write_varint_loop-groups zero buf v (Acc.intro _ smaller) h = ground arith
write_varint_loop-groups (suc k) buf v (Acc.intro _ smaller) h = grind (
  arith,
  inner_group v,
  λ (w : Acc ◌<◌ (v / 128)).
      write_varint_loop-groups k (buf ++ (v % 128 + 128) ∷ []) (v / 128) w (omega arith),
  append_assoc buf ((v % 128 + 128) ∷ []) (groups k (v / 128)),
)

pub write_varint-groups :
    (buf : List ℕ) (v : ℕ) → v < 2 ^ 64 → write_varint buf v ≡ buf ++ groups 9 v
unfolding write_varint
write_varint-groups buf v h = write_varint_loop-groups 9 buf v _ (omega arith)

pub length-groups : (k v : ℕ) → (1 ≤ length (groups k v)) × (length (groups k v) ≤ k + 1)
unfolding groups
length-groups zero v = omega arith
length-groups (suc k) v = ground (arith, length-groups k (v / 128))

groups-IsByte : (k v : ℕ) → v < 128 ^ suc k → All (λ b. b < 256) (groups k v)
unfolding groups
groups-IsByte zero v h = omega arith
groups-IsByte (suc k) v h = ground (arith, groups-IsByte k (v / 128) (omega arith))

-- What one byte with its top bit clear, or set, does to the loop.
last_byte :
    (v pos out shift : ℕ) (rest : List ℕ)
    → v < 128
    → out < 2 ^ shift
    → out + v * 2 ^ shift < 2 ^ 64
    → read_varint_loop (v ∷ rest) pos out shift ≡ ok (out + v * 2 ^ shift, pos + 1, rest)
unfolding read_varint_loop
last_byte v pos out shift rest hv ho fits =
    ground (arith, bit_and_mask 7 v, bit_and_top v, bit_or_below shift v out ho)

inner_byte :
    (g pos out shift : ℕ) (rest : List ℕ)
    → g < 128
    → shift + 7 < 64
    → out < 2 ^ shift
    → out + g * 2 ^ shift < 2 ^ 64
    → read_varint_loop ((g + 128) ∷ rest) pos out shift
      ≡ read_varint_loop rest (pos + 1) (out + g * 2 ^ shift) (shift + 7)
unfolding read_varint_loop
inner_byte g pos out shift rest hg hs ho fits =
    ground (arith, bit_and_mask 7 (g + 128), bit_and_top (g + 128), bit_or_below shift g out ho)

pow_seven : (s : ℕ) → 2 ^ (s + 7) ≡ 128 * 2 ^ s
pow_seven s = simp towards_suc (omega (arith, pow-suc 2 s))

split_low : (v s : ℕ) → v * 2 ^ s ≡ v % 128 * 2 ^ s + v / 128 * 2 ^ (s + 7)
split_low v s = omega (
  arith,
  ap (λ (t : ℕ). t * 2 ^ s) (div-add-mod v 128),
  ap (λ (t : ℕ). v / 128 * t) (pow_seven s),
)

group_fits : (g p : ℕ) → g < 128 → g * p + p ≤ 128 * p
group_fits g p h = grind arith

read_varint_loop-groups :
    (k v pos out shift : ℕ) (rest : List ℕ)
    → v < 128 ^ suc k
    → shift + 7 * k ≤ 63
    → out < 2 ^ shift
    → out + v * 2 ^ shift < 2 ^ 64
    → read_varint_loop (groups k v ++ rest) pos out shift
      ≡ ok (out + v * 2 ^ shift, pos + length (groups k v), rest)
unfolding groups
read_varint_loop-groups zero v pos out shift rest hv hs ho fits =
    last_byte v pos out shift rest hv ho fits
read_varint_loop-groups (suc k) v pos out shift rest hv hs ho fits = elim (Bool-cases (ltb 127 v)) [
  | inl more ↦
      let hv' : v / 128 < 128 ^ suc k = omega arith in
      rw more (
        ground (
          arith,
          split_low v shift,
          pow_seven shift,
          group_fits (v % 128) (2 ^ shift),
          inner_byte (v % 128) pos out shift (groups k (v / 128) ++ rest),
          read_varint_loop-groups k (v / 128) (pos + 1) (out + v % 128 * 2 ^ shift) (shift + 7) rest
              hv',
        ))
  | inr last ↦ rw last (last_byte v pos out shift rest (ground arith) ho fits)
]

pub read_varint-groups :
    (v pos : ℕ) (rest : List ℕ)
    → v < 2 ^ 64
    → read_varint pos (groups 9 v ++ rest) ≡ ok (v, pos + length (groups 9 v), rest)
unfolding read_varint
read_varint-groups v pos rest h = ground (arith, read_varint_loop-groups 9 v pos 0 0 rest)
