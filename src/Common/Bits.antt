-- ===== src/Common/Bits.antt =====
-- `&`, `|` and `^` on unsigned numbers, as arithmetic.
use Prim.Native.Nat.{
  ℕ, zero, suc, ◌+◌, ◌-◌, ◌*◌, ◌/◌, ◌%◌, ◌^◌, ◌≤◌, ◌<◌, min, max, differ, digits, bitwise,
}
use Prim.Native.Nat.{bit_and, bit_or, bit_xor, bit_and-bitwise, bit_or-bitwise, bit_xor-bitwise}
use native.Mathlib.Nat.{le_refl, pow-suc, one-le-pow}
use native.Mathlib.Omega.{arith}
use mathlib.Core.Path.{◌≡◌, refl, ap}
use mathlib.Core.Bool.{Bool, true, ◌&&◌}
use nexus_mainframe.Common.Tests.{◌==◌, ==→eq}

-- One more unit of fuel than digits changes nothing, so each operation obeys one equation for the
-- lowest digit.
module _ (rest : ℕ → ℕ) (op : ℕ → ℕ → ℕ) where
  digits_enough : (n a b : ℕ) → a ≤ n → digits rest op n a b ≡ digits rest op a a b
  digits_enough n a b h = both n a a b h (le_refl a)
    where
      both : (n m a b : ℕ) → a ≤ n → a ≤ m → digits rest op n a b ≡ digits rest op m a b
      both zero zero a b p q = refl
      both zero (suc m) zero b p q = refl
      both zero (suc m) (suc a) b p q = absurd (omega arith)
      both (suc n) zero zero b p q = refl
      both (suc n) zero (suc a) b p q = absurd (omega arith)
      both (suc n) (suc m) zero b p q = refl
      both (suc n) (suc m) (suc a) b p q =
          rw (both n m (suc a / 2) (b / 2) (omega arith) (omega arith))

  bitwise_low :
      (a b : ℕ)
      → bitwise rest op (suc a) b ≡ bitwise rest op (suc a / 2) (b / 2) * 2 + op (suc a % 2) (b % 2)
  bitwise_low a b = omega (arith, digits_enough a (suc a / 2) (b / 2) (omega arith))

bit_and_low : (a b : ℕ) → bit_and a b ≡ bit_and (a / 2) (b / 2) * 2 + min (a % 2) (b % 2)
bit_and_low zero b = simp bit_and-bitwise (omega arith)
bit_and_low (suc a) b = simp bit_and-bitwise (bitwise_low (λ y. 0) min a b)

bit_or_low : (a b : ℕ) → bit_or a b ≡ bit_or (a / 2) (b / 2) * 2 + max (a % 2) (b % 2)
bit_or_low zero b = simp bit_or-bitwise (omega arith)
bit_or_low (suc a) b = simp bit_or-bitwise (bitwise_low (λ y. y) max a b)

bit_xor_low : (a b : ℕ) → bit_xor a b ≡ bit_xor (a / 2) (b / 2) * 2 + differ (a % 2) (b % 2)
bit_xor_low zero b = simp bit_xor-bitwise (omega arith)
bit_xor_low (suc a) b = simp bit_xor-bitwise (bitwise_low (λ y. y) differ a b)

bit_or_zero : (n a : ℕ) → a ≤ n → bit_or a 0 ≡ a
bit_or_zero n zero h = refl
bit_or_zero zero (suc a) h = absurd (omega arith)
bit_or_zero (suc n) (suc a) h =
    omega (arith, bit_or_low (suc a) 0, bit_or_zero n (suc a / 2) (omega arith))

bit_and_zero : (n a : ℕ) → a ≤ n → bit_and a 0 ≡ 0
bit_and_zero n zero h = refl
bit_and_zero zero (suc a) h = absurd (omega arith)
bit_and_zero (suc n) (suc a) h =
    omega (arith, bit_and_low (suc a) 0, bit_and_zero n (suc a / 2) (omega arith))

double_pow : (q k : ℕ) → q * 2 ^ suc k ≡ 2 * (q * 2 ^ k)
double_pow q k = omega (arith, ap (λ (t : ℕ). q * t) (pow-suc 2 k))

-- `(q << k) | r` adds `r`, where `r` has at most `k` bits.
pub bit_or_above : (k q r : ℕ) → r < 2 ^ k → bit_or (q * 2 ^ k) r ≡ q * 2 ^ k + r
bit_or_above zero q r h = ground (arith, bit_or_zero q q (le_refl q))
bit_or_above (suc k) q r h = ground (
  arith,
  double_pow q k,
  bit_or_low (q * 2 ^ suc k) r,
  bit_or_above k q (r / 2) (omega (arith, pow-suc 2 k)),
)

-- `r | (q << k)` likewise.
pub bit_or_below : (k q r : ℕ) → r < 2 ^ k → bit_or r (q * 2 ^ k) ≡ r + q * 2 ^ k
bit_or_below zero q zero h = omega (arith, bit_or-bitwise 0 (q * 2 ^ 0))
bit_or_below zero q (suc r) h = absurd (omega arith)
bit_or_below (suc k) q r h = ground (
  arith,
  double_pow q k,
  bit_or_low r (q * 2 ^ suc k),
  bit_or_below k q (r / 2) (omega (arith, pow-suc 2 k)),
)

bit_and_field : (k q r : ℕ) → r < 2 ^ k → bit_and (q * 2 ^ k + r) (2 ^ k - 1) ≡ r
bit_and_field zero q r h = omega (arith, bit_and_zero (q * 2 ^ 0 + r) _ (le_refl _))
bit_and_field (suc k) q r h = ground (
  arith,
  double_pow q k,
  pow-suc 2 k,
  one-le-pow k 2,
  bit_and_low (q * 2 ^ suc k + r) (2 ^ suc k - 1),
  bit_and_field k q (r / 2),
)

-- A mask of `k` ones takes the remainder by `2 ^ k`.
pub bit_and_mask : (k a : ℕ) → bit_and a (2 ^ k - 1) ≡ a % 2 ^ k
bit_and_mask k a = ground (arith, one-le-pow k 2, bit_and_field k (a / 2 ^ k) (a % 2 ^ k))

differ_twice : (x y : ℕ) → x < 2 → y < 2 → (differ (differ x y) y ≡ x) × (differ x y < 2)
differ_twice zero zero p q = (refl, omega arith)
differ_twice zero (suc zero) p q = (refl, omega arith)
differ_twice (suc zero) zero p q = (refl, omega arith)
differ_twice (suc zero) (suc zero) p q = (refl, omega arith)
differ_twice (suc (suc x)) y p q = absurd (omega arith)
differ_twice x (suc (suc y)) p q = absurd (omega arith)

xor_twice : (n a b : ℕ) → a ≤ n → b ≤ n → bit_xor (bit_xor a b) b ≡ a
xor_twice zero zero zero p q = refl
xor_twice zero (suc a) b p q = absurd (omega arith)
xor_twice zero zero (suc b) p q = absurd (omega arith)
xor_twice (suc n) a b p q =
    let halves = xor_twice n (a / 2) (b / 2) (omega arith) (omega arith) in
    let (same, small) = differ_twice (a % 2) (b % 2) (omega arith) (omega arith) in
    let low = bit_xor_low a b in
    let e : bit_xor a b / 2 ≡ bit_xor (a / 2) (b / 2) = omega arith in
    let d : bit_xor a b % 2 ≡ differ (a % 2) (b % 2) = omega arith in
    rw (bit_xor_low (bit_xor a b) b, e, d, halves, same) (omega arith)

-- Masking twice by the same byte restores it.
pub bit_xor_twice : (a b : ℕ) → bit_xor (bit_xor a b) b ≡ a
bit_xor_twice a b = xor_twice (a + b) a b (omega arith) (omega arith)

-- Facts about bytes, checked at all 256 values.
all_below : ℕ → (ℕ → Bool) → Bool
all_below zero p = true
all_below (suc n) p = p n && all_below n p

all_below_at : (n : ℕ) (p : ℕ → Bool) (x : ℕ) → all_below n p ≡ true → x < n → p x ≡ true
unfolding all_below
all_below_at zero p x h l = absurd (omega arith)
all_below_at (suc n) p x h l = ground (arith, all_below_at n p x)

byte_table : (f g : ℕ → ℕ) → all_below 256 (λ x. f x == g x) ≡ true → (b : ℕ) → b < 256 → f b ≡ g b
byte_table f g h b l = ==→eq (f b) (g b) (all_below_at 256 (λ x. f x == g x) b h l)

pub bit_and_top : (b : ℕ) → b < 256 → bit_and b 0x80 ≡ b / 128 * 128
unfolding all_below
bit_and_top = byte_table (λ b. bit_and b 0x80) (λ b. b / 128 * 128) refl
