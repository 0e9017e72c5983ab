-- ===== src/Common/Keys.antt =====
-- The orders of the keys that the program's maps use: integers and strings.
use Prim.Native.Nat.{ℕ, compare, Ordering}
use nexus_mainframe.Common.Text.{Str}
use nexus_mainframe.Common.OrdMap.{Order}
use mathlib.Core.Path.{◌≡◌, refl}
use mathlib.Core.List.{[], ◌∷◌}
use native.Mathlib.Omega.{arith}

pub nat_cmp_refl : (a : ℕ) → compare a a ≡ Ordering.eq
nat_cmp_refl a = ground arith

pub nat_cmp_eq : (a b : ℕ) → compare a b ≡ Ordering.eq → a ≡ b
nat_cmp_eq a b h = ground arith

pub nat_cmp_gt : (a b : ℕ) → compare a b ≡ Ordering.gt → compare b a ≡ Ordering.lt
nat_cmp_gt a b h = ground arith

pub nat_cmp_lt : (a b : ℕ) → compare a b ≡ Ordering.lt → compare b a ≡ Ordering.gt
nat_cmp_lt a b h = ground arith

pub nat_cmp_trans :
    (a b c : ℕ) → compare a b ≡ Ordering.lt → compare b c ≡ Ordering.lt → compare a c ≡ Ordering.lt
nat_cmp_trans a b c h k = ground arith

instance abbrev pub nat_order : Order ℕ
nat_order = record {
  cmp = compare;
  cmp_refl = nat_cmp_refl;
  cmp_eq = nat_cmp_eq;
  cmp_gt = nat_cmp_gt;
  cmp_lt = nat_cmp_lt;
  cmp_trans = nat_cmp_trans;
}

-- `std::string` compares bytes from the left; a proper prefix comes first.
unfoldable pub str_cmp : Str → Str → Ordering
str_cmp [] [] = Ordering.eq
str_cmp [] (y ∷ t) = Ordering.lt
str_cmp (x ∷ s) [] = Ordering.gt
str_cmp (x ∷ s) (y ∷ t) = elim (compare x y) [
  | Ordering.lt ↦ Ordering.lt
  | Ordering.eq ↦ str_cmp s t
  | Ordering.gt ↦ Ordering.gt
]

pub str_cmp_refl : (a : Str) → str_cmp a a ≡ Ordering.eq
unfolding str_cmp
str_cmp_refl [] = refl
str_cmp_refl (x ∷ a) = ground (arith, str_cmp_refl a)

pub str_cmp_eq : (a b : Str) → str_cmp a b ≡ Ordering.eq → a ≡ b
unfolding str_cmp
str_cmp_eq [] [] h = refl
str_cmp_eq [] (y ∷ b) h = cc
str_cmp_eq (x ∷ a) [] h = cc
str_cmp_eq (x ∷ a) (y ∷ b) h = ground (arith, str_cmp_eq a b)

pub str_cmp_gt : (a b : Str) → str_cmp a b ≡ Ordering.gt → str_cmp b a ≡ Ordering.lt
unfolding str_cmp
str_cmp_gt [] [] h = cc
str_cmp_gt [] (y ∷ b) h = cc
str_cmp_gt (x ∷ a) [] h = refl
str_cmp_gt (x ∷ a) (y ∷ b) h = ground (arith, str_cmp_gt a b)

pub str_cmp_lt : (a b : Str) → str_cmp a b ≡ Ordering.lt → str_cmp b a ≡ Ordering.gt
unfolding str_cmp
str_cmp_lt [] [] h = cc
str_cmp_lt [] (y ∷ b) h = refl
str_cmp_lt (x ∷ a) [] h = cc
str_cmp_lt (x ∷ a) (y ∷ b) h = ground (arith, str_cmp_lt a b)

pub str_cmp_trans :
    (a b c : Str)
    → str_cmp a b ≡ Ordering.lt
    → str_cmp b c ≡ Ordering.lt
    → str_cmp a c ≡ Ordering.lt
unfolding str_cmp
str_cmp_trans [] [] c h k = cc
str_cmp_trans [] (y ∷ b) [] h k = cc
str_cmp_trans [] (y ∷ b) (z ∷ c) h k = refl
str_cmp_trans (x ∷ a) [] c h k = cc
str_cmp_trans (x ∷ a) (y ∷ b) [] h k = cc
str_cmp_trans (x ∷ a) (y ∷ b) (z ∷ c) h k = ground (arith, str_cmp_trans a b c)

instance abbrev pub str_order : Order Str
str_order = record {
  cmp = str_cmp;
  cmp_refl = str_cmp_refl;
  cmp_eq = str_cmp_eq;
  cmp_gt = str_cmp_gt;
  cmp_lt = str_cmp_lt;
  cmp_trans = str_cmp_trans;
}
