-- ===== src/Common/OrdMap.antt =====
-- `std::map` as an association list whose keys rise, over any order of the keys.
use Prim.Native.Nat.{Ordering}
use nexus_mainframe.Common.Tests.{if◌then◌else◌, Bool-cases}
use nexus_mainframe.Common.Lists.{All}
use mathlib.Core.Path.{◌≡◌, refl, subst, sym}
use mathlib.Core.Logic.{◌↔◌, ◌⊎◌, inl, inr}
use mathlib.Core.Bool.{Bool, true, false}
use mathlib.Core.Option.{Option, none, some}
use mathlib.Core.List.{List, [], ◌∷◌}
use native.Mathlib.Omega.{arith}

-- The three-way comparison behind `std::less`, as a strict total order.
pub record Order {ℓ} (K : Type ℓ) : Type ℓ where
  pub cmp : K → K → Ordering
  pub cmp_refl : (a : K) → cmp a a ≡ Ordering.eq
  pub cmp_eq : (a b : K) → cmp a b ≡ Ordering.eq → a ≡ b
  pub cmp_gt : (a b : K) → cmp a b ≡ Ordering.gt → cmp b a ≡ Ordering.lt
  pub cmp_lt : (a b : K) → cmp a b ≡ Ordering.lt → cmp b a ≡ Ordering.gt
  pub cmp_trans :
      (a b c : K) → cmp a b ≡ Ordering.lt → cmp b c ≡ Ordering.lt → cmp a c ≡ Ordering.lt

abbrev pub OrdMap {ℓ κ} : Type ℓ → Type κ → Type (ℓ ⊔ κ)
OrdMap K V = List (K × V)

module _ {ℓ} {K : Type ℓ} ⦃o : Order K⦄ where
  unfoldable pub key_eq : K → K → Bool
  key_eq a b = elim (o.cmp a b) [ Ordering.eq ↦ true | _ ↦ false ]

  pub key_eq_iff : (a b : K) → (key_eq a b ≡ true) ↔ (a ≡ b)
  unfolding key_eq
  key_eq_iff a b = ground (arith, o.cmp_eq a b, o.cmp_refl a, o.cmp_refl b)

  cmp_cases : (a b : K) → (o.cmp a b ≡ Ordering.lt) ⊎ ((o.cmp b a ≡ Ordering.lt) ⊎ (a ≡ b))
  cmp_cases a b = ground (arith, o.cmp_gt a b, o.cmp_eq a b)

module _ {ℓ κ} {K : Type ℓ} {V : Type κ} ⦃o : Order K⦄ where
  unfoldable pub find : K → OrdMap K V → Option V
  unfolding key_eq
  find k [] = none
  find k ((j, v) ∷ m) = if key_eq k j then some v else find k m

  -- `m[k] = v`.
  unfoldable pub insert : K → V → OrdMap K V → OrdMap K V
  insert k v [] = (k, v) ∷ []
  insert k v ((j, w) ∷ m) =
      let rest = insert k v m in
      elim (o.cmp k j) [
        | Ordering.lt ↦ (k, v) ∷ (j, w) ∷ m
        | Ordering.eq ↦ (k, v) ∷ m
        | Ordering.gt ↦ (j, w) ∷ rest
      ]

  unfoldable pub erase : K → OrdMap K V → OrdMap K V
  unfolding key_eq
  erase k [] = []
  erase k ((j, v) ∷ m) = let rest = erase k m in if key_eq k j then rest else (j, v) ∷ rest

  pub find-insert :
      (k j : K) (v : V) (m : OrdMap K V)
      → find j (insert k v m) ≡ (if key_eq j k then some v else find j m)
  unfolding find insert
  find-insert k j v [] = refl
  find-insert k j v ((i, w) ∷ m) = ground (
    arith,
    find-insert k j v m,
    o.cmp_eq k i,
    o.cmp_eq j k,
    o.cmp_eq j i,
    o.cmp_refl j,
    o.cmp_refl k,
  )

  pub find-erase :
      (k j : K) (m : OrdMap K V) → find j (erase k m) ≡ (if key_eq j k then none else find j m)
  unfolding find erase
  find-erase k j [] = ground arith
  find-erase k j ((i, w) ∷ m) = ground (
    arith,
    find-erase k j m,
    o.cmp_eq k i,
    o.cmp_eq j k,
    o.cmp_eq j i,
    o.cmp_refl j,
    o.cmp_refl k,
  )

  All-three {μ} :
      (P : K × V → Type μ) (a b c : OrdMap K V) (x : Ordering)
      → All P a
      → All P b
      → All P c
      → All P (elim x [ Ordering.lt ↦ a | Ordering.eq ↦ b | Ordering.gt ↦ c ])
  All-three P a b c Ordering.lt p q r = p
  All-three P a b c Ordering.eq p q r = q
  All-three P a b c Ordering.gt p q r = r

  All-either {μ} :
      (P : K × V → Type μ) (a b : OrdMap K V) (x : Bool)
      → All P a
      → All P b
      → All P (if x then a else b)
  All-either P a b true p q = p
  All-either P a b false p q = q

  -- A property of every entry survives a write and a removal.
  pub All-insert {μ} :
      (P : K × V → Type μ) (k : K) (v : V) (m : OrdMap K V)
      → P (k, v)
      → All P m
      → All P (insert k v m)
  unfolding insert
  All-insert P k v [] p a = (p, tt)
  All-insert P k v ((j, w) ∷ m) p a =
      All-three P _ _ _ (o.cmp k j) (p, a) (p, a.1) (a.0, All-insert P k v m p a.1)

  pub All-erase {μ} : (P : K × V → Type μ) (k : K) (m : OrdMap K V) → All P m → All P (erase k m)
  unfolding erase
  All-erase P k [] a = tt
  All-erase P k ((j, w) ∷ m) a =
      All-either P _ _ (key_eq k j) (All-erase P k m a.1) (a.0, All-erase P k m a.1)

  -- The entry that a lookup finds is one of the entries.
  pub find-entry {μ} :
      (P : K × V → Type μ) (k : K) (v : V) (m : OrdMap K V) → All P m → find k m ≡ some v → P (k, v)
  unfolding find
  find-entry P k v [] a e = cc
  find-entry P k v ((j, w) ∷ m) a e = elim (Bool-cases (key_eq k j)) [
    | inl t ↦
        let same : w ≡ v = ground arith in
        subst (λ x. P (x, v)) (sym ((key_eq_iff k j).0 t)) (subst (λ x. P (j, x)) same a.0)
    | inr f ↦ find-entry P k v m a.1 (ground (arith, f, e))
  ]

  -- What a lookup finds has the property of every entry.
  pub find-All {μ} :
      (P : V → Type μ) (k : K) (v : V) (m : OrdMap K V)
      → All (λ e. P e.1) m
      → find k m ≡ some v
      → P v
  unfolding find
  find-All P k v [] a e = cc
  find-All P k v ((j, w) ∷ m) a e = elim (Bool-cases (key_eq k j)) [
    | inl hit ↦ let same : w ≡ v = ground arith in subst P same a.0
    | inr miss ↦ find-All P k v m a.1 (ground arith)
  ]

  -- The keys rise strictly.
  abbrev pub Above : K → OrdMap K V → Type 0
  Above k [] = Unit {0}
  Above k ((j, v) ∷ m) = (o.cmp k j ≡ Ordering.lt) × Above k m

  abbrev pub IsSorted : OrdMap K V → Type 0
  IsSorted [] = Unit {0}
  IsSorted ((j, v) ∷ m) = Above j m × IsSorted m

  Above-trans : (i k : K) (m : OrdMap K V) → o.cmp i k ≡ Ordering.lt → Above k m → Above i m
  Above-trans i k [] h a = tt
  Above-trans i k ((j, v) ∷ m) h a = (o.cmp_trans i k j h a.0, Above-trans i k m h a.1)

  Above-insert :
      (i k : K) (v : V) (m : OrdMap K V)
      → o.cmp i k ≡ Ordering.lt
      → Above i m
      → Above i (insert k v m)
  unfolding insert
  Above-insert i k v [] h a = (h, tt)
  Above-insert i k v ((j, w) ∷ m) h a = ground (arith, Above-insert i k v m h a.1)

  pub IsSorted-insert : (k : K) (v : V) (m : OrdMap K V) → IsSorted m → IsSorted (insert k v m)
  unfolding insert
  IsSorted-insert k v [] s = (tt, tt)
  IsSorted-insert k v ((j, w) ∷ m) s = ground (
    arith,
    o.cmp_eq k j,
    o.cmp_gt k j,
    Above-trans k j m,
    Above-insert j k v m,
    IsSorted-insert k v m,
  )

  Above-erase : (i k : K) (m : OrdMap K V) → Above i m → Above i (erase k m)
  unfolding erase
  Above-erase i k [] a = tt
  Above-erase i k ((j, w) ∷ m) a = ground (arith, Above-erase i k m a.1)

  pub IsSorted-erase : (k : K) (m : OrdMap K V) → IsSorted m → IsSorted (erase k m)
  unfolding erase
  IsSorted-erase k [] s = tt
  IsSorted-erase k ((j, w) ∷ m) s = ground (arith, Above-erase j k m s.0, IsSorted-erase k m s.1)

  pub find-Above : (k : K) (m : OrdMap K V) → Above k m → find k m ≡ none
  unfolding find
  find-Above k [] a = refl
  find-Above k ((j, w) ∷ m) a = ground (arith, find-Above k m a.1)

  find-head : (k : K) (v : V) (m : OrdMap K V) → find k ((k, v) ∷ m) ≡ some v
  unfolding find
  find-head k v m = ground (arith, o.cmp_refl k)

  find-before :
      (i k : K) (v : V) (m : OrdMap K V)
      → o.cmp i k ≡ Ordering.lt
      → Above k m
      → find i ((k, v) ∷ m) ≡ none
  find-before i k v m h a = find-Above i ((k, v) ∷ m) (h, Above-trans i k m h a)

  same_tail :
      (j k i : K) (v w : V) (m n : OrdMap K V)
      → j ≡ k
      → Above j m
      → Above k n
      → find i ((j, v) ∷ m) ≡ find i ((k, w) ∷ n)
      → find i m ≡ find i n
  unfolding find
  same_tail j k i v w m n e a b h =
      ground (arith, o.cmp_eq i j, o.cmp_eq i k, find-Above j m a, find-Above k n b)

  -- A sorted map is determined by its lookups.
  pub IsSorted-ext :
      (m n : OrdMap K V) → IsSorted m → IsSorted n → ((k : K) → find k m ≡ find k n) → m ≡ n
  IsSorted-ext [] [] s t h = refl
  IsSorted-ext [] ((k, w) ∷ n) s t h = unfold find in cc (h k, find-head k w n)
  IsSorted-ext ((j, v) ∷ m) [] s t h = unfold find in cc (h j, find-head j v m)
  IsSorted-ext ((j, v) ∷ m) ((k, w) ∷ n) s t h = elim (cmp_cases j k) [
    | inl lt ↦ cc (h j, find-head j v m, find-before j k w n lt t.0)
    | inr (inl gt) ↦ cc (h k, find-head k w n, find-before k j v m gt s.0)
    | inr (inr e) ↦
        let tails : m ≡ n =
          IsSorted-ext m n s.1 t.1 (λ i. same_tail j k i v w m n e s.0 t.0 (h i)) in
        cc (h j, find-head j v m, find-head k w n)
  ]
