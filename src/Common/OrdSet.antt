-- ===== src/Common/OrdSet.antt =====
-- `std::set`: a map to nothing.
use nexus_mainframe.Common.OrdMap.{
  Order, OrdMap, key_eq, find, insert, erase, find-insert, find-erase,
}
use mathlib.Core.Path.{◌≡◌}
use mathlib.Core.Bool.{Bool, true, false, not, ◌&&◌, ◌||◌}
use mathlib.Core.Option.{none, some}
use native.Mathlib.Omega.{arith}

abbrev pub OrdSet {ℓ} : Type ℓ → Type ℓ
OrdSet K = OrdMap K (Unit {0})

module _ {ℓ} {K : Type ℓ} ⦃o : Order K⦄ where
  unfoldable pub member : K → OrdSet K → Bool
  member k s = elim (find k s) [ none ↦ false | some _ ↦ true ]

  unfoldable pub add : K → OrdSet K → OrdSet K
  add k s = insert k tt s

  pub member-add : (k j : K) (s : OrdSet K) → member j (add k s) ≡ (key_eq j k || member j s)
  unfolding member add
  member-add k j s = ground (arith, find-insert k j tt s)

  pub member-erase :
      (k j : K) (s : OrdSet K) → member j (erase k s) ≡ (not (key_eq j k) && member j s)
  unfolding member
  member-erase k j s = ground (arith, find-erase k j s)
