-- ===== src/Modules/Manager/Restored.antt =====
-- What `loadFromState` loads.
use nexus_mainframe.Common.{
  ◌≡◌, List, [], ◌∷◌, ◌++◌, Str, Bool, true, ◌||◌, Option, none, some, any, str_eq, str_eq_self,
  str_eq_iff, if_cases, arith, Bool-cases, inl, inr, subst, sym,
}
use nexus_mainframe.Event.Bus.{EventBus}
use nexus_mainframe.Modules.Manager.{
  contains, ModuleManager, is_loaded, enable, restore_one, restore_all,
}
use nexus_mainframe.Modules.Manager.Names.{contains-push}

module _ {C : Type 0} (loader : Str → Option Str) (name : Str) where
  abbrev pub has : ModuleManager × EventBus C → Bool
  has s = contains name s.0.loaded

  restored-has :
      (found : Option Str) (m : ModuleManager) (bus : EventBus C)
      → contains name m.loaded ≡ true
      → has (elim found as (λ _. ModuleManager × EventBus C) [
        | none ↦ (m, bus)
        | some mod' ↦ (record m { loaded = m.loaded ++ mod' ∷ [] }, enable mod' bus)
      ])
        ≡ true
  restored-has none m bus h = h
  restored-has (some mod') m bus h = ground (arith, contains-push mod' name m.loaded)

  restore_one-keeps :
      (x : Str) (s : ModuleManager × EventBus C)
      → has s ≡ true
      → has (restore_one loader x s) ≡ true
  unfolding restore_one
  restore_one-keeps x (m, bus) h =
      if_cases (λ (s : ModuleManager × EventBus C). has s ≡ true) (is_loaded m x) _ _ (λ t. h)
        λ f. restored-has (loader x) m bus h

  restore_one-loads :
      (s : ModuleManager × EventBus C)
      → loader name ≡ some name
      → has (restore_one loader name s) ≡ true
  unfolding restore_one is_loaded contains
  restore_one-loads (m, bus) e =
      if_cases (λ (s : ModuleManager × EventBus C). has s ≡ true) (is_loaded m name) _ _ (λ t. t)
        λ f. rw e (ground (arith, contains-push name name m.loaded, str_eq_self name))

  restore_one-member :
      (x : Str) (names : List Str) (s : ModuleManager × EventBus C)
      → loader name ≡ some name
      → contains name (x ∷ names) || has s ≡ true
      → contains name names || has (restore_one loader x s) ≡ true
  unfolding contains any
  restore_one-member x names s e h = elim (Bool-cases (str_eq x name)) [
    | inl hit ↦ ground (
      arith,
      restore_one-loads s e,
      subst (λ y. has (restore_one loader y s) ≡ true) (sym ((str_eq_iff x name).0 hit))
          (restore_one-loads s e),
    )
    | inr miss ↦ elim (Bool-cases (has s)) [
      | inl old ↦ ground (arith, restore_one-keeps x s old)
      | inr new ↦ ground arith
    ]
  ]

  pub restore_all-loads :
      (names : List Str) (s : ModuleManager × EventBus C)
      → loader name ≡ some name
      → contains name names || has s ≡ true
      → has (restore_all loader names s) ≡ true
  unfolding restore_all contains any
  restore_all-loads [] s e h = h
  restore_all-loads (x ∷ names) s e h =
      restore_all-loads names (restore_one loader x s) e (restore_one-member x names s e h)
