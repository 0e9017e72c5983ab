-- ===== src/Modules/Service/Restart.antt =====
-- What of an enabled module is left when the program starts again.
use nexus_mainframe.Common.{
  ◌≡◌, refl, sym, ◌∙◌, ap, List, [], ◌∷◌, ◌++◌, Str, true, false, Option, none, some, str_eq_self,
  Bool-cases, inl, inr, arith,
}
use mathlib.Core.Option.{some-injective}
use nexus_mainframe.Json.{Json}
use nexus_mainframe.Event.Bus.{EventBus}
use nexus_mainframe.Home.Result.{Result, conflict, is_ok}
use nexus_mainframe.Modules.Manager.{
  ModuleManager, contains, store_add, is_loaded, load, load_from_state,
}
use nexus_mainframe.Modules.Manager
use nexus_mainframe.Modules.Manager.Names.{contains-push}
use nexus_mainframe.Modules.Manager.Restored.{restore_all-loads}
use nexus_mainframe.Modules.StateFile
use nexus_mainframe.Modules.Service.{already_loaded, enable, start, enabled, keep_load}

contains-store_add : (name : Str) (names : List Str) → contains name (store_add name names) ≡ true
unfolding store_add
contains-store_add name names = elim (Bool-cases (contains name names)) [
  | inl e ↦ rw (store_add, e) e
  | inr e ↦ rw (store_add, e) (ground (arith, contains-push name name names, str_eq_self name))
]

known-is_ok : (name : Str) (r : Result) → some (already_loaded name) ≡ some r → is_ok r ≡ false
unfolding already_loaded conflict is_ok
known-is_ok name r e = ap is_ok (sym (some-injective (already_loaded name) r e))

module _ {J C : Type 0} (json : Json J) (loader : Str → Option Str) where
  start-loads :
      (name : Str) (file : Option Str) (names : List Str) (bus : EventBus C)
      → loader name ≡ some name
      → contains name names ≡ true
      → (StateFile.save json true file names).0 ≡ true
      → is_loaded (start json loader bus (StateFile.save json true file names).1).0 name ≡ true
  unfolding start load_from_state is_loaded contains
  start-loads name file names bus e h k =
      rw (start, StateFile.load-save json file names [] k)
        (restore_all-loads loader name names _ e (ground (arith, h)))

  load_known :
      (name : Str) (m : ModuleManager) (bus : EventBus C)
      → loader name ≡ some name
      → is_loaded m name ≡ false
      → load loader name (m, bus) ≡ (
        true,
        record { loaded = m.loaded ++ name ∷ []; store = store_add name m.store },
        Manager.enable name bus,
      )
  unfolding load
  load_known name m bus e h = rw (load, h, e) refl

  enable-known :
      (name : Str) (m : ModuleManager) (bus : EventBus C) (file : Option Str)
      → loader name ≡ some name
      → is_loaded m name ≡ true
      → (enable json true loader name (m, bus, file)).0 ≡ some (already_loaded name)
  unfolding enable
  enable-known name m bus file e h = rw (enable, h) refl

  enable-saved :
      (name : Str) (m : ModuleManager) (bus : EventBus C) (file : Option Str)
      → loader name ≡ some name
      → is_loaded m name ≡ false
      → (StateFile.save json true file (store_add name m.store)).0 ≡ true
      → (enable json true loader name (m, bus, file)).1.2
        ≡ (StateFile.save json true file (store_add name m.store)).1
  unfolding enable enabled keep_load
  enable-saved name m bus file e h k =
      rw (enable, h, load_known name m bus e h, keep_load, k, enabled) refl

  enable-unsaved :
      (name : Str) (m : ModuleManager) (bus : EventBus C) (file : Option Str)
      → loader name ≡ some name
      → is_loaded m name ≡ false
      → (StateFile.save json true file (store_add name m.store)).0 ≡ false
      → (enable json true loader name (m, bus, file)).0 ≡ none
  unfolding enable enabled keep_load
  enable-unsaved name m bus file e h k =
      rw (enable, h, load_known name m bus e h, keep_load, k, enabled) refl

  -- Where the file of the state store can be opened: a module that `enable` has answered to have
  -- enabled is loaded again when the service starts from the file that this left, if the loader still
  -- finds it and it calls itself by the name of its file.
  pub start-enable :
      (name : Str) (m : ModuleManager) (bus bus' : EventBus C) (file : Option Str) (r : Result)
      → loader name ≡ some name
      → (enable json true loader name (m, bus, file)).0 ≡ some r
      → is_ok r ≡ true
      → is_loaded (start json loader bus' (enable json true loader name (m, bus, file)).1.2).0 name
        ≡ true
  start-enable name m bus bus' file r e a k = elim (Bool-cases (is_loaded m name)) [
    | inl old ↦
        absurd
          (ground (arith, k, known-is_ok name r (sym (enable-known name m bus file e old) ∙ a)))
    | inr new ↦ elim (Bool-cases (StateFile.save json true file (store_add name m.store)).0) [
      | inl kept ↦ rw (enable-saved name m bus file e new kept) (
          start-loads name file (store_add name m.store) bus' e (contains-store_add name m.store)
            kept)
      | inr lost ↦ absurd (ground (arith, a, enable-unsaved name m bus file e new lost))
    ]
  ]
