-- ===== src/Modules/Service.antt =====
-- ModuleService.cpp and ModuleResult.cpp: enabling and disabling modules by name, over the manager, the
-- bus and the file of the state store. What a module does itself is left out.
pub mod Restart
use nexus_mainframe.Common.{
  ◌≡◌, refl, List, [], ◌∷◌, ◌++◌, Str, codes, Bool, true, false, Option, none, some, if◌then◌else◌,
  if_cases, arith,
}
use nexus_mainframe.Json.{Json}
use nexus_mainframe.Event.Bus.{EventBus}
use nexus_mainframe.Home.Result.{Result, ok, not_found, conflict, failed, is_ok}
use nexus_mainframe.Modules.Manager.{
  ModuleManager, contains, store_add, store_remove, is_loaded, load, unload, load_from_state,
}
use nexus_mainframe.Modules.StateFile

unfoldable pub already_loaded : Str → Result
already_loaded name = conflict (codes "Module '" ++ name ++ codes "' is already loaded")

unfoldable pub not_loaded : Str → Result
not_loaded name = conflict (codes "Module '" ++ name ++ codes "' is not loaded")

-- The manager, the bus, and the file of the state store.
abbrev pub State : Type 0 → Type 0
State C = ModuleManager × EventBus C × Option Str

-- `opens` says whether the file of the store can be opened for writing.
module _ {J C : Type 0} (json : Json J) (opens : Bool) where
  -- `stateStore_.save()` at the end of `unload`; `none` stands for its exception.
  keep_unload : Bool × ModuleManager × EventBus C → Option Str → Option Bool × State C
  keep_unload (false, m, bus) file = (some false, (m, bus, file))
  keep_unload (true, m, bus) file =
      let (saved, written) = StateFile.save json opens file m.store in
      if saved then (some true, (m, bus, written)) else (none, (m, bus, written))

  -- In `load` the module is kept behind `save`: it goes with an exception.
  unfoldable pub keep_load :
      List Str → Bool × ModuleManager × EventBus C → Option Str → Option Bool × State C
  keep_load before (false, m, bus) file = (some false, (m, bus, file))
  keep_load before (true, m, bus) file =
      let (saved, written) = StateFile.save json opens file m.store in
      if saved
      then (some true, (m, bus, written))
      else (none, (record m { loaded = before }, bus, written))

  unfoldable pub enabled : Str → Option Bool × State C → Option Result × State C
  enabled name (none, s) = (none, s)
  enabled name (some true, s) = (some (ok (codes "Module '" ++ name ++ codes "' enabled")), s)
  enabled name (some false, s) =
      (some (not_found (codes "Failed to load module '" ++ name ++ codes "'")), s)

  disabled : Str → Option Bool × State C → Option Result × State C
  disabled name (none, s) = (none, s)
  disabled name (some true, s) = (some (ok (codes "Module '" ++ name ++ codes "' disabled")), s)
  disabled name (some false, s) =
      (some (failed (codes "Failed to disable module '" ++ name ++ codes "'")), s)

  unfoldable pub disable : Str → State C → Option Result × State C
  unfolding disabled keep_unload
  disable name (m, bus, file) =
      if is_loaded m name
      then disabled name (keep_unload (unload name (m, bus)) file)
      else (some (not_loaded name), (m, bus, file))

  module _ (loader : Str → Option Str) where
    unfoldable pub enable : Str → State C → Option Result × State C
    unfolding enabled keep_load
    enable name (m, bus, file) =
        if is_loaded m name
        then (some (already_loaded name), (m, bus, file))
        else enabled name (keep_load m.loaded (load loader name (m, bus)) file)

module _ {J C : Type 0} (json : Json J) (loader : Str → Option Str) where
  -- The manager is made, its store is loaded from the file, and the modules of the store are.
  unfoldable pub start : EventBus C → Option Str → State C
  start bus file =
      let (m, bus') =
        load_from_state loader (record { loaded = []; store = StateFile.load json file [] }, bus) in
      (m, bus', file)
