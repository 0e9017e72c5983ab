-- ===== src/Modules/Manager.antt =====
-- ModuleManager.cpp and the names of ModuleStateStore.cpp. A module is the name that it gives itself,
-- `IModule::getName()`; `loader` is `ModuleLoader::load`, by the name of the file. What a module does
-- in `initialize` and `shutdown`, and the file of the store, are left out.
pub mod Names
pub mod Restored
use nexus_mainframe.Common.{
  List, [], ◌∷◌, ◌++◌, Str, codes, Bool, true, false, not, Option, none, some, if◌then◌else◌, any,
  keep_if, str_eq,
}
use nexus_mainframe.Event.Bus.{EventBus, Event, text, publish}

unfoldable pub contains : Str → List Str → Bool
contains name names = any (λ n. str_eq n name) names

unfoldable pub store_add : Str → List Str → List Str
store_add name names = if contains name names then names else names ++ name ∷ []

unfoldable pub store_remove : Str → List Str → List Str
store_remove name names = keep_if (λ n. not (str_eq n name)) names

pub record ModuleManager : Type 0 where
  pub loaded : List Str
  pub store : List Str

unfoldable pub is_loaded : ModuleManager → Str → Bool
is_loaded m name = any (λ n. str_eq n name) m.loaded

-- `loaded_.erase(it)` at the first module of a name.
unfoldable pub erase_module : Str → List Str → List Str
erase_module name [] = []
erase_module name (n ∷ ns) =
    let rest = erase_module name ns in if str_eq n name then ns else n ∷ rest

module _ {C : Type 0} where
  unfoldable pub enable : Str → EventBus C → EventBus C
  enable name bus = publish bus (record { name = codes "event:enable"; payload = text name })

  unfoldable pub unload : Str → ModuleManager × EventBus C → Bool × ModuleManager × EventBus C
  unload name (m, bus) =
      if is_loaded m name
      then (
        true,
        record { loaded = erase_module name m.loaded; store = store_remove name m.store },
        publish bus (record { name = codes "event:disable"; payload = text name }),
      )
      else (false, m, bus)

  module _ (loader : Str → Option Str) where
    unfoldable pub load : Str → ModuleManager × EventBus C → Bool × ModuleManager × EventBus C
    load name (m, bus) = if is_loaded m name then (false, m, bus) else elim (loader name) [
      | none ↦ (false, m, bus)
      | some mod' ↦ (
        true,
        record { loaded = m.loaded ++ mod' ∷ []; store = store_add name m.store },
        enable mod' bus,
      )
    ]

    unfoldable pub restore_one : Str → ModuleManager × EventBus C → ModuleManager × EventBus C
    restore_one name (m, bus) = if is_loaded m name then (m, bus) else elim (loader name) [
      | none ↦ (m, bus)
      | some mod' ↦ (record m { loaded = m.loaded ++ mod' ∷ [] }, enable mod' bus)
    ]

    -- `loadFromState`, over the names of the store.
    unfoldable pub restore_all : List Str → ModuleManager × EventBus C → ModuleManager × EventBus C
    restore_all [] s = s
    restore_all (name ∷ names) s = restore_all names (restore_one name s)

    unfoldable pub load_from_state : ModuleManager × EventBus C → ModuleManager × EventBus C
    load_from_state (m, bus) = restore_all m.store (m, bus)

    -- `loadFromDirectory`, over the stems of its files.
    unfoldable pub load_from_directory :
        List Str → ModuleManager × EventBus C → ModuleManager × EventBus C
    load_from_directory [] s = s
    load_from_directory (name ∷ names) s =
        let (_, m, bus) = load name s in load_from_directory names (m, bus)
