-- ===== src/Modules/Tests.antt =====
-- A manager of modules at concrete inputs.
use nexus_mainframe.Common.{
  ◌≡◌, refl, sym, [], ◌++◌, ◌∷◌, Str, codes, any, true, false, none, Option, some, str_eq,
}
use mathlib.Core.Option.{some-injective}
use nexus_mainframe.Event.Bus.{EventBus, init}
use nexus_mainframe.Json.Packed.{packed}
use nexus_mainframe.Home.Result.{ok, is_ok}
use nexus_mainframe.Modules.Manager.{ModuleManager, is_loaded, contains, load, unload}
use nexus_mainframe.Modules.Service.{enable, enabled, keep_load, start}
use nexus_mainframe.Modules.Service.Restart.{start-enable}
use nexus_mainframe.Modules.StateFile
use nexus_mainframe.Modules.Loader.{Operations, Complete, destroy_loaded, load-Complete}
use nexus_mainframe.Modules.Loader
use nexus_mainframe.Modules.Manager.Names.{
  Once, loads, unloads, restores, loads_directory, load-again, run_modules, run_modules-Once,
}

abbrev loader : Str → Option Str
loader name = some name

abbrev bus : EventBus Str
bus = init

abbrev manager : ModuleManager
manager = record { loaded = codes "cast" ∷ []; store = codes "cast" ∷ codes "hue" ∷ [] }

manager-Once : Once manager.loaded
unfolding contains any
manager-Once = (refl, tt)

run_modules-Once_example :
    Once
      (run_modules loader
        (manager, bus)
        (restores
          ∷ loads (codes "hue")
          ∷ loads_directory (codes "zigbee" ∷ [])
          ∷ unloads (codes "cast")
          ∷ [])).0.loaded
run_modules-Once_example =
    run_modules-Once loader (manager, bus)
      (restores
        ∷ loads (codes "hue")
        ∷ loads_directory (codes "zigbee" ∷ [])
        ∷ unloads (codes "cast")
        ∷ [])
      (λ name mod' e. sym (some-injective name mod' e)) manager-Once

hue_absent :
    (is_loaded manager (codes "hue") ≡ false) × (contains (codes "zigbee") manager.store ≡ false)
unfolding is_loaded contains any str_eq
hue_absent = (refl, refl)

zigbee_absent : is_loaded manager (codes "zigbee") ≡ false
unfolding is_loaded any str_eq
zigbee_absent = refl

-- The file has another name than the module.
abbrev chromecast : Str → Option Str
chromecast name = some (codes "ChromecastModule")

abbrev file_name : Str
file_name = codes "NexusChromecastModule"

other_name : str_eq (codes "ChromecastModule") file_name ≡ false
unfolding str_eq
other_name = refl

file_absent : is_loaded manager file_name ≡ false
unfolding is_loaded any str_eq
file_absent = refl

load-again_example :
    (m' : ModuleManager) × (bus' : EventBus Str) × ((load chromecast file_name (manager, bus)).0
      ≡ true)
    × (load chromecast file_name (
      (load chromecast file_name (manager, bus)).1,
      (load chromecast file_name (manager, bus)).2,
    )
        ≡ (true, m', bus'))
    × (m'.loaded
        ≡ (manager.loaded ++ codes "ChromecastModule" ∷ []) ++ codes "ChromecastModule" ∷ [])
    × (unload file_name (m', bus') ≡ (false, m', bus'))
load-again_example =
    load-again chromecast file_name (codes "ChromecastModule") manager bus refl other_name
      file_absent

enabled_hue :
    (enable packed true loader (codes "hue") (manager, bus, none)).0
    ≡ some (ok (codes "Module 'hue' enabled"))
unfolding enable enabled keep_load load StateFile.save is_loaded any str_eq
enabled_hue = refl

ok_hue : is_ok (ok (codes "Module 'hue' enabled")) ≡ true
unfolding is_ok ok
ok_hue = refl

start-enable_example :
    is_loaded
      (start packed loader bus (enable packed true loader (codes "hue") (manager, bus, none)).1.2).0
      (codes "hue")
    ≡ true
start-enable_example =
    start-enable packed loader (codes "hue") manager bus bus none
      (ok (codes "Module 'hue' enabled")) refl enabled_hue ok_hue

-- A platform that has every library, each with a module.
abbrev platform : Operations
platform = record {
  library_extension = codes ".so";
  load_library = λ path. some 1;
  get_function = λ h. some 2;
  create_module = λ f. some 3;
  get_name = λ i. codes "cast";
}

load-Complete_example :
    Complete [] (destroy_loaded (Loader.load platform (codes "/modules") (codes "cast") []))
load-Complete_example = load-Complete platform (codes "/modules") (codes "cast") []
