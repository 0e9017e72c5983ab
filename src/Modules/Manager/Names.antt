-- ===== src/Modules/Manager/Names.antt =====
-- Each module is loaded once, where a module's own name is that of its file.
use nexus_mainframe.Common.{
  ◌≡◌, refl, ◌∙◌, List, [], ◌∷◌, ◌++◌, Str, Bool, true, false, Option, none, some, if◌then◌else◌,
  any, keep_if, str_eq, str_eq_iff, str_eq_self, if_cases, arith,
}
use nexus_mainframe.Event.Bus.{EventBus}
use nexus_mainframe.Modules.Manager.{
  contains, store_add, store_remove, ModuleManager, is_loaded, erase_module, enable, unload, load,
  restore_one, restore_all, load_from_state, load_from_directory,
}

abbrev pub Once : List Str → Type 0
Once [] = Unit {0}
Once (n ∷ ns) = (contains n ns ≡ false) × Once ns

pub contains-push :
    (a b : Str) (ns : List Str)
    → contains b (ns ++ a ∷ []) ≡ (if contains b ns then true else str_eq a b)
unfolding contains any
contains-push a b [] = ground arith
contains-push a b (n ∷ ns) = ground (arith, contains-push a b ns)

Once-push : (a : Str) (ns : List Str) → contains a ns ≡ false → Once ns → Once (ns ++ a ∷ [])
unfolding contains any
Once-push a [] h o = (refl, tt)
Once-push a (n ∷ ns) h o = (
  ground (arith, contains-push a n ns, o.0, h, str_eq_iff a n, str_eq_iff n a),
  Once-push a ns (ground arith) o.1,
)

erase-push : (a : Str) (ns : List Str) → contains a ns ≡ false → erase_module a (ns ++ a ∷ []) ≡ ns
unfolding contains any erase_module
erase-push a [] h = ground (arith, str_eq_self a)
erase-push a (n ∷ ns) h = ground (arith, erase-push a ns)

remove-push : (a : Str) (ns : List Str) → contains a ns ≡ false → store_remove a (ns ++ a ∷ []) ≡ ns
unfolding contains any store_remove keep_if
remove-push a [] h = ground (arith, str_eq_self a)
remove-push a (n ∷ ns) h = ground (arith, remove-push a ns)

contains-erase :
    (a b : Str) (ns : List Str) → contains b ns ≡ false → contains b (erase_module a ns) ≡ false
unfolding contains any erase_module
contains-erase a b [] h = refl
contains-erase a b (n ∷ ns) h = ground (arith, contains-erase a b ns)

Once-erase : (a : Str) (ns : List Str) → Once ns → Once (erase_module a ns)
unfolding erase_module
Once-erase a [] o = tt
Once-erase a (n ∷ ns) o =
    if_cases (λ (l : List Str). Once l) (str_eq n a) _ _ (λ t. o.1)
      λ f. (contains-erase a n ns o.0, Once-erase a ns o.1)

is_loaded-push :
    (name : Str) (m : ModuleManager)
    → is_loaded m name ≡ false
    → is_loaded (record { loaded = m.loaded ++ name ∷ []; store = m.store ++ name ∷ [] }) name
      ≡ true
unfolding is_loaded contains
is_loaded-push name m h = ground (arith, contains-push name name m.loaded, str_eq_self name)

not_loaded-push :
    (name mod' : Str) (m : ModuleManager) (names : List Str)
    → str_eq mod' name ≡ false
    → is_loaded m name ≡ false
    → is_loaded (record { loaded = m.loaded ++ mod' ∷ []; store = names }) name ≡ false
unfolding is_loaded contains
not_loaded-push name mod' m names d h = ground (arith, contains-push mod' name m.loaded)

pub data ModuleCall : Type 0 where
  loads : Str → ModuleCall
  unloads : Str → ModuleCall
  restores : ModuleCall
  loads_directory : List Str → ModuleCall

module _ (loader : Str → Option Str) where
  abbrev pub IsNamed : Type 0
  IsNamed = (name mod' : Str) → loader name ≡ some mod' → mod' ≡ name

  module _ {C : Type 0} where
    load-Once :
        (name : Str) (m : ModuleManager) (bus : EventBus C)
        → IsNamed
        → Once m.loaded
        → Once (load loader name (m, bus)).1.loaded
    unfolding load is_loaded contains
    load-Once name m bus h o =
        if_cases (λ (s : Bool × ModuleManager × EventBus C). Once s.1.loaded) (is_loaded m name) _ _
          (λ t. o) λ f. pushed f (loader name) (h name)
      where
        pushed :
            is_loaded m name ≡ false
            → (found : Option Str) → ((x : Str) → found ≡ some x → x ≡ name)
            → Once
                (elim found as (λ _. Bool × ModuleManager × EventBus C) [
                  | none ↦ (false, m, bus)
                  | some mod' ↦ (
                    true,
                    record { loaded = m.loaded ++ mod' ∷ []; store = store_add name m.store },
                    enable mod' bus,
                  )
                ]).1.loaded
        pushed f none g = o
        pushed f (some x) g = Once-push x m.loaded (rw (g x refl) f) o

    restore_one-Once :
        (name : Str) (s : ModuleManager × EventBus C)
        → IsNamed
        → Once s.0.loaded
        → Once (restore_one loader name s).0.loaded
    unfolding restore_one is_loaded contains
    restore_one-Once name (m, bus) h o =
        if_cases (λ (s : ModuleManager × EventBus C). Once s.0.loaded) (is_loaded m name) _ _
          (λ t. o) λ f. pushed f (loader name) (h name)
      where
        pushed :
            is_loaded m name ≡ false
            → (found : Option Str) → ((x : Str) → found ≡ some x → x ≡ name)
            → Once
                (elim found as (λ _. ModuleManager × EventBus C) [
                  | none ↦ (m, bus)
                  | some mod' ↦ (record m { loaded = m.loaded ++ mod' ∷ [] }, enable mod' bus)
                ]).0.loaded
        pushed f none g = o
        pushed f (some x) g = Once-push x m.loaded (rw (g x refl) f) o

    restore_all-Once :
        (names : List Str) (s : ModuleManager × EventBus C)
        → IsNamed
        → Once s.0.loaded
        → Once (restore_all loader names s).0.loaded
    unfolding restore_all
    restore_all-Once [] s h o = o
    restore_all-Once (name ∷ names) s h o =
        restore_all-Once names (restore_one loader name s) h (restore_one-Once name s h o)

    unload-Once :
        (name : Str) (m : ModuleManager) (bus : EventBus C)
        → Once m.loaded
        → Once (unload name (m, bus)).1.loaded
    unfolding unload
    unload-Once name m bus o =
        if_cases (λ (s : Bool × ModuleManager × EventBus C). Once s.1.loaded) (is_loaded m name) _ _
          (λ t. Once-erase name m.loaded o) λ f. o

    directory-Once :
        (names : List Str) (m : ModuleManager) (bus : EventBus C)
        → IsNamed
        → Once m.loaded
        → Once (load_from_directory loader names (m, bus)).0.loaded
    unfolding load_from_directory
    directory-Once [] m bus h o = o
    directory-Once (name ∷ names) m bus h o =
        directory-Once names (load loader name (m, bus)).1 (load loader name (m, bus)).2 h
          (load-Once name m bus h o)

    unfoldable pub step : ModuleManager × EventBus C → ModuleCall → ModuleManager × EventBus C
    step s (loads name) = let (_, m, bus) = load loader name s in (m, bus)
    step s (unloads name) = let (_, m, bus) = unload name s in (m, bus)
    step s restores = load_from_state loader s
    step s (loads_directory names) = load_from_directory loader names s

    step-Once :
        (s : ModuleManager × EventBus C) (c : ModuleCall)
        → IsNamed
        → Once s.0.loaded
        → Once (step s c).0.loaded
    unfolding step load_from_state
    step-Once s (loads name) h o = load-Once name s.0 s.1 h o
    step-Once s (unloads name) h o = unload-Once name s.0 s.1 o
    step-Once s restores h o = restore_all-Once s.0.store s h o
    step-Once (m, bus) (loads_directory names) h o = directory-Once names m bus h o

    unfoldable pub run_modules :
        ModuleManager × EventBus C → List ModuleCall → ModuleManager × EventBus C
    run_modules s [] = s
    run_modules s (c ∷ cs) = run_modules (step s c) cs

    -- Where every module that the loader gives calls itself by the name of its file, and no module is
    -- loaded twice at first, no calls of load, unload, loadFromState and loadFromDirectory load one
    -- twice. (A module with another name than its file, as the Chromecast module is, is loaded again by
    -- each call.)
    pub run_modules-Once :
        (s : ModuleManager × EventBus C) (cs : List ModuleCall)
        → IsNamed
        → Once s.0.loaded
        → Once (run_modules s cs).0.loaded
    unfolding run_modules
    run_modules-Once s [] h o = o
    run_modules-Once s (c ∷ cs) h o = run_modules-Once (step s c) cs h (step-Once s c h o)

    load_found :
        (name : Str) (m : ModuleManager) (bus : EventBus C)
        → loader name ≡ some name
        → is_loaded m name ≡ false
        → contains name m.store ≡ false
        → load loader name (m, bus) ≡ (
          true,
          record { loaded = m.loaded ++ name ∷ []; store = m.store ++ name ∷ [] },
          enable name bus,
        )
    unfolding load store_add
    load_found name m bus e h k = rw h (rw e (rw k refl))

    unload_found :
        (name : Str) (m : ModuleManager) (bus : EventBus C)
        → is_loaded m name ≡ true
        → ((unload name (m, bus)).0 ≡ true)
          × ((unload name (m, bus)).1
              ≡ record { loaded = erase_module name m.loaded; store = store_remove name m.store })
    unfolding unload
    unload_found name m bus h = (rw h refl, rw h refl)

    load_other :
        (name mod' : Str) (m : ModuleManager) (bus : EventBus C)
        → loader name ≡ some mod'
        → is_loaded m name ≡ false
        → load loader name (m, bus) ≡ (
          true,
          record { loaded = m.loaded ++ mod' ∷ []; store = store_add name m.store },
          enable mod' bus,
        )
    unfolding load
    load_other name mod' m bus e h = rw (load, h, e) refl

    unload_missing :
        (name : Str) (m : ModuleManager) (bus : EventBus C)
        → is_loaded m name ≡ false
        → unload name (m, bus) ≡ (false, m, bus)
    unfolding unload
    unload_missing name m bus h = rw (unload, h) refl

    -- A module whose own name is not that of its file, and that is not loaded under the name of the
    -- file, is loaded again by a second load: both answer true, the module stands twice behind those
    -- that were loaded, and unloading by the name of the file then answers false and changes nothing.
    pub load-again :
        (name mod' : Str) (m : ModuleManager) (bus : EventBus C)
        → loader name ≡ some mod'
        → str_eq mod' name ≡ false
        → is_loaded m name ≡ false
        → (m' : ModuleManager) × (bus' : EventBus C) × ((load loader name (m, bus)).0 ≡ true)
          × (load loader name ((load loader name (m, bus)).1, (load loader name (m, bus)).2)
              ≡ (true, m', bus'))
          × (m'.loaded ≡ (m.loaded ++ mod' ∷ []) ++ mod' ∷ [])
          × (unload name (m', bus') ≡ (false, m', bus'))
    load-again name mod' m bus e d h =
        let store1 = store_add name m.store in
        let m1 : ModuleManager = record { loaded = m.loaded ++ mod' ∷ []; store = store1 } in
        let h1 : is_loaded m1 name ≡ false = not_loaded-push name mod' m store1 d h in
        let store2 = store_add name store1 in
        let m2 : ModuleManager = record { loaded = m1.loaded ++ mod' ∷ []; store = store2 } in
        let bus2 = enable mod' (enable mod' bus) in
        let h2 : is_loaded m2 name ≡ false = not_loaded-push name mod' m1 store2 d h1 in
        (
          m2,
          bus2,
          rw (load_other name mod' m bus e h) refl,
          rw (load_other name mod' m bus e h) (load_other name mod' m1 (enable mod' bus) e h1),
          refl,
          unload_missing name m2 bus2 h2,
        )

    -- A module that can be loaded, is not, and is not in the store, is loaded by `load`; unloading it
    -- again leaves the modules and the store as they were. Its own name must be that of its file.
    pub unload-load :
        (name : Str) (m : ModuleManager) (bus : EventBus C)
        → loader name ≡ some name
        → is_loaded m name ≡ false
        → contains name m.store ≡ false
        → ((load loader name (m, bus)).0 ≡ true)
          × ((unload name ((load loader name (m, bus)).1, (load loader name (m, bus)).2)).0 ≡ true)
          × ((unload name ((load loader name (m, bus)).1, (load loader name (m, bus)).2)).1 ≡ m)
    unfolding is_loaded contains
    unload-load name m bus e h k =
        let m' : ModuleManager = record {
          loaded = m.loaded ++ name ∷ [];
          store = m.store ++ name ∷ [];
        } in
        let has : is_loaded m' name ≡ true = is_loaded-push name m h in
        let (done, back) = unload_found name m' (enable name bus) has in
        let same : record {
          loaded = erase_module name m'.loaded;
          store = store_remove name m'.store;
        }
            ≡ m =
          ground (arith, erase-push name m.loaded h, remove-push name m.store k) in
        rw (load_found name m bus e h k) (refl, done, back ∙ same)
