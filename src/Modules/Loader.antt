-- ===== src/Modules/Loader.antt =====
-- ModuleLoader.cpp and Module.cpp: how a library becomes a module, and how both are given back. The
-- platform's operations on libraries are a parameter; handles, functions and instances are numbers,
-- and a null pointer is `none`. The directory of the modules is an argument. `createModule` and
-- `getName` return: what they throw would leave `load`.
use nexus_mainframe.Common.{
  ℕ, ◌≡◌, refl, List, [], ◌∷◌, ◌++◌, Str, Bool, false, Option, none, some, if◌then◌else◌,
}
use nexus_mainframe.Paths.{join}

-- `get_function` looks for the symbol `createModule`; `get_name` is `IModule::getName()`.
pub record Operations : Type 0 where
  pub library_extension : Str
  pub load_library : Str → Option ℕ
  pub get_function : ℕ → Option ℕ
  pub create_module : ℕ → Option ℕ
  pub get_name : ℕ → Str

pub data Effect : Type 0 where
  opened : ℕ → Effect
  created : ℕ → Effect
  destroyed : ℕ → Effect
  closed : ℕ → Effect

-- What has been done, the last first.
abbrev pub Trace : Type 0
Trace = List Effect

-- `handle` is what `handleFree_` closes.
pub record Module : Type 0 where
  pub name : Str
  pub path : Str
  pub instance_id : Option ℕ
  pub handle : Option ℕ

unfoldable pub reset_instance : Option ℕ → Trace → Trace
reset_instance none w = w
reset_instance (some i) w = destroyed i ∷ w

unfoldable pub free_handle : Option ℕ → Trace → Trace
free_handle none w = w
free_handle (some h) w = closed h ∷ w

-- The destructor.
unfoldable pub destroy : Module → Trace → Trace
destroy m w = free_handle m.handle (reset_instance m.instance_id w)

-- A string or function that was moved from is taken to be empty.
unfoldable pub moved_from : Module
moved_from = record { name = []; path = []; instance_id = none; handle = none }

-- The new module, and the one it was moved from.
unfoldable pub move_construct : Module → Module × Module
move_construct other = (other, moved_from)

-- Both modules afterwards; `same` is `this == &other`.
unfoldable pub move_assign : Bool → Module → Module → Trace → (Module × Module) × Trace
move_assign same m other w =
    if same
    then ((m, other), w)
    else ((other, moved_from), free_handle m.handle (reset_instance m.instance_id w))

module _ (ops : Operations) where
  make_module : Str → ℕ → Option ℕ → Trace → Option Module × Trace
  make_module name h none w = (none, closed h ∷ w)
  make_module name h (some i) w = (
    some (record { name = ops.get_name i; path = name; instance_id = some i; handle = some h }),
    created i ∷ w,
  )

  call_create : Str → ℕ → Option ℕ → Trace → Option Module × Trace
  unfolding make_module
  call_create name h none w = (none, closed h ∷ w)
  call_create name h (some f) w = make_module name h (ops.create_module f) w

  from_library : Str → Option ℕ → Trace → Option Module × Trace
  unfolding call_create
  from_library name none w = (none, w)
  from_library name (some h) w = call_create name h (ops.get_function h) (opened h ∷ w)

  unfoldable pub load : Str → Str → Trace → Option Module × Trace
  unfolding from_library
  load directory name w =
      from_library name (ops.load_library (join directory (name ++ ops.library_extension))) w

-- What `load` may have done by the time that the module it gave is destroyed.
pub data Complete (w : Trace) : Trace → Type 0 where
  untouched : Complete w w
  given_up : (h : ℕ) → Complete w (closed h ∷ opened h ∷ w)
  used : (h i : ℕ) → Complete w (closed h ∷ destroyed i ∷ created i ∷ opened h ∷ w)

unfoldable pub destroy_loaded : Option Module × Trace → Trace
destroy_loaded (none, w) = w
destroy_loaded (some m, w) = destroy m w

module _ (ops : Operations) where
  make_module-Complete :
      (name : Str) (h : ℕ) (raw : Option ℕ) (w : Trace)
      → Complete w (destroy_loaded (make_module ops name h raw (opened h ∷ w)))
  unfolding make_module destroy_loaded destroy free_handle reset_instance
  make_module-Complete name h none w = given_up h
  make_module-Complete name h (some i) w = used h i

  call_create-Complete :
      (name : Str) (h : ℕ) (found : Option ℕ) (w : Trace)
      → Complete w (destroy_loaded (call_create ops name h found (opened h ∷ w)))
  unfolding call_create destroy_loaded
  call_create-Complete name h none w = given_up h
  call_create-Complete name h (some f) w = make_module-Complete name h (ops.create_module f) w

  from_library-Complete :
      (name : Str) (library : Option ℕ) (w : Trace)
      → Complete w (destroy_loaded (from_library ops name library w))
  unfolding from_library destroy_loaded
  from_library-Complete name none w = untouched
  from_library-Complete name (some h) w = call_create-Complete name h (ops.get_function h) w

  -- What `load` opens is closed: by `load` itself where it gives no module, and otherwise when the
  -- module is destroyed, once, and behind the instance that came out of the library. Nothing is closed
  -- that was not opened.
  pub load-Complete :
      (directory name : Str) (w : Trace) → Complete w (destroy_loaded (load ops directory name w))
  unfolding load
  load-Complete directory name w =
      from_library-Complete name (ops.load_library (join directory (name ++ ops.library_extension)))
        w

-- Moves hand a library over: destroying both modules after an assignment does what destroying the
-- old one and then the other does.
pub destroy-move_assign :
    (m other : Module) (w : Trace)
    → destroy
        (move_assign false m other w).0.1
        (destroy (move_assign false m other w).0.0 (move_assign false m other w).1)
      ≡ destroy other (destroy m w)
unfolding move_assign destroy moved_from free_handle reset_instance
destroy-move_assign m other w = refl
