-- ===== src/Paths.antt =====
-- PathManager, in src/paths/PathResolver.cpp, with PathValidator.hpp and the paths that the program
-- registers. A path is its text; a resolver maps the base path to a path. The file system is a state
-- `F` with three operations, `none` where they throw a `filesystem_error`. The texts of the exceptions
-- are left out.
pub mod Lookup
mod Tests
use nexus_mainframe.Common.{
  List, [], ◌∷◌, ◌++◌, Str, codes, is_empty, Bool, true, false, not, ◌==◌, Option, none, some,
  if◌then◌else◌,
}
use nexus_mainframe.Common.OrdMap.{OrdMap, find, insert}
use nexus_mainframe.Common.Keys.{str_order}

-- `operator/` of a POSIX path: an absolute right side stands alone, and no second slash is put in.
unfoldable pub starts_with_slash : Str → Bool
starts_with_slash [] = false
starts_with_slash (c ∷ s) = c == b'/'

unfoldable pub ends_with_slash : Str → Bool
ends_with_slash [] = false
ends_with_slash (c ∷ []) = c == b'/'
ends_with_slash (c ∷ d ∷ s) = ends_with_slash (d ∷ s)

unfoldable pub join : Str → Str → Str
unfolding starts_with_slash ends_with_slash
join base relative =
    if starts_with_slash relative
    then relative
    else if is_empty base
    then relative
    else if ends_with_slash base
    then base ++ relative
    else base ++ codes "/" ++ relative

-- What the methods throw.
pub data PathError : Type 0 where
  no_base_path : PathError
  unknown_key : Str → PathError
  empty_key : PathError
  null_resolver : Str → PathError
  empty_relative_path : PathError
  failed_to_create : Str → PathError
  not_a_directory : Str → PathError

pub data Checked (A : Type 0) : Type 0 where
  good : A → Checked A
  bad : PathError → Checked A

pub record PathManager : Type 0 where
  pub base_path : Str
  pub path_resolvers : OrdMap Str (Str → Str)

unfoldable pub get : PathManager → Str → Checked Str
get m key = elim (find key m.path_resolvers) [
  | none ↦ bad (unknown_key key)
  | some resolver ↦ good (resolver m.base_path)
]

-- A null `std::function` is `none`.
unfoldable pub register_resolver : PathManager → Str → Option (Str → Str) → Checked PathManager
register_resolver m key resolver = if is_empty key then bad empty_key else elim resolver [
  | none ↦ bad (null_resolver key)
  | some f ↦ good (record m { path_resolvers = insert key f m.path_resolvers })
]

unfoldable pub register_path : PathManager → Str → Str → Checked PathManager
register_path m key relative =
    if is_empty key
    then bad empty_key
    else register_resolver m key (some λ base. join base relative)

unfoldable pub get_custom : PathManager → Str → Checked Str
get_custom m relative =
    if is_empty relative then bad empty_relative_path else good (join m.base_path relative)

infixl 5 ◌>>=◌
abbrev pub ◌>>=◌ : {A B : Type 0} → Checked A → (A → Checked B) → Checked B
good a >>= f = f a
bad e >>= f = bad e

-- The directories below the base path, by their parts.
unfoldable pub core_path : List Str → Str → Str
core_path [] base = base
core_path (part ∷ parts) base = core_path parts (join base part)

register_all : List (Str × List Str) → PathManager → Checked PathManager
register_all [] m = good m
register_all ((key, parts) ∷ rest) m = do
  next ← register_resolver m key (some (core_path parts))
  register_all rest next

unfoldable pub register_core_paths : PathManager → Checked PathManager
unfolding register_all
register_core_paths m =
    register_all
      ((codes "base", [])
        ∷ (codes "modules", codes "modules" ∷ [])
        ∷ (codes "modules.builtin", codes "modules" ∷ codes "builtin" ∷ [])
        ∷ (codes "modules.downloaded", codes "modules" ∷ codes "downloaded" ∷ [])
        ∷ (codes "modules.custom", codes "modules" ∷ codes "custom" ∷ [])
        ∷ (codes "config", codes "config" ∷ [])
        ∷ (codes "cache", codes "cache" ∷ [])
        ∷ (codes "cache.downloads", codes "cache" ∷ codes "downloads" ∷ [])
        ∷ (codes "logs", codes "logs" ∷ [])
        ∷ (codes "data", codes "data" ∷ [])
        ∷ (codes "data.scans", codes "data" ∷ codes "scan-results" ∷ [])
        ∷ [])
      m

-- `FileSystem` is what the methods use of `std::filesystem`.
pub record FileSystem (F : Type 0) : Type 0 where
  pub exists : F → Str → Option Bool
  pub is_directory : F → Str → Option Bool
  pub create_directories : F → Str → Option F

module _ {F : Type 0} (fs : FileSystem F) where
  -- `parent` is whether the parent of the base path exists.
  unfoldable pub construct : Option Str → Bool → Checked PathManager
  construct none parent = bad no_base_path
  construct (some base) parent =
      if parent
      then register_core_paths (record { base_path = base; path_resolvers = [] })
      else bad no_base_path

  unfoldable pub validate_is_directory : F → Str → Str → Checked F
  validate_is_directory f key path = elim (fs.is_directory f path) [
    | none ↦ bad (failed_to_create key)
    | some b ↦ if b then good f else bad (not_a_directory key)
  ]

  unfoldable pub create_missing : F → Str → Bool → Option F
  create_missing f path there = if there then some f else fs.create_directories f path

  unfoldable pub created : F → Str → Option Bool → Option F
  unfolding create_missing
  created f path none = none
  created f path (some there) = create_missing f path there

  unfoldable pub validated : Str → Str → Option F → Checked F
  validated key path none = bad (failed_to_create key)
  validated key path (some f) = validate_is_directory f key path

  unfoldable pub ensure_exists : PathManager → F → Str → Checked F
  unfolding created validated
  ensure_exists m f key = do
    path ← get m key
    validated key path (created f path (fs.exists f path))

  -- `none` is the `filesystem_error` that `exists` lets through.
  unfoldable pub exists : PathManager → F → Str → Option Bool
  exists m f key = elim (get m key) [ bad e ↦ some false | good path ↦ fs.exists f path ]

  -- `initPaths` of the program.
  unfoldable pub init_paths : PathManager → F → Checked (PathManager × F)
  init_paths m f0 = do
    f1 ← ensure_exists m f0 (codes "modules.builtin")
    f2 ← ensure_exists m f1 (codes "modules.downloaded")
    f3 ← ensure_exists m f2 (codes "config")
    f4 ← ensure_exists m f3 (codes "cache.downloads")
    f5 ← ensure_exists m f4 (codes "logs")
    f6 ← ensure_exists m f5 (codes "data.scans")
    m1 ← register_path m (codes "modules.registry") (codes "modules/available-modules.json")
    m2 ← register_path m1 (codes "data.devices") (codes "data/devices.json")
    m3 ← register_path m2 (codes "data.rooms") (codes "data/rooms.json")
    m4 ← register_path m3 (codes "config.nexus") (codes "config/nexus.json")
    good (m4, f6)
