-- ===== src/Paths/Tests.antt =====
-- The paths of a home directory, over a file system that is the list of its directories.
use nexus_mainframe.Common.{◌≡◌, refl, List, [], ◌∷◌, Str, codes, str_eq, any, some, is_empty}
use nexus_mainframe.Common.OrdMap.{find, insert}
use nexus_mainframe.Common.Keys.{str_cmp}
use nexus_mainframe.Paths.{
  PathManager, good, get, join, FileSystem, construct, register_core_paths, register_all,
  register_path, register_resolver, core_path, ensure_exists, created, create_missing, validated,
  validate_is_directory, init_paths,
}
use nexus_mainframe.Paths
use nexus_mainframe.Paths.Lookup.{data_paths, init_paths-get}

abbrev directories : FileSystem (List Str)
directories = record {
  exists = λ f p. some (any (λ d. str_eq d p) f);
  is_directory = λ f p. some (any (λ d. str_eq d p) f);
  create_directories = λ f p. some (p ∷ f);
}

abbrev home : PathManager
home = record {
  base_path = codes "/home/.nexus";
  path_resolvers =
      (codes "cache.downloads", core_path (codes "cache" ∷ codes "downloads" ∷ []))
      ∷ (codes "config", core_path (codes "config" ∷ []))
      ∷ (codes "data.scans", core_path (codes "data" ∷ codes "scan-results" ∷ []))
      ∷ (codes "logs", core_path (codes "logs" ∷ []))
      ∷ (codes "modules.builtin", core_path (codes "modules" ∷ codes "builtin" ∷ []))
      ∷ (codes "modules.downloaded", core_path (codes "modules" ∷ codes "downloaded" ∷ []))
      ∷ [];
}

creates_logs :
    ensure_exists directories home [] (codes "logs") ≡ good (codes "/home/.nexus/logs" ∷ [])
unfolding ensure_exists get find str_cmp core_path join is_empty created create_missing validated
    validate_is_directory any str_eq Paths.starts_with_slash Paths.ends_with_slash
creates_logs = refl

abbrev made : List Str
made =
    codes "/home/.nexus/data/scan-results"
    ∷ codes "/home/.nexus/logs"
    ∷ codes "/home/.nexus/cache/downloads"
    ∷ codes "/home/.nexus/config"
    ∷ codes "/home/.nexus/modules/downloaded"
    ∷ codes "/home/.nexus/modules/builtin"
    ∷ []

initialized : init_paths directories home [] ≡ good (data_paths home, made)
unfolding init_paths register_path register_resolver ensure_exists get find str_cmp core_path join
    is_empty created create_missing validated validate_is_directory any str_eq insert
    Paths.starts_with_slash Paths.ends_with_slash
initialized = refl

init_paths-get_example :
    (get (data_paths home) (codes "data.devices") ≡ good (codes "/home/.nexus/data/devices.json"))
    × (get (data_paths home) (codes "data.rooms") ≡ good (codes "/home/.nexus/data/rooms.json"))
    × (get (data_paths home) (codes "config.nexus") ≡ good (codes "/home/.nexus/config/nexus.json"))
unfolding join is_empty Paths.starts_with_slash Paths.ends_with_slash
init_paths-get_example = init_paths-get directories home (data_paths home) [] made initialized
