-- ===== src/Paths/Lookup.antt =====
-- What the other parts of the program find under the keys.
use nexus_mainframe.Common.{
  ◌≡◌, refl, sym, ap, subst, ◌∙◌, Str, codes, true, Option, none, some, is_empty, option_cases,
  if_cases,
}
use nexus_mainframe.Common.OrdMap.{insert, find-insert, key_eq}
use nexus_mainframe.Common.Keys.{str_order, str_cmp}
use nexus_mainframe.Paths.{
  PathManager, Checked, good, bad, get, register_path, register_resolver, join, ◌>>=◌, FileSystem,
  validate_is_directory, created, validated, ensure_exists, init_paths,
}

bind-good :
    {A B : Type 0} (x : Checked A) (f : A → Checked B) (b : B)
    → (x >>= f) ≡ good b
    → (a : A) × (x ≡ good a) × (f a ≡ good b)
bind-good (good a) f b e = (a, refl, e)
bind-good (bad x) f b e = absurd (cc)

good-injective : {A : Type 0} {a b : A} → good a ≡ good b → a ≡ b
good-injective {a = a} e = ap (λ x. elim x [ good y ↦ y | bad z ↦ a ]) e

module _ {F : Type 0} (fs : FileSystem F) where
  validated-good :
      (key path : Str) (o : Option F) (f' : F)
      → validated fs key path o ≡ good f'
      → fs.is_directory f' path ≡ some true
  unfolding validated validate_is_directory
  validated-good key path none f' e = absurd (cc)
  validated-good key path (some f) f' e =
      option_cases (λ (c : Checked F). c ≡ good f' → fs.is_directory f' path ≡ some true)
        (fs.is_directory f path) _ _ (λ n q. absurd (cc))
        (λ b d.
          if_cases (λ (c : Checked F). c ≡ good f' → fs.is_directory f' path ≡ some true) b _ _
            (λ t q.
              subst (λ g. fs.is_directory g path ≡ some true) (good-injective q) (d ∙ ap some t))
            λ n q. absurd (cc))
        e

  -- Where `ensureExists` throws nothing, its key is known and its path is a directory.
  pub ensure_exists-good :
      (m : PathManager) (f f' : F) (key : Str)
      → ensure_exists fs m f key ≡ good f'
      → (path : Str) × (get m key ≡ good path) × (fs.is_directory f' path ≡ some true)
  unfolding ensure_exists
  ensure_exists-good m f f' key e =
      let (path, found, valid) = bind-good (get m key) _ f' e in
      (path, found, validated-good key path (created fs f path (fs.exists f path)) f' valid)

-- The paths that `initPaths` registers.
abbrev pub data_paths : PathManager → PathManager
data_paths m = record m {
  path_resolvers =
      insert (codes "config.nexus") (λ base. join base (codes "config/nexus.json"))
        (insert (codes "data.rooms") (λ base. join base (codes "data/rooms.json"))
          (insert (codes "data.devices") (λ base. join base (codes "data/devices.json"))
            (insert (codes "modules.registry")
              (λ base. join base (codes "modules/available-modules.json")) m.path_resolvers)));
}

get-data_paths :
    (m : PathManager)
    → (get (data_paths m) (codes "data.devices")
        ≡ good (join m.base_path (codes "data/devices.json")))
      × (get (data_paths m) (codes "data.rooms")
          ≡ good (join m.base_path (codes "data/rooms.json")))
      × (get (data_paths m) (codes "config.nexus")
          ≡ good (join m.base_path (codes "config/nexus.json")))
unfolding get key_eq str_cmp
get-data_paths m = (
  rw
      (
        get,
        find-insert (codes "config.nexus") (codes "data.devices"),
        find-insert (codes "data.rooms") (codes "data.devices"),
        find-insert (codes "data.devices") (codes "data.devices"),
      )
      refl,
  rw
      (
        get,
        find-insert (codes "config.nexus") (codes "data.rooms"),
        find-insert (codes "data.rooms") (codes "data.rooms"),
      )
      refl,
  rw (get, find-insert (codes "config.nexus") (codes "config.nexus")) refl,
)

module _ {F : Type 0} (fs : FileSystem F) where
  init_paths-data_paths :
      (m m' : PathManager) (f0 f' : F) → init_paths fs m f0 ≡ good (m', f') → m' ≡ data_paths m
  unfolding init_paths register_path register_resolver is_empty
  init_paths-data_paths m m' f0 f' e0 =
      let (f1, x1, e1) =
        bind-good (ensure_exists fs m f0 (codes "modules.builtin")) _ (m', f') e0 in
      let (f2, x2, e2) = bind-good (ensure_exists fs m f1 (codes "modules.downloaded")) _ _ e1 in
      let (f3, x3, e3) = bind-good (ensure_exists fs m f2 (codes "config")) _ _ e2 in
      let (f4, x4, e4) = bind-good (ensure_exists fs m f3 (codes "cache.downloads")) _ _ e3 in
      let (f5, x5, e5) = bind-good (ensure_exists fs m f4 (codes "logs")) _ _ e4 in
      let (f6, x6, e6) = bind-good (ensure_exists fs m f5 (codes "data.scans")) _ _ e5 in
      sym (ap (λ s. s.0) (good-injective e6))

  -- Where `initPaths` throws nothing, the keys under which the registries and the configuration are
  -- looked up name their files below the base path: none of these lookups throws.
  pub init_paths-get :
      (m m' : PathManager) (f f' : F)
      → init_paths fs m f ≡ good (m', f')
      → (get m' (codes "data.devices") ≡ good (join m.base_path (codes "data/devices.json")))
        × (get m' (codes "data.rooms") ≡ good (join m.base_path (codes "data/rooms.json")))
        × (get m' (codes "config.nexus") ≡ good (join m.base_path (codes "config/nexus.json")))
  init_paths-get m m' f f' e =
      subst
        (λ (k : PathManager).
          (get k (codes "data.devices") ≡ good (join m.base_path (codes "data/devices.json")))
          × (get k (codes "data.rooms") ≡ good (join m.base_path (codes "data/rooms.json")))
          × (get k (codes "config.nexus") ≡ good (join m.base_path (codes "config/nexus.json"))))
        (sym (init_paths-data_paths m m' f f' e)) (get-data_paths m)
