-- ===== src/Config/Saved.antt =====
-- What the file of the configuration keeps.
use nexus_mainframe.Common.{
  ◌≡◌, refl, ap, List, [], ◌∷◌, Str, codes, str_eq, Bool, true, false, Option, none, some,
  Option-cases, inl, inr, arith,
}
use nexus_mainframe.Common.Ints.{ℤ, IsInt}
use nexus_mainframe.Json.{Json, field, has_field}
use nexus_mainframe.Config.{
  NexusConfig, Progress, going, taken, defaults, mqtt_fields, config_fields, to_json, save,
  on_section, read_mqtt, read_http, read_ws, read_config, read_so_far, load_or_create,
}

-- The ports are of the type `int`.
abbrev pub IsConfig : NexusConfig → Type 0
IsConfig c = IsInt c.port × IsInt c.http_port × IsInt c.ws_port

module _ {J : Type 0} (json : Json J) where
  section_of :
      (fs : List (Str × J)) (k : Str) (v : J) {S : Type 0} (run : J → S → Progress S) (s : S)
      → field k fs ≡ some v
      → on_section json k run (json.object fs) s ≡ run v s
  unfolding on_section has_field
  section_of fs k v run s e =
      rw (on_section, json.contains-object fs k, has_field, e, json.at-object fs k v e) refl

  read_mqtt-object :
      (c d : NexusConfig)
      → IsInt c.port
      → read_mqtt json (json.object (mqtt_fields json c)) d
        ≡ going (record d { host = c.host; port = c.port; client_id = c.client_id })
  unfolding read_mqtt mqtt_fields field str_eq taken
  read_mqtt-object c d h =
      rw
        (
          json.value_string-object (mqtt_fields json c) (codes "host") d.host c.host refl,
          json.value_int-object (mqtt_fields json c) (codes "port") d.port c.port h refl,
          json.value_string-object (mqtt_fields json c) (codes "client_id") d.client_id c.client_id
              refl,
        )
        refl

  read_http-object :
      (i : ℤ) (d : NexusConfig)
      → IsInt i
      → read_http json (json.object ((codes "port", json.integer i) ∷ [])) d
        ≡ going (record d { http_port = i })
  unfolding read_http field str_eq taken
  read_http-object i d h = rw (json.value_int-object _ (codes "port") d.http_port i h refl) refl

  read_ws-object :
      (i : ℤ) (d : NexusConfig)
      → IsInt i
      → read_ws json (json.object ((codes "port", json.integer i) ∷ [])) d
        ≡ going (record d { ws_port = i })
  unfolding read_ws field str_eq taken
  read_ws-object i d h = rw (json.value_int-object _ (codes "port") d.ws_port i h refl) refl

  read_config-to_json :
      (c d : NexusConfig) → IsConfig c → read_config json (to_json json c) d ≡ going c
  unfolding read_config to_json config_fields field str_eq
  read_config-to_json c d h =
      rw
        (
          section_of (config_fields json c) (codes "mqtt") _ (read_mqtt json) d refl,
          read_mqtt-object c d h.0,
          section_of (config_fields json c) (codes "http") _ (read_http json) _ refl,
          read_http-object c.http_port _ h.1,
          section_of (config_fields json c) (codes "ws") _ (read_ws json) _ refl,
        )
        (read_ws-object c.ws_port _ h.2)

  -- A configuration that is saved without an exception, to a file that can be written, is the one that
  -- the program starts with when it reads that file, which it leaves as it is.
  pub load-save :
      (writes : Bool) (file : Option Str) (c : NexusConfig)
      → IsConfig c
      → (save json true file c).0 ≡ true
      → load_or_create json writes (save json true file c).1 ≡ (some c, (save json true file c).1)
  unfolding save load_or_create read_so_far
  load-save writes file c h ok = elim (Option-cases (json.dump_indented (to_json json c))) [
    | inl e ↦ absurd (ground (arith, ok, ap (λ (b : Bool × Option Str). b.0) (saved_none e)))
    | inr (text, e) ↦
        rw
          (
            save,
            e,
            load_or_create,
            json.parse-dump_indented (to_json json c) text e,
            read_config-to_json c defaults h,
          )
          refl
  ]
    where
      saved_none :
          json.dump_indented (to_json json c) ≡ none → save json true file c ≡ (false, some [])
      saved_none e = rw (save, e) refl
