-- ===== src/Config/Controller.antt =====
-- ConfigController.cpp: the handlers of the routes of the configuration. The configuration is shared
-- with the program; `none` stands for an exception, which the HTTP library answers.
pub mod Survives
mod Tests
use nexus_mainframe.Common.{
  List, [], ◌∷◌, ◌++◌, Str, codes, Bool, true, false, Option, none, some, if◌then◌else◌, map,
}
use nexus_mainframe.Common.Options.{◌>>=◌}
use nexus_mainframe.Json.{Json}
use nexus_mainframe.Http.Endpoint.{HttpMethod, get_method, patch_method}
use nexus_mainframe.Home.Result.{bad_request}
use nexus_mainframe.Home.DeviceController.{Response, respond}
use nexus_mainframe.Config.{
  NexusConfig, Progress, going, thrown, ◌then_do◌, taken, to_json, save, on_section,
}

-- `routeTable`: the method, the path, the name and the description of each route.
unfoldable route_table : List (HttpMethod × Str × Str × Str)
route_table =
    (get_method, codes "/api/config", codes "config_show", codes "Return current configuration")
    ∷ (
      patch_method,
      codes "/api/config",
      codes "config_update",
      codes "Update configuration and save to disk",
    )
    ∷ []

-- The configuration, and the names for which the program must start again.
abbrev Changed : Type 0
Changed = NexusConfig × List Str

module _ {J : Type 0} (json : Json J) where
  unfoldable show : NexusConfig → Option Response
  show c = do
    text ← json.dump_indented (to_json json c)
    some (record { status = none; body = text })

  -- `if (m.contains(key))`, the assignment of `m[key]`, and its name.
  on_key :
      {A : Type 0}
      → Str
      → Str
      → (J → Str → Option A)
      → (NexusConfig → A → NexusConfig)
      → J
      → Changed
      → Progress Changed
  on_key k name read set m (c, names) =
      if json.contains m k
      then taken (read m k) (λ v. (set c v, names ++ name ∷ [])) (c, names)
      else going (c, names)

  change_mqtt : J → Changed → Progress Changed
  unfolding on_key
  change_mqtt m s =
      on_key (codes "host") (codes "mqtt.host") json.at_string (λ c v. record c { host = v }) m s
      then_do on_key (codes "port") (codes "mqtt.port") json.at_int (λ c v. record c { port = v }) m
      then_do on_key (codes "client_id") (codes "mqtt.client_id") json.at_string
          (λ c v. record c { client_id = v }) m

  unfoldable change : J → Changed → Progress Changed
  unfolding change_mqtt on_key
  change body s =
      on_section json (codes "mqtt") change_mqtt body s
      then_do on_section json (codes "http")
          (on_key (codes "port") (codes "http.port") json.at_int
            (λ c v. record c { http_port = v }))
          body
      then_do on_section json (codes "ws")
          (on_key (codes "port") (codes "ws.port") json.at_int (λ c v. record c { ws_port = v }))
          body

  restart_fields : List Str → List (Str × J)
  restart_fields [] = []
  restart_fields (name ∷ names) =
      (codes "restart_required", json.array (map json.string (name ∷ names))) ∷ []

  update_body : Changed → J
  unfolding restart_fields
  update_body (c, names) = json.object (
      (codes "success", json.boolean true)
      ∷ (codes "config", to_json json c)
      ∷ restart_fields names)

  -- The answer, the configuration and its file. What is assigned before an exception stays assigned.
  finish : Bool → Progress Changed → Option Str → Option Response × NexusConfig × Option Str
  unfolding update_body
  finish writes (thrown (c, names)) file = (none, c, file)
  finish writes (going (c, names)) file =
      let (saved, written) = save json writes file c in
      if saved
      then (
        (do
          text ← json.dump_indented (update_body (c, names))
          some (record { status = none; body = text })),
        c,
        written,
      )
      else (none, c, written)

  unfoldable update :
      Bool → NexusConfig → Option Str → Str → Option Response × NexusConfig × Option Str
  unfolding finish
  update writes c file text = elim (json.parse text) [
    | none ↦ (respond json (bad_request (codes "Invalid JSON body")), c, file)
    | some body ↦ finish writes (change body (c, [])) file
  ]
