-- ===== src/Http/Server.antt =====
-- HttpServer.cpp: the routes and their binding, and the bodies of the built-in routes. What the HTTP
-- library does with a bound route, the thread, the clock and the size of the process are arguments or
-- left out; so are log lines.
use nexus_mainframe.Common.{
  ℕ, zero, suc, ◌==◌, ◌/◌, ◌%◌, List, [], ◌∷◌, ◌++◌, Str, codes, str_eq, Bool, true, false, leb,
  Option, none, some, if◌then◌else◌,
}
use nexus_mainframe.Common.Ints.{to_string}
use nexus_mainframe.Http.Endpoint.{
  Endpoint, HttpMethod, get_method, post_method, put_method, patch_method, delete_method,
  head_method, options_method, describe,
}

-- A handler that is bound holds a reference to its endpoint: a place in `_routes`, which is good
-- until the vector changes.
pub record Binding : Type 0 where
  pub method : HttpMethod
  pub path : Str
  pub generation : ℕ
  pub place : ℕ

-- `_server` is the list of the routes bound in it; `generation` counts the changes of `_routes`.
pub record HttpServer (H : Type 0) : Type 0 where
  pub running : Bool
  pub routes : List (Endpoint H)
  pub generation : ℕ
  pub bound : List Binding

-- The handlers that `registerRoutes` makes.
pub record Builtins (H : Type 0) : Type 0 where
  pub status : H
  pub health : H
  pub metrics : H

unfoldable pub is_bindable : HttpMethod → Bool
is_bindable get_method = true
is_bindable post_method = true
is_bindable put_method = true
is_bindable patch_method = true
is_bindable delete_method = true
is_bindable head_method = false
is_bindable options_method = false

module _ {H : Type 0} where
  unfoldable pub add_route : Endpoint H → HttpServer H → HttpServer H
  add_route ep s = record s { routes = s.routes ++ ep ∷ []; generation = suc s.generation }

  -- A controller is the routes that it registers.
  unfoldable pub use_controller : List (Endpoint H) → HttpServer H → HttpServer H
  use_controller [] s = s
  use_controller (ep ∷ eps) s = use_controller eps (add_route ep s)

  builtin : Str → Str → H → Str → Endpoint H
  builtin path name handler description = describe description (record {
    path = path;
    name = name;
    method = get_method;
    handler = handler;
    description = [];
    params = [];
  })

  unfoldable pub builtin_routes : Builtins H → List (Endpoint H)
  unfolding builtin
  builtin_routes b =
      builtin (codes "/api/status") (codes "status") b.status
        (codes "Check whether the server is running")
      ∷ builtin (codes "/api/health") (codes "health") b.health
          (codes "Return uptime, MQTT connection status and number of loaded modules")
      ∷ builtin (codes "/api/metrics") (codes "metrics") b.metrics
          (codes "Return detailed runtime metrics including memory usage and endpoint count")
      ∷ []

  unfoldable pub register_routes : Builtins H → HttpServer H → HttpServer H
  register_routes b s = record s {
    routes = builtin_routes b ++ s.routes;
    generation = suc s.generation;
  }

  unfoldable pub bind_all : ℕ → ℕ → List (Endpoint H) → List Binding → List Binding
  bind_all generation place [] bound = bound
  bind_all generation place (ep ∷ eps) bound = bind_all generation (suc place) eps (
      if is_bindable ep.method
      then bound
        ++ record { method = ep.method; path = ep.path; generation = generation; place = place }
          ∷ []
      else bound)

  unfoldable pub bind_routes : HttpServer H → HttpServer H
  bind_routes s = record s { bound = bind_all s.generation 0 s.routes s.bound }

  nth : ℕ → List (Endpoint H) → Option (Endpoint H)
  nth i [] = none
  nth zero (ep ∷ eps) = some ep
  nth (suc i) (ep ∷ eps) = nth i eps

  -- The endpoint that a bound handler calls; `none` is a reference that dangles.
  unfoldable pub endpoint_of : HttpServer H → Binding → Option (Endpoint H)
  unfolding nth
  endpoint_of s b = if b.generation == s.generation then nth b.place s.routes else none

  unfoldable pub start : Builtins H → HttpServer H → HttpServer H
  start b s = if s.running then s else bind_routes (register_routes b (record s { running = true }))

  unfoldable pub stop : HttpServer H → HttpServer H
  stop s = if s.running then record s { running = false } else s

-- The label of a route in the log of `start`.
unfoldable pub method_label : HttpMethod → Str
method_label get_method = codes "GET   "
method_label post_method = codes "POST  "
method_label put_method = codes "PUT   "
method_label patch_method = codes "PATCH "
method_label _ = codes "?     "

-- The level at which an answered request is logged.
unfoldable pub request_level : ℕ → Str
request_level status =
    if leb 500 status then codes "error" else if leb 400 status then codes "warn" else codes "info"

-- The status where the request is answered before any route, `none` where it goes on.
unfoldable pub pre_routing : Str → Option ℕ
pre_routing method = if str_eq method (codes "OPTIONS") then some 204 else none

unfoldable pub show_bool : Bool → Str
show_bool true = codes "true"
show_bool false = codes "false"

unfoldable pub to_json : Bool → Str → Str
to_json success output =
    codes "{\"success\": " ++ show_bool success ++ codes ",\"output\": \"" ++ output ++ codes "\"}"

unfoldable pub uptime_human : ℕ → Str
uptime_human uptime =
    to_string (uptime / 3600)
    ++ codes "h "
    ++ to_string (uptime % 3600 / 60)
    ++ codes "m "
    ++ to_string (uptime % 60)
    ++ codes "s"

unfoldable pub health_body : ℕ → Bool → ℕ → Str
health_body uptime mqtt_connected modules =
    codes "{\"status\":\"ok\",\"uptime_seconds\":"
    ++ to_string uptime
    ++ codes ",\"uptime_human\":\""
    ++ uptime_human uptime
    ++ codes "\",\"mqtt_connected\":"
    ++ show_bool mqtt_connected
    ++ codes ",\"modules_loaded\":"
    ++ to_string modules
    ++ codes "}"

unfoldable pub metrics_body : ℕ → Bool → ℕ → ℕ → ℕ → Str
metrics_body uptime mqtt_connected modules rss endpoints =
    codes "{\"uptime_seconds\":"
    ++ to_string uptime
    ++ codes ",\"mqtt_connected\":"
    ++ show_bool mqtt_connected
    ++ codes ",\"modules_loaded\":"
    ++ to_string modules
    ++ codes ",\"memory_rss_kb\":"
    ++ to_string rss
    ++ codes ",\"endpoints_registered\":"
    ++ to_string endpoints
    ++ codes "}"
