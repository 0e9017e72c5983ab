-- ===== src/Http/Mcp.antt =====
-- McpServer.cpp: the server, and the dispatch of JSON-RPC methods. The library's server, its thread and
-- the headers of its answers are left out. `none` stands for an exception.
pub mod Answers
pub mod Tools
use nexus_mainframe.Common.{
  ℕ, List, [], ◌∷◌, ◌++◌, Str, codes, str_eq, is_empty, Bool, true, false, Option, none, some,
  if◌then◌else◌, map,
}
use nexus_mainframe.Common.Options.{◌>>=◌}
use nexus_mainframe.Common.Ints.{ℤ, pos, negsuc}
use nexus_mainframe.Json.{Json}
use nexus_mainframe.Http.Endpoint.{Endpoint, HttpMethod, to_string, build_input_schema}
use nexus_mainframe.Http.Proxy.{Reply, call_endpoint}

pub record McpServer (H : Type 0) : Type 0 where
  pub routes : List (Endpoint H)
  pub api_base : Str
  pub running : Bool

-- What an HTTP request is answered; a status of `none` is the library's own.
pub record Response : Type 0 where
  pub status : Option ℕ
  pub body : Option Str

module _ {H : Type 0} where
  unfoldable pub new_server : List (Endpoint H) → Str → McpServer H
  new_server routes api_base = record { routes = routes; api_base = api_base; running = false }

  unfoldable pub start : McpServer H → McpServer H
  start s = record s { running = true }

  unfoldable pub stop : McpServer H → McpServer H
  stop s = if s.running then record s { running = false } else s

  -- The first endpoint of a name.
  unfoldable pub find_route : Str → List (Endpoint H) → Option (Endpoint H)
  find_route name [] = none
  find_route name (ep ∷ eps) =
      let rest = find_route name eps in if str_eq ep.name name then some ep else rest

-- -32601, -32602 and -32700.
abbrev pub method_not_found : ℤ
method_not_found = negsuc 32600

abbrev pub invalid_params : ℤ
invalid_params = negsuc 32601

abbrev pub parse_error : ℤ
parse_error = negsuc 32699

module _ {J : Type 0} (json : Json J) where
  unfoldable pub ok : J → J → J
  ok id result = json.object (
      (codes "jsonrpc", json.string (codes "2.0"))
      ∷ (codes "id", id)
      ∷ (codes "result", result)
      ∷ [])

  unfoldable pub err : J → ℤ → Str → J
  err id code msg = json.object (
      (codes "jsonrpc", json.string (codes "2.0"))
      ∷ (codes "id", id)
      ∷ (
        codes "error",
        json.object ((codes "code", json.integer code) ∷ (codes "message", json.string msg) ∷ []),
      )
      ∷ [])

  unfoldable pub text : Str → J
  text content =
      json.object
        ((codes "type", json.string (codes "text")) ∷ (codes "text", json.string content) ∷ [])

  unfoldable pub handle_initialize : J → J
  handle_initialize id = ok id (
      json.object (
        (codes "protocolVersion", json.string (codes "2025-03-26"))
        ∷ (
          codes "serverInfo",
          json.object (
              (codes "name", json.string (codes "nexus-mcp"))
              ∷ (codes "version", json.string (codes "1.0.0"))
              ∷ []),
        )
        ∷ (codes "capabilities", json.object ((codes "tools", json.object []) ∷ []))
        ∷ []))

  unfoldable pub tool_json : {H : Type 0} → Endpoint H → J
  tool_json ep = json.object (
      (codes "name", json.string ep.name)
      ∷ (
        codes "description",
        json.string (if is_empty ep.description then to_string ep else ep.description),
      )
      ∷ (codes "inputSchema", build_input_schema json ep)
      ∷ [])

  unfoldable pub handle_tools_list : {H : Type 0} → List (Endpoint H) → J → J
  handle_tools_list routes id =
      ok id (json.object ((codes "tools", json.array (map tool_json routes)) ∷ []))

  unfoldable pub tool_result : J → Option Str → Option J
  tool_result id none = none
  tool_result id (some printed) =
      some (ok id (json.object ((codes "content", json.array (text printed ∷ [])) ∷ [])))

module _ {J H W : Type 0} (json : Json J) (http : HttpMethod → Str → ℤ → Str → Str → W → Reply × W)
    (s : McpServer H) where
  unfoldable pub content_of : J → Option J × W → Option J × W
  content_of id (none, w) = (none, w)
  content_of id (some result, w) = (tool_result json id (json.dump_indented result), w)

  unfoldable pub call_tool : Str → J → J → W → Option J × W
  unfolding content_of
  call_tool name args id w = elim (find_route name s.routes) [
    | none ↦ (some (err json id invalid_params (codes "Unknown tool: " ++ name)), w)
    | some ep ↦ content_of id (call_endpoint json http s.api_base ep args w)
  ]

  unfoldable pub handle_tools_call : J → J → W → Option J × W
  handle_tools_call params id w = elim (json.value_string params (codes "name") []) [
    | none ↦ (none, w)
    | some name ↦ elim (json.value_json params (codes "arguments") (json.object [])) [
      | none ↦ (none, w)
      | some args ↦ call_tool name args id w
    ]
  ]

  unfoldable pub dispatch_method : J → Str → J → W → Option J × W
  dispatch_method id method params w =
      if str_eq method (codes "initialize")
      then (some (handle_initialize json id), w)
      else if str_eq method (codes "notifications/initialized")
      then (some json.null, w)
      else if str_eq method (codes "ping")
      then (some (ok json id (json.object [])), w)
      else if str_eq method (codes "tools/list")
      then (some (handle_tools_list json s.routes id), w)
      else if str_eq method (codes "tools/call")
      then handle_tools_call params id w
      else (some (err json id method_not_found (codes "Method not found: " ++ method)), w)

  unfoldable pub read_request : J → Option (J × Str × J)
  read_request req = do
    id ← json.value_json req (codes "id") json.null
    method ← json.value_string req (codes "method") []
    params ← json.value_json req (codes "params") (json.object [])
    some (id, method, params)

  unfoldable pub dispatch : J → W → Option J × W
  unfolding read_request
  dispatch req w = elim (read_request req) [
    | none ↦ (none, w)
    | some (id, method, params) ↦ dispatch_method id method params w
  ]

  -- `dump` of the answer may throw as well; the text of the error is `none` where its own does.
  refused : Response
  refused = record {
    status = some 400;
    body = json.dump (err json json.null parse_error (codes "Parse error"));
  }

  answer : Option J → Response
  unfolding refused
  answer none = refused
  answer (some response) =
      if json.is_null response
      then record { status = some 204; body = none }
      else elim (json.dump response) [
        | none ↦ refused
        | some body ↦ record { status = none; body = some body }
      ]

  -- The handler of `/mcp`.
  unfoldable pub post : Str → W → Response × W
  unfolding answer
  post body w = elim (json.parse body) [
    | none ↦ (answer none, w)
    | some req ↦ let (response, w') = dispatch req w in (answer response, w')
  ]
