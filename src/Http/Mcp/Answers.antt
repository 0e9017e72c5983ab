-- ===== src/Http/Mcp/Answers.antt =====
-- What the client of the MCP server can rely on.
use nexus_mainframe.Common.{
  ◌≡◌, inl, inr, refl, sym, subst, ◌∙◌, List, [], ◌∷◌, ◌++◌, Str, codes, str_eq, false, not, Option,
  none, some, if_cases, option_cases, Option-cases, arith,
}
use nexus_mainframe.Common.Ints.{ℤ}
use nexus_mainframe.Json.{Json, field, has_field}
use nexus_mainframe.Http.Endpoint.{HttpMethod}
use nexus_mainframe.Http.Proxy.{Reply, call_endpoint}
use nexus_mainframe.Http.Mcp.{
  McpServer, ok, err, handle_initialize, handle_tools_list, find_route, content_of, tool_result,
  call_tool, handle_tools_call, dispatch_method, read_request, dispatch, invalid_params,
}

-- A response to the request of an id: one of a result and an error.
pub record Answers {J : Type 0} (json : Json J) (id r : J) : Type 0 where
  pub version : json.at r (codes "jsonrpc") ≡ some (json.string (codes "2.0"))
  pub echo : json.at r (codes "id") ≡ some id
  pub either : json.contains r (codes "result") ≡ not (json.contains r (codes "error"))

unfoldable pub Replied : {J : Type 0} → Json J → J → Option J → Type 0
Replied json id none = Unit {0}
Replied json id (some r) = Answers json id r

module _ {J : Type 0} (json : Json J) where
  abbrev response : J → Str → J → List (Str × J)
  response id kind value =
      (codes "jsonrpc", json.string (codes "2.0")) ∷ (codes "id", id) ∷ (kind, value) ∷ []

  ok-Answers : (id result : J) → Answers json id (ok json id result)
  unfolding ok field has_field str_eq
  ok-Answers id result =
      let fs = response id (codes "result") result in
      record {
        version = json.at-object fs (codes "jsonrpc") _ refl;
        echo = json.at-object fs (codes "id") _ refl;
        either =
            rw (json.contains-object fs (codes "result"), json.contains-object fs (codes "error"))
              refl;
      }

  err-Answers : (id : J) (code : ℤ) (msg : Str) → Answers json id (err json id code msg)
  unfolding err field has_field str_eq
  err-Answers id code msg =
      let fs = response id (codes "error") _ in
      record {
        version = json.at-object fs (codes "jsonrpc") _ refl;
        echo = json.at-object fs (codes "id") _ refl;
        either =
            rw (json.contains-object fs (codes "result"), json.contains-object fs (codes "error"))
              refl;
      }

module _ {J H W : Type 0} (json : Json J) (http : HttpMethod → Str → ℤ → Str → Str → W → Reply × W)
    (s : McpServer H) where
  tool_result-Replied : (id : J) (o : Option Str) → Replied json id (tool_result json id o)
  unfolding tool_result Replied
  tool_result-Replied id none = tt
  tool_result-Replied id (some printed) = ok-Answers json id _

  content_of-Replied : (id : J) (o : Option J × W) → Replied json id (content_of json http s id o).0
  unfolding content_of Replied
  content_of-Replied id (none, w) = tt
  content_of-Replied id (some result, w) = tool_result-Replied id (json.dump_indented result)

  call_tool-Replied :
      (name : Str) (args id : J) (w : W) → Replied json id (call_tool json http s name args id w).0
  unfolding call_tool Replied
  call_tool-Replied name args id w =
      option_cases (λ (o : Option J × W). Replied json id o.0) (find_route name s.routes)
        (some (err json id invalid_params (codes "Unknown tool: " ++ name)), w)
        (λ ep. content_of json http s id (call_endpoint json http s.api_base ep args w))
        (λ _. err-Answers json id _ _)
        λ ep e. content_of-Replied id (call_endpoint json http s.api_base ep args w)

  handle_tools_call-Replied :
      (params id : J) (w : W) → Replied json id (handle_tools_call json http s params id w).0
  unfolding handle_tools_call Replied
  handle_tools_call-Replied params id w =
      option_cases (λ (o : Option J × W). Replied json id o.0)
        (json.value_string params (codes "name") []) _ _ (λ _. tt)
        λ name e.
          option_cases (λ (o : Option J × W). Replied json id o.0)
            (json.value_json params (codes "arguments") (json.object [])) _ _ (λ _. tt)
            λ args f. call_tool-Replied name args id w

  dispatch_method-Replied :
      (id : J) (method : Str) (params : J) (w : W)
      → str_eq method (codes "notifications/initialized") ≡ false
      → Replied json id (dispatch_method json http s id method params w).0
  unfolding dispatch_method Replied handle_initialize handle_tools_list
  dispatch_method-Replied id method params w n =
      let P = λ (o : Option J × W). Replied json id o.0 in
      if_cases P (str_eq method (codes "initialize")) _ _ (λ _. ok-Answers json id _)
        λ _.
          if_cases P (str_eq method (codes "notifications/initialized")) _ _
            (λ y. absurd (ground (arith, y, n)))
            λ _.
              if_cases P (str_eq method (codes "ping")) _ _ (λ _. ok-Answers json id _)
                λ _.
                  if_cases P (str_eq method (codes "tools/list")) _ _ (λ _. ok-Answers json id _)
                    λ _.
                      if_cases P (str_eq method (codes "tools/call")) _ _
                        (λ _. handle_tools_call-Replied params id w) λ _. err-Answers json id _ _

  dispatch-read :
      (fs : List (Str × J)) (id : J) (method : Str) (w : W)
      → field (codes "id") fs ≡ some id
      → field (codes "method") fs ≡ some (json.string method)
      → (params : J) × (dispatch json http s (json.object fs) w
          ≡ dispatch_method json http s id method params w)
  unfolding dispatch read_request
  dispatch-read fs id method w e f = elim (Option-cases (field (codes "params") fs)) [
    | inl n ↦ (
      json.object [],
      rw
          (
            dispatch,
            json.value_json-object fs (codes "id") json.null id e,
            json.value_string-object fs (codes "method") [] method f,
            json.value_json_absent fs (codes "params") (json.object []) n,
          )
          refl,
    )
    | inr (params, g) ↦ (
      params,
      rw
          (
            dispatch,
            json.value_json-object fs (codes "id") json.null id e,
            json.value_string-object fs (codes "method") [] method f,
            json.value_json-object fs (codes "params") (json.object []) params g,
          )
          refl,
    )
  ]

  -- A request with an id and a method that is not the notification, where no exception leaves
  -- `dispatch`, is answered with its id, by exactly one of a result and an error, whatever the method
  -- and its parameters are.
  pub dispatch-Answers :
      (fs : List (Str × J)) (id r : J) (method : Str) (w w' : W)
      → field (codes "id") fs ≡ some id
      → field (codes "method") fs ≡ some (json.string method)
      → str_eq method (codes "notifications/initialized") ≡ false
      → dispatch json http s (json.object fs) w ≡ (some r, w')
      → Answers json id r
  unfolding Replied
  dispatch-Answers fs id r method w w' e f n d =
      let (params, read) = dispatch-read fs id method w e f in
      subst (λ (o : Option J × W). Replied json id o.0) (sym read ∙ d)
        (dispatch_method-Replied id method params w n)
