-- ===== src/Http/Mcp/Tools.antt =====
-- Which endpoint a tool's name stands for.
use nexus_mainframe.Common.{
  ◌≡◌, ◌⊎◌, List, [], ◌∷◌, ◌++◌, Str, codes, str_eq, true, false, All, none, some, Option,
}
use nexus_mainframe.Common.Ints.{ℤ}
use nexus_mainframe.Json.{Json}
use nexus_mainframe.Http.Endpoint.{
  Endpoint, HttpMethod, get_method, post_method, put_method, patch_method, delete_method,
  head_method, options_method,
}
use nexus_mainframe.Http.Proxy.{Reply, request_parts, reply_json}
use nexus_mainframe.Http.Mcp.{McpServer, tool_result}

module _ {H : Type 0} where
  abbrev pub NotNamed : Str → List (Endpoint H) → Type 0
  NotNamed name eps = All (λ ep. str_eq ep.name name ≡ false) eps

  -- The first endpoint of a name among others.
  pub record First (name : Str) (routes : List (Endpoint H)) (ep : Endpoint H) : Type 0 where
    pub before : List (Endpoint H)
    pub behind : List (Endpoint H)
    pub split : routes ≡ before ++ ep ∷ behind
    pub named : str_eq ep.name name ≡ true
    pub skipped : NotNamed name before

module _ {J H W : Type 0} (json : Json J) (http : HttpMethod → Str → ℤ → Str → Str → W → Reply × W)
    (s : McpServer H) where
  not_sent : W → J × W
  not_sent w =
      (json.object ((codes "error", json.string (codes "Unsupported HTTP method")) ∷ []), w)

  -- The state after the request of an endpoint, and the answer that becomes the text: a GET without a
  -- body, a POST, PUT or PATCH with one, and no request for any other method.
  unfoldable pub sent : HttpMethod → Str → Str → Str → ℤ → W → J × W
  unfolding not_sent
  sent get_method url text host port w =
      let (reply, w') = http get_method host port url [] w in (reply_json json reply, w')
  sent post_method url text host port w =
      let (reply, w') = http post_method host port url text w in (reply_json json reply, w')
  sent put_method url text host port w =
      let (reply, w') = http put_method host port url text w in (reply_json json reply, w')
  sent patch_method url text host port w =
      let (reply, w') = http patch_method host port url text w in (reply_json json reply, w')
  sent delete_method url text host port w = not_sent w
  sent head_method url text host port w = not_sent w
  sent options_method url text host port w = not_sent w

  -- What a call of an endpoint comes to: an exception before any request, or the request.
  abbrev pub Called : Endpoint H → J → J → W → Option J × W → Type 0
  Called ep args id w out =
      ((request_parts json s.api_base ep args ≡ none) × (out ≡ (none, w)))
      ⊎ ((url : Str) × (text : Str) × (host : Str) × (port : ℤ) × (request_parts json s.api_base ep
              args
            ≡ some (url, text, host, port))
          × (out ≡ (
            tool_result json id (json.dump_indented (sent ep.method url text host port w).0),
            (sent ep.method url text host port w).1,
          )))
