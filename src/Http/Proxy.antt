-- ===== src/Http/Proxy.antt =====
-- McpServer.cpp: the request that a tool's call becomes. The HTTP client is an argument: a request to a
-- host and a port is answered, or fails with a text, and may change the rest of the program, `W`.
-- `none` stands for an exception.
pub mod Body
pub mod Url
pub mod Base
use nexus_mainframe.Common.{
  ℕ, ◌+◌, List, [], ◌∷◌, ◌++◌, Str, codes, str_eq, is_empty, Bool, true, false, not, ◌&&◌, ◌==◌,
  Option, none, some, if◌then◌else◌, map, drop, length,
}
use nexus_mainframe.Common.Options.{◌>>=◌}
use nexus_mainframe.Common.Ints.{ℤ, pos, negsuc, stoi}
use nexus_mainframe.Json.{Json, set_field}
use nexus_mainframe.Http.Strings.{replace_first, split_last, without_prefix}
use nexus_mainframe.Http.Endpoint.{
  Endpoint, EndpointParam, HttpMethod, get_method, post_method, put_method, patch_method,
  delete_method, head_method, options_method, to_string, build_input_schema,
}

-- The host and the port in what follows the scheme.
unfoldable pub host_and_port : Str → Option (Str × ℤ)
host_and_port s = elim (split_last b':' s) [
  | none ↦ some (s, pos 8080)
  | some (host, port) ↦ do n ← stoi port; some (host, n)
]

-- What `callEndpoint` takes from `_apiBase`.
unfoldable pub parse_base : Str → Option (Str × ℤ)
parse_base base =
    host_and_port (without_prefix (codes "https://") (without_prefix (codes "http://") base))

-- What the HTTP client makes of a request.
pub data Reply : Type 0 where
  failed : Str → Reply
  answered : ℕ → Str → Reply

unfoldable pub add_query : Str → Str → Str → Str
add_query query name value =
    query ++ (if is_empty query then codes "?" else codes "&") ++ name ++ codes "=" ++ value

-- The methods that the proxy sends.
unfoldable pub is_proxied : HttpMethod → Bool
is_proxied get_method = true
is_proxied post_method = true
is_proxied put_method = true
is_proxied patch_method = true
is_proxied _ = false

-- `Get` sends no body.
unfoldable pub sent_body : HttpMethod → Str → Str
sent_body get_method text = []
sent_body _ text = text

module _ {J : Type 0} (json : Json J) where
  unfoldable pub argument_text : J → Option Str
  argument_text v = if json.is_string v then json.get_string v else json.dump v

  unfoldable pub url_argument : J → EndpointParam → Option Str
  unfolding argument_text
  url_argument args p = do v ← json.at args p.name; argument_text v

  unfoldable pub url_loop : List EndpointParam → J → Str → Str → Option Str
  url_loop [] args url query = some (url ++ query)
  url_loop (p ∷ ps) args url query =
      if not (json.contains args p.name)
      then url_loop ps args url query
      else elim (url_argument args p) [
        | none ↦ none
        | some value ↦
            if str_eq p.place (codes "path")
            then url_loop ps args (replace_first (codes ":" ++ p.name) value url) query
            else if str_eq p.place (codes "query")
            then url_loop ps args url (add_query query p.name value)
            else url_loop ps args url query
      ]

  unfoldable pub build_url : {H : Type 0} → Endpoint H → J → Option Str
  build_url ep args = url_loop ep.params args ep.path []

  unfoldable pub body_loop : List EndpointParam → J → List (Str × J) → Option (List (Str × J))
  body_loop [] args body = some body
  body_loop (p ∷ ps) args body =
      if str_eq p.place (codes "body") && json.contains args p.name
      then (do v ← json.at args p.name; body_loop ps args (set_field p.name v body))
      else body_loop ps args body

  unfoldable pub build_body : {H : Type 0} → Endpoint H → J → Option (List (Str × J))
  build_body ep args = body_loop ep.params args []

  -- An empty body is sent as no text.
  body_text : List (Str × J) → Option Str
  body_text [] = some []
  body_text (f ∷ fs) = json.dump (json.object (f ∷ fs))

  error_json : Str → J
  error_json text = json.object ((codes "error", json.string text) ∷ [])

  -- What the caller gets of a reply; the error's text is the client's.
  unfoldable pub reply_json : Reply → J
  unfolding error_json
  reply_json (failed reason) = error_json (codes "HTTP request failed: " ++ reason)
  reply_json (answered status body) = elim (json.parse body) [
    | some j ↦ j
    | none ↦
        json.object
          ((codes "raw", json.string body) ∷ (codes "status", json.integer (pos status)) ∷ [])
  ]

  unfoldable pub request_parts : {H : Type 0} → Str → Endpoint H → J → Option (Str × Str × Str × ℤ)
  unfolding body_text
  request_parts base ep args = do
    url ← build_url ep args
    body ← build_body ep args
    text ← body_text body
    (host, port) ← parse_base base
    some (url, text, host, port)

module _ {J H W : Type 0} (json : Json J)
    (http : HttpMethod → Str → ℤ → Str → Str → W → Reply × W) where
  unfoldable pub send_request : Endpoint H → Option (Str × Str × Str × ℤ) → W → Option J × W
  unfolding sent_body
  send_request ep none w = (none, w)
  send_request ep (some (url, text, host, port)) w =
      if is_proxied ep.method
      then (let (reply, w') = http ep.method host port url (sent_body ep.method text) w in
          (some (reply_json json reply), w'))
      else (
        some (json.object ((codes "error", json.string (codes "Unsupported HTTP method")) ∷ [])),
        w,
      )

  unfoldable pub call_endpoint : Str → Endpoint H → J → W → Option J × W
  unfolding send_request
  call_endpoint base ep args w = send_request ep (request_parts json base ep args) w
