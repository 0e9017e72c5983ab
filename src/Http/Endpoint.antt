-- ===== src/Http/Endpoint.antt =====
-- Endpoint.cpp and HttpMethod.hpp: a route with what MCP shows of it. A handler is a value of a type
-- `H`; the request and the response are the HTTP library's.
pub mod Schema
use nexus_mainframe.Common.{
  ℕ, ◌==◌, List, [], ◌∷◌, ◌++◌, Str, codes, str_eq, is_empty, Bool, true, false, not, ◌&&◌, ◌||◌,
  Option, none, some, if◌then◌else◌, map,
}
use nexus_mainframe.Json.{Json, set_field}

pub data HttpMethod : Type 0 where
  get_method post_method patch_method put_method delete_method head_method options_method :
      HttpMethod

unfoldable pub http_method_to_string : HttpMethod → Str
http_method_to_string get_method = codes "GET"
http_method_to_string post_method = codes "POST"
http_method_to_string put_method = codes "PUT"
http_method_to_string patch_method = codes "PATCH"
http_method_to_string delete_method = codes "DELETE"
http_method_to_string head_method = codes "HEAD"
http_method_to_string options_method = codes "OPTIONS"

unfoldable pub enumerator : HttpMethod → ℕ
enumerator get_method = 0
enumerator post_method = 1
enumerator patch_method = 2
enumerator put_method = 3
enumerator delete_method = 4
enumerator head_method = 5
enumerator options_method = 6

-- `in` is `place`.
pub record EndpointParam : Type 0 where
  pub name : Str
  pub place : Str
  pub type : Str
  pub description : Str
  pub required : Bool

pub record Endpoint (H : Type 0) : Type 0 where
  pub path : Str
  pub name : Str
  pub method : HttpMethod
  pub handler : H
  pub description : Str
  pub params : List EndpointParam

module _ {H : Type 0} where
  -- A null handler is `none`; the constructor throws where the result is `none`.
  unfoldable pub create : Str → Str → HttpMethod → Option H → Option (Endpoint H)
  create path name method none = none
  create path name method (some handler) =
      if is_empty path || is_empty name
      then none
      else some (record {
        path = path;
        name = name;
        method = method;
        handler = handler;
        description = [];
        params = [];
      })

  unfoldable pub describe : Str → Endpoint H → Endpoint H
  describe description ep = record ep { description = description }

  unfoldable pub param : EndpointParam → Endpoint H → Endpoint H
  param p ep = record ep { params = ep.params ++ p ∷ [] }

  unfoldable pub to_string : Endpoint H → Str
  to_string ep =
      codes "[" ++ ep.name ++ codes "] " ++ http_method_to_string ep.method ++ codes " " ++ ep.path

  unfoldable pub equal : Endpoint H → Endpoint H → Bool
  equal ep other = (enumerator ep.method == enumerator other.method) && str_eq ep.path other.path

unfoldable pub required_names : List EndpointParam → List Str
required_names [] = []
required_names (p ∷ ps) = let rest = required_names ps in if p.required then p.name ∷ rest else rest

module _ {J : Type 0} (json : Json J) where
  unfoldable pub param_schema : EndpointParam → J
  param_schema p = json.object (
      (codes "type", json.string p.type)
      ∷ (if is_empty p.description
          then []
          else (codes "description", json.string p.description) ∷ []))

  unfoldable pub schema_properties : List EndpointParam → List (Str × J) → List (Str × J)
  schema_properties [] props = props
  schema_properties (p ∷ ps) props = schema_properties ps (set_field p.name (param_schema p) props)

  unfoldable pub required_field : List Str → List (Str × J)
  required_field [] = []
  required_field (n ∷ ns) = (codes "required", json.array (map json.string (n ∷ ns))) ∷ []

  unfoldable pub build_input_schema : {H : Type 0} → Endpoint H → J
  build_input_schema ep = json.object (
      (codes "type", json.string (codes "object"))
      ∷ (codes "properties", json.object (schema_properties ep.params []))
      ∷ required_field (required_names ep.params))
