-- ===== src/Http/Tests.antt =====
-- The servers at concrete inputs: handlers are numbers, and the HTTP client keeps the addresses.
use nexus_mainframe.Common.{
  ℕ, ◌≡◌, refl, List, [], ◌∷◌, ◌++◌, Str, codes, str_eq, true, false, some, arith,
}
use nexus_mainframe.Common.Ints.{ℤ, pos, to_string}
use nexus_mainframe.Json.{field}
use nexus_mainframe.Json.Packed.{packed, string}
use nexus_mainframe.Json.Packed
use nexus_mainframe.Http.Strings.{starts_with}
use nexus_mainframe.Http.Endpoint.{Endpoint, EndpointParam, HttpMethod, get_method, put_method}
use nexus_mainframe.Http.Proxy.{Reply, answered, build_url, parse_base}
use nexus_mainframe.Http.Proxy.Base.{parse_base-lem}
use nexus_mainframe.Http.Proxy.Url.{texts, filled, asked, query_text, build_url-texts}
use nexus_mainframe.Http.Mcp.{read_request, McpServer, ok, dispatch, dispatch_method}
use nexus_mainframe.Http.Mcp.Answers.{Answers, dispatch-Answers}

abbrev id_param : EndpointParam
id_param = record {
  name = codes "id";
  place = codes "path";
  type = codes "string";
  description = [];
  required = true;
}

abbrev page_param : EndpointParam
page_param = record {
  name = codes "page";
  place = codes "query";
  type = codes "number";
  description = codes "Page";
  required = false;
}

abbrev name_param : EndpointParam
name_param = record {
  name = codes "name";
  place = codes "body";
  type = codes "string";
  description = [];
  required = true;
}

abbrev show_device : Endpoint ℕ
show_device = record {
  path = codes "/api/devices/:id";
  name = codes "devices.show";
  method = get_method;
  handler = 1;
  description = [];
  params = id_param ∷ [];
}

abbrev update_device : Endpoint ℕ
update_device = record {
  path = codes "/api/devices/:id";
  name = codes "devices.update";
  method = put_method;
  handler = 2;
  description = codes "Update a device";
  params = id_param ∷ page_param ∷ name_param ∷ [];
}

abbrev mcp : McpServer ℕ
mcp = record {
  routes = show_device ∷ update_device ∷ [];
  api_base = codes "http://localhost:8080";
  running = true;
}

abbrev client : HttpMethod → Str → ℤ → Str → Str → List Str → Reply × List Str
client method host port url body calls = (answered 200 (codes "ok"), url ∷ calls)

abbrev given : List (Str × Str)
given = (codes "id", codes "7") ∷ (codes "page", codes "2") ∷ []

build_url-texts_example :
    build_url packed update_device (Packed.object (texts packed given))
    ≡ some (
        filled update_device.params given update_device.path
        ++ query_text (asked update_device.params given))
build_url-texts_example = build_url-texts packed update_device given

parse_base-lem_example :
    parse_base (codes "http://" ++ codes "localhost" ++ b':' ∷ to_string 8080)
    ≡ some (codes "localhost", pos 8080)
parse_base-lem_example =
    parse_base-lem (codes "localhost") 8080 (unfold starts_with in refl) (omega arith)

abbrev ping : List (Str × Str)
ping = (codes "id", string (codes "1")) ∷ (codes "method", string (codes "ping")) ∷ []

answered_ping :
    dispatch packed client mcp (Packed.object ping) []
    ≡ (some (ok packed (string (codes "1")) (Packed.object [])), [])
unfolding dispatch dispatch_method read_request field str_eq Packed.pack Packed.parts Packed.unpack
    Packed.pairs
answered_ping = refl

dispatch-Answers_example :
    Answers packed (string (codes "1")) (ok packed (string (codes "1")) (Packed.object []))
dispatch-Answers_example =
    dispatch-Answers packed client mcp ping (string (codes "1")) _ (codes "ping") [] []
      (unfold field str_eq in refl) (unfold field str_eq in refl) (unfold str_eq in refl)
      answered_ping
