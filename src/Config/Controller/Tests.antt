-- ===== src/Config/Controller/Tests.antt =====
-- A configuration at concrete inputs.
use nexus_mainframe.Common.{
  ◌≡◌, refl, subst, sym, true, arith, [], ◌∷◌, Str, codes, str_eq, none, some,
}
use nexus_mainframe.Common.Ints.{pos}
use nexus_mainframe.Json.{field, has_field}
use nexus_mainframe.Json.Packed.{packed, pack, unpack, parts, pairs}
use nexus_mainframe.Home.DeviceController.{Response}
use nexus_mainframe.Config.{NexusConfig, defaults, taken, save, on_section, load_or_create}
use nexus_mainframe.Config.Controller.{update, finish, change, change_mqtt, on_key, update_body}
use nexus_mainframe.Config.Saved.{IsConfig}
use nexus_mainframe.Config.Controller.Survives.{update-kept}

-- A request to move the HTTP server.
abbrev request : Str
request =
    packed.object
      ((codes "http", packed.object ((codes "port", packed.integer (pos 9000)) ∷ [])) ∷ [])

abbrev moved : NexusConfig
moved = record defaults { http_port = pos 9000 }

abbrev response : Response
response = record { status = none; body = update_body packed (moved, codes "http.port" ∷ []) }

answered : (update packed true defaults none request).0 ≡ some response
unfolding update finish change change_mqtt on_key on_section taken has_field field str_eq save pack
    unpack parts pairs
answered = refl

changed : (update packed true defaults none request).1 ≡ moved
unfolding update finish change change_mqtt on_key on_section taken has_field field str_eq save pack
    unpack parts pairs
changed = refl

moved-IsConfig : IsConfig moved
unfolding defaults
moved-IsConfig = (omega arith, omega arith, omega arith)

ports : IsConfig (update packed true defaults none request).1
ports = subst IsConfig (sym changed) moved-IsConfig

update-kept_example :
    (load_or_create packed true (update packed true defaults none request).2).0
    ≡ some (update packed true defaults none request).1
update-kept_example = update-kept packed defaults none request response answered refl ports
