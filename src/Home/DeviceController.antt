-- ===== src/Home/DeviceController.antt =====
-- DeviceController.cpp: the handlers of the routes of the devices. The parameters of the path are
-- arguments, and so is the id that `create` makes. `none` stands for an exception, which the HTTP
-- library answers.
pub mod Shown
use nexus_mainframe.Common.{
  ℕ, ◌≡◌, refl, ap, sym, ◌∙◌, List, [], ◌∷◌, ◌++◌, Str, codes, is_empty, Bool, true, false, not,
  Option, none, some, if◌then◌else◌, map, str_eq, arith,
}
use nexus_mainframe.Common.Options.{◌>>=◌}
use nexus_mainframe.Json.{Json, field}
use nexus_mainframe.Event.Bus.{EventBus}
use nexus_mainframe.Http.Endpoint.{HttpMethod, get_method, post_method, delete_method}
use nexus_mainframe.Home.Result.{Result, bad_request, not_found, to_json}
use nexus_mainframe.Home.Devices.{Device, DeviceRegistry}
use nexus_mainframe.Home.Devices
use nexus_mainframe.Home.DeviceService

-- A status of `none` is the library's own.
pub record Response : Type 0 where
  pub status : Option ℕ
  pub body : Str

-- `routeTable`: the method, the path, the name and the description of each route.
unfoldable pub route_table : List (HttpMethod × Str × Str × Str)
route_table =
    (get_method, codes "/api/devices", codes "device_list", codes "List all registered devices")
    ∷ (post_method, codes "/api/devices", codes "device_create", codes "Register a new device")
    ∷ (get_method, codes "/api/devices/:id", codes "device_show", codes "Get a single device by id")
    ∷ (
      delete_method,
      codes "/api/devices/:id",
      codes "device_destroy",
      codes "Delete a device by id",
    )
    ∷ (
      post_method,
      codes "/api/devices/:id/command",
      codes "device_command",
      codes "Send a command to a device",
    )
    ∷ []

module _ {J : Type 0} (json : Json J) where
  unfoldable pub respond : Result → Option Response
  respond result = do
    text ← to_json json result
    some (record { status = some result.http_status; body = text })

  unfoldable pub index : DeviceRegistry J → Option Response
  index r = do
    text ← json.dump (json.array (map (Devices.to_json json) (DeviceService.list json r)))
    some (record { status = none; body = text })

  unfoldable pub show : DeviceRegistry J → Str → Option Response
  show r id = elim (DeviceService.get json r id) [
    | none ↦ respond (not_found (codes "Device '" ++ id ++ codes "' not found"))
    | some d ↦ do
      text ← json.dump (Devices.to_json json d)
      some (record { status = none; body = text })
  ]

  unfoldable pub read_names : J → Option (Str × Str)
  read_names body = do
    name ← json.value_string body (codes "name") []
    type ← json.value_string body (codes "type") []
    some (name, type)

  -- The payload, with the command in it.
  read_payload : J → Option J
  read_payload body = do
    command ← json.at_string body (codes "command")
    payload ← json.value_json body (codes "payload") (json.object [])
    value ← json.at body (codes "command")
    json.assign payload (codes "_command") value

module _ {J C : Type 0} (json : Json J) where
  unfoldable pub answer :
      Option Result × DeviceRegistry J × EventBus C
      → Option Response × DeviceRegistry J × EventBus C
  answer (none, r, bus) = (none, r, bus)
  answer (some result, r, bus) = (respond json result, r, bus)

  bad_body : Str → DeviceRegistry J → EventBus C → Option Response × DeviceRegistry J × EventBus C
  bad_body message r bus = (respond json (bad_request message), r, bus)

  unfoldable pub create_named :
      Str
      → DeviceRegistry J
      → EventBus C
      → Option (Str × Str)
      → Option Response × DeviceRegistry J × EventBus C
  create_named id r bus none = (none, r, bus)
  create_named id r bus (some (name, type)) = answer (DeviceService.add json r bus id name type)

  unfoldable pub create :
      DeviceRegistry J → EventBus C → Str → Str → Option Response × DeviceRegistry J × EventBus C
  unfolding bad_body
  create r bus id text = elim (json.parse text) [
    | none ↦ bad_body (codes "Invalid JSON body") r bus
    | some body ↦ create_named id r bus (read_names json body)
  ]

  unfoldable pub destroy :
      DeviceRegistry J → EventBus C → Str → Option Response × DeviceRegistry J × EventBus C
  destroy r bus id = answer (DeviceService.remove json r bus id)

  command_with :
      Str
      → DeviceRegistry J
      → EventBus C
      → Option J
      → Option Response × DeviceRegistry J × EventBus C
  command_with id r bus none = (none, r, bus)
  command_with id r bus (some payload) = answer (DeviceService.command json r bus id payload)

  -- The log line reads the command as a text, and throws where it is none.
  unfoldable pub command :
      DeviceRegistry J → EventBus C → Str → Str → Option Response × DeviceRegistry J × EventBus C
  unfolding bad_body command_with read_payload
  command r bus id text = elim (json.parse text) [
    | none ↦ bad_body (codes "Invalid JSON body") r bus
    | some body ↦
        if not (json.contains body (codes "command"))
        then bad_body (codes "Field 'command' is required") r bus
        else command_with id r bus (read_payload json body)
  ]
