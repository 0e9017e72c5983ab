-- ===== src/Home/RoomController.antt =====
-- RoomController.cpp: the handlers of the routes of the rooms, as those of the devices.
use nexus_mainframe.Common.{List, [], ◌∷◌, ◌++◌, Str, codes, Option, none, some, map}
use nexus_mainframe.Common.Options.{◌>>=◌}
use nexus_mainframe.Json.{Json}
use nexus_mainframe.Http.Endpoint.{HttpMethod, get_method, post_method, delete_method}
use nexus_mainframe.Home.Result.{Result, bad_request, not_found}
use nexus_mainframe.Home.Devices.{DeviceRegistry}
use nexus_mainframe.Home.Rooms.{RoomRegistry}
use nexus_mainframe.Home.RoomService
use nexus_mainframe.Home.DeviceController.{Response, respond}

-- `routeTable`: the method, the path, the name and the description of each route.
unfoldable pub route_table : List (HttpMethod × Str × Str × Str)
route_table =
    (get_method, codes "/api/rooms", codes "room_list", codes "List all rooms")
    ∷ (post_method, codes "/api/rooms", codes "room_create", codes "Create a new room")
    ∷ (
      get_method,
      codes "/api/rooms/:id",
      codes "room_show",
      codes "Get a room with its devices expanded",
    )
    ∷ (delete_method, codes "/api/rooms/:id", codes "room_destroy", codes "Delete a room by id")
    ∷ (
      post_method,
      codes "/api/rooms/:id/devices/:deviceId",
      codes "room_add_device",
      codes "Add a device to a room",
    )
    ∷ (
      delete_method,
      codes "/api/rooms/:id/devices/:deviceId",
      codes "room_remove_device",
      codes "Remove a device from a room",
    )
    ∷ []

module _ {J : Type 0} (json : Json J) where
  -- The rooms, and their file.
  answer : Option Result × RoomRegistry × Option Str → Option Response × RoomRegistry × Option Str
  answer (none, r, file) = (none, r, file)
  answer (some result, r, file) = (respond json result, r, file)

  unfoldable pub index : RoomRegistry → DeviceRegistry J → Option Response
  index r devices = do
    text ← json.dump (json.array (map (RoomService.expand json devices) (RoomService.list r)))
    some (record { status = none; body = text })

  unfoldable pub show : RoomRegistry → DeviceRegistry J → Str → Option Response
  show r devices id = elim (RoomService.get r id) [
    | none ↦ respond json (not_found (codes "Room '" ++ id ++ codes "' not found"))
    | some room ↦ do
      text ← json.dump (RoomService.expand json devices room)
      some (record { status = none; body = text })
  ]

  create_named :
      Str → RoomRegistry → Option Str → Option Str → Option Response × RoomRegistry × Option Str
  unfolding answer
  create_named id r file none = (none, r, file)
  create_named id r file (some name) =
      answer (RoomService.saved json file (RoomService.add r id name))

  unfoldable pub create :
      RoomRegistry → Option Str → Str → Str → Option Response × RoomRegistry × Option Str
  unfolding create_named
  create r file id text = elim (json.parse text) [
    | none ↦ (respond json (bad_request (codes "Invalid JSON body")), r, file)
    | some body ↦ create_named id r file (json.value_string body (codes "name") [])
  ]

  unfoldable pub destroy :
      RoomRegistry → Option Str → Str → Option Response × RoomRegistry × Option Str
  unfolding answer
  destroy r file id = answer (RoomService.saved json file (RoomService.remove r id))

  unfoldable pub add_device :
      RoomRegistry
      → DeviceRegistry J
      → Option Str
      → Str
      → Str
      → Option Response × RoomRegistry × Option Str
  unfolding answer
  add_device r devices file room_id device_id =
      answer (RoomService.saved json file (RoomService.add_device r devices room_id device_id))

  unfoldable pub remove_device :
      RoomRegistry → Option Str → Str → Str → Option Response × RoomRegistry × Option Str
  unfolding answer
  remove_device r file room_id device_id =
      answer (RoomService.saved json file (RoomService.remove_device r room_id device_id))
