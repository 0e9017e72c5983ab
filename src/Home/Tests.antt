-- ===== src/Home/Tests.antt =====
-- The registries and services at concrete inputs, over a JSON library that packs its values.
use nexus_mainframe.Common.{
  ◌≡◌, ◌↔◌, refl, List, [], ◌∷◌, ◌++◌, if◌then◌else◌, Str, codes, true, false, none, some, any,
  str_eq, is_empty,
}
use nexus_mainframe.Common.OrdMap.{find, key_eq, insert, erase}
use nexus_mainframe.Common.Keys.{str_order, str_cmp}
use nexus_mainframe.Event.Bus.{EventBus, init}
use nexus_mainframe.Json.Packed.{packed, object, string, boolean}
use nexus_mainframe.Json.{field}
use nexus_mainframe.Home.DeviceController
use nexus_mainframe.Home.DeviceController.Shown.{registered, create-show}
use nexus_mainframe.Home.Result.{not_found, created, is_ok, to_json}
use nexus_mainframe.Home.Devices.{Device, DeviceRegistry, add, load, save}
use nexus_mainframe.Home.Devices
use nexus_mainframe.Home.Devices.Saved.{
  IsKeyed, RegistryCall, step, adds, removes, updates, saves, run, run-IsKeyed, load-save,
}
use nexus_mainframe.Home.Rooms.{Room, RoomRegistry, has_id}
use nexus_mainframe.Home.Rooms.Members
use nexus_mainframe.Home.Rooms.Members.{remove_device-add_device}
use nexus_mainframe.Home.DeviceService
use nexus_mainframe.Home.DeviceService.{refused-keeps}
use nexus_mainframe.Home.RoomService
use nexus_mainframe.Home.RoomService.{add_device-is_ok}

abbrev lamp : Device Str
lamp = record {
  id = codes "1";
  name = codes "lamp";
  type = codes "light";
  state = [];
  online = true;
}

abbrev nothing_yet : DeviceRegistry Str
nothing_yet = record { devices = []; file = none }

abbrev calls : List (RegistryCall Str)
calls =
    adds lamp
    ∷ adds (record lamp { id = codes "0" })
    ∷ updates (codes "1") (codes "on")
    ∷ removes (codes "2")
    ∷ saves
    ∷ []

abbrev home : DeviceRegistry Str
home = run packed nothing_yet calls

nothing-IsKeyed : IsKeyed nothing_yet.devices
nothing-IsKeyed = record { keys = tt; sorted = tt }

home-IsKeyed : IsKeyed home.devices
home-IsKeyed = run-IsKeyed packed nothing_yet calls nothing-IsKeyed

home_saved : (save packed home).0 ≡ true
unfolding save
home_saved = refl

load-save_example :
    (load packed (record { devices = []; file = (save packed home).1.file })).devices ≡ home.devices
load-save_example = load-save packed home home-IsKeyed home_saved

abbrev kitchen : Room
kitchen = record { id = codes "k"; name = codes "kitchen"; device_ids = codes "1" ∷ [] }

abbrev rooms : RoomRegistry
rooms = (codes "k", kitchen) ∷ []

found : find (codes "k") rooms ≡ some kitchen
unfolding find str_cmp
found = refl

absent : has_id (codes "2") kitchen.device_ids ≡ false
unfolding has_id any str_eq
absent = refl

abbrev bus : EventBus Str
bus = init

refused-keeps_example :
    ((DeviceService.add packed home bus (codes "9") (codes "lamp") []).0
        ≡ some (not_found (codes "Device '9' not found"))
      → ((DeviceService.add packed home bus (codes "9") (codes "lamp") []).1 ≡ home)
        × ((DeviceService.add packed home bus (codes "9") (codes "lamp") []).2 ≡ bus))
    × ((DeviceService.remove packed home bus (codes "9")).0
          ≡ some (not_found (codes "Device '9' not found"))
        → ((DeviceService.remove packed home bus (codes "9")).1 ≡ home)
          × ((DeviceService.remove packed home bus (codes "9")).2 ≡ bus))
    × ((DeviceService.command packed home bus (codes "9") (codes "on")).0
          ≡ some (not_found (codes "Device '9' not found"))
        → ((DeviceService.command packed home bus (codes "9") (codes "on")).1 ≡ home)
          × ((DeviceService.command packed home bus (codes "9") (codes "on")).2 ≡ bus))
unfolding is_ok not_found
refused-keeps_example =
    refused-keeps packed home bus (codes "9") (codes "lamp") [] (codes "on")
      (not_found (codes "Device '9' not found")) refl

add_device-is_ok_example :
    ((is_ok (RoomService.add_device rooms home (codes "k") (codes "0")).0 ≡ true) ↔ (
      (room : Room) × (find (codes "k") rooms ≡ some room)
      × (Devices.exists home (codes "0") ≡ true)
      × (has_id (codes "0") room.device_ids ≡ false)))
    × (is_ok (RoomService.add_device rooms home (codes "k") (codes "0")).0 ≡ false
        → (RoomService.add_device rooms home (codes "k") (codes "0")).1 ≡ rooms)
    × ((room : Room)
        → find (codes "k") rooms ≡ some room
        → is_ok (RoomService.add_device rooms home (codes "k") (codes "0")).0 ≡ true
        → (k : Str)
        → find k (RoomService.add_device rooms home (codes "k") (codes "0")).1 ≡ (
            if key_eq k (codes "k")
            then some (record room { device_ids = room.device_ids ++ codes "0" ∷ [] })
            else find k rooms))
add_device-is_ok_example = add_device-is_ok rooms home (codes "k") (codes "0")

abbrev fan : List (Str × Str)
fan = (codes "name", string (codes "Fan")) ∷ (codes "type", string (codes "fan")) ∷ []

no_fan : Devices.exists home (codes "7") ≡ false
unfolding Devices.exists run step Devices.add Devices.update_state Devices.remove save find str_cmp
    erase insert
no_fan = refl

create-show_example :
    ((DeviceController.create packed home bus (codes "7") (object fan)).0
      ≡ some (record {
        status = some 201;
        body = object (
            (codes "success", boolean (is_ok (created (codes "Device '7' registered"))))
            ∷ (codes "output", string (codes "Device '7' registered"))
            ∷ []);
      }))
    × (DeviceController.show packed
          (DeviceController.create packed home bus (codes "7") (object fan)).1
          (codes "7")
        ≡ some (record {
          status = none;
          body = Devices.to_json packed (registered packed (codes "7") (codes "Fan") (codes "fan"));
        }))
unfolding created
create-show_example =
    create-show packed home bus fan (codes "7") (object fan) (codes "Fan") (codes "fan") _ _ _ refl
      (unfold field str_eq in refl) (unfold field str_eq in refl) (unfold is_empty in refl) no_fan
      refl (unfold to_json created in refl) refl
