-- ===== src/Home/RoomService.antt =====
-- RoomService.cpp. Each method saves the registry just before it answers that it is done; `saved` is
-- that step, behind the methods.
use nexus_mainframe.Common.{
  ◌≡◌, refl, ap, ◌∙◌, ◌↔◌, List, [], ◌∷◌, ◌++◌, Str, codes, Bool, true, false, Option, none, some,
  map, if◌then◌else◌, is_empty, arith, Option-cases, inl, inr,
}
use nexus_mainframe.Common.OrdMap.{find, insert, find-insert, key_eq}
use nexus_mainframe.Common.Keys.{str_order}
use nexus_mainframe.Json.{Json}
use nexus_mainframe.Home.Result.{Result, ok, created, bad_request, not_found, conflict, is_ok}
use nexus_mainframe.Home.Devices.{Device, DeviceRegistry}
use nexus_mainframe.Home.Devices
use nexus_mainframe.Home.Rooms.{Room, RoomRegistry, has_id}
use nexus_mainframe.Home.Rooms
use nexus_mainframe.Home.Rooms.File

unfoldable pub add : RoomRegistry → Str → Str → Result × RoomRegistry
add r id name =
    if is_empty name
    then (bad_request (codes "Field 'name' is required"), r)
    else (let (added, r') = Rooms.add r (record { id = id; name = name; device_ids = [] }) in
        if added
        then (created (codes "Room '" ++ id ++ codes "' created"), r')
        else (conflict (codes "Room with this id already exists"), r'))

unfoldable pub list : RoomRegistry → List Room
list r = Rooms.list r

unfoldable pub get : RoomRegistry → Str → Option Room
get r id = Rooms.get r id

unfoldable pub remove : RoomRegistry → Str → Result × RoomRegistry
remove r id =
    if Rooms.exists r id
    then (ok (codes "Room '" ++ id ++ codes "' removed"), (Rooms.remove r id).1)
    else (not_found (codes "Room '" ++ id ++ codes "' not found"), r)

module _ {J : Type 0} where
  unfoldable pub add_device : RoomRegistry → DeviceRegistry J → Str → Str → Result × RoomRegistry
  add_device r devices room_id device_id =
      if Rooms.exists r room_id
      then if Devices.exists devices device_id
        then (let (added, r') = Rooms.add_device r room_id device_id in
            if added
            then (ok (codes "Device added to room"), r')
            else (conflict (codes "Device already in this room"), r'))
        else (not_found (codes "Device '" ++ device_id ++ codes "' not found"), r)
      else (not_found (codes "Room '" ++ room_id ++ codes "' not found"), r)

unfoldable pub remove_device : RoomRegistry → Str → Str → Result × RoomRegistry
remove_device r room_id device_id =
    if Rooms.exists r room_id
    then (let (removed, r') = Rooms.remove_device r room_id device_id in
        if removed
        then (ok (codes "Device removed from room"), r')
        else (not_found (codes "Device not in this room"), r'))
    else (not_found (codes "Room '" ++ room_id ++ codes "' not found"), r)

module _ {J : Type 0} (json : Json J) where
  -- The devices that `expand` adds to a room: those that the device registry still has.
  unfoldable pub expand_devices : DeviceRegistry J → List Str → List J
  expand_devices devices [] = []
  expand_devices devices (id ∷ ids) =
      let rest = expand_devices devices ids in
      elim (Devices.get devices id) [ none ↦ rest | some d ↦ Devices.to_json json d ∷ rest ]

  unfoldable pub start : Option Str → RoomRegistry
  start file = File.load json file []

  unfoldable pub stop : RoomRegistry → Bool × Option Str
  stop r = File.save json r

  -- The file is the last component; an exception of `save` leaves the method.
  unfoldable pub saved :
      Option Str → Result × RoomRegistry → Option Result × RoomRegistry × Option Str
  saved file (result, r) =
      if is_ok result
      then (let (done, file') = File.save json r in
          ((if done then some result else none), r, file'))
      else (some result, r, file)

  unfoldable pub expand : DeviceRegistry J → Room → J
  expand devices room = json.object (
      (codes "id", json.string room.id)
      ∷ (codes "name", json.string room.name)
      ∷ (codes "deviceIds", json.array (map json.string room.device_ids))
      ∷ (codes "devices", json.array (expand_devices devices room.device_ids))
      ∷ [])

module _ {J : Type 0} where
  add_device-done :
      (r : RoomRegistry) (devices : DeviceRegistry J) (room_id device_id : Str) (room : Room)
      → find room_id r ≡ some room
      → Devices.exists devices device_id ≡ true
      → has_id device_id room.device_ids ≡ false
      → (add_device r devices room_id device_id).1
        ≡ insert room_id (record room { device_ids = room.device_ids ++ device_id ∷ [] }) r
  unfolding add_device Rooms.add_device Rooms.exists
  add_device-done r devices room_id device_id room f d n =
      rw (add_device, Rooms.exists, f, d, Rooms.add_device, n) refl

  -- The request to add a device is answered with success just when the room exists, the device exists
  -- and the room does not have it. Then the device stands behind the others of that room, and every
  -- other room is as it was; otherwise the rooms stay as they are.
  pub add_device-is_ok :
      (r : RoomRegistry) (devices : DeviceRegistry J) (room_id device_id : Str)
      → ((is_ok (add_device r devices room_id device_id).0 ≡ true) ↔ (
          (room : Room) × (find room_id r ≡ some room)
          × (Devices.exists devices device_id ≡ true)
          × (has_id device_id room.device_ids ≡ false)))
        × (is_ok (add_device r devices room_id device_id).0 ≡ false
            → (add_device r devices room_id device_id).1 ≡ r)
        × ((room : Room)
            → find room_id r ≡ some room
            → is_ok (add_device r devices room_id device_id).0 ≡ true
            → (k : Str)
            → find k (add_device r devices room_id device_id).1 ≡ (
                if key_eq k room_id
                then some (record room { device_ids = room.device_ids ++ device_id ∷ [] })
                else find k r))
  unfolding add_device Rooms.add_device Rooms.exists is_ok ok conflict not_found
  add_device-is_ok r devices room_id device_id = elim (Option-cases (find room_id r)) [
    | inl e ↦ (
      (λ h. absurd (ground (arith, e, h)), λ (x, f, d, n). absurd (ground (arith, e, f))),
      λ h. ground (arith, e, h),
      λ x f. absurd (ground (arith, e, f)),
    )
    | inr (room, e) ↦ (
      (
        λ h. (room, e, ground (arith, e, h), ground (arith, e, h)),
        λ (x, f, d, n). ground (arith, e, f, d, n),
      ),
      λ h. ground (arith, e, h),
      λ x f h k.
          ap (find k) (
            add_device-done r devices room_id device_id x f (ground (arith, f, h))
              (ground (arith, f, h)))
          ∙ find-insert room_id k _ r,
    )
  ]
