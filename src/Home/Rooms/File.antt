-- ===== src/Home/Rooms/File.antt =====
-- Room.cpp, and the file of RoomRegistry.cpp: its content, `none` where it does not exist. It can be opened
-- and written: `save` does not test the stream.
use nexus_mainframe.Common.{
  ◌≡◌, refl, List, [], ◌∷◌, Str, codes, str_eq, Bool, true, false, Option, none, some, map,
}
use nexus_mainframe.Common.Options.{◌>>=◌}
use nexus_mainframe.Common.OrdMap.{insert}
use nexus_mainframe.Common.Keys.{str_order}
use nexus_mainframe.Json.{Json, field}
use nexus_mainframe.Home.Rooms.{Room, RoomRegistry}

module _ {J : Type 0} (json : Json J) where
  unfoldable pub to_json : Room → J
  to_json room = json.object (
      (codes "id", json.string room.id)
      ∷ (codes "name", json.string room.name)
      ∷ (codes "deviceIds", json.array (map json.string room.device_ids))
      ∷ [])

  unfoldable pub from_json : J → Option Room
  from_json j = do
    id ← json.value_string j (codes "id") []
    name ← json.value_string j (codes "name") []
    device_ids ← json.value_strings j (codes "deviceIds") []
    some (record { id = id; name = name; device_ids = device_ids })

  unfoldable pub load_item : J → Option (Str × Room)
  load_item item = do id ← json.at_string item (codes "id"); room ← from_json item; some (id, room)

  -- The loop ends at the first item that throws; what was read before stays.
  unfoldable pub load_items : List J → RoomRegistry → RoomRegistry
  unfolding load_item
  load_items [] r = r
  load_items (item ∷ items) r = elim (load_item item) [
    | none ↦ r
    | some (id, room) ↦ load_items items (insert id room r)
  ]

  unfoldable pub read_items : Option Str → Option (List J)
  read_items file = do text ← file; j ← json.parse text; json.elements j

  unfoldable pub load : Option Str → RoomRegistry → RoomRegistry
  unfolding read_items
  load file r = elim (read_items file) [ none ↦ r | some items ↦ load_items items r ]

  -- The file is emptied before `dump` may throw; the answer is whether it did not, and the file.
  unfoldable pub save : RoomRegistry → Bool × Option Str
  save r = elim (json.dump_indented (json.array (map (λ e. to_json e.1) r))) [
    | none ↦ (false, some [])
    | some text ↦ (true, some text)
  ]

  -- A room that is printed and read again is the room it was.
  pub from_json-to_json : (room : Room) → from_json (to_json room) ≡ some room
  unfolding from_json to_json field str_eq
  from_json-to_json room =
      rw
        (
          json.value_string-object _ (codes "id") [] room.id refl,
          json.value_string-object _ (codes "name") [] room.name refl,
          json.value_strings-object _ (codes "deviceIds") [] room.device_ids refl,
        )
        refl
