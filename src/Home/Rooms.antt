-- ===== src/Home/Rooms.antt =====
-- RoomRegistry.cpp. Its file is read and written in Home/Rooms/File.
pub mod Members
pub mod File
use nexus_mainframe.Common.{
  ℕ, List, [], ◌∷◌, ◌++◌, Str, Bool, true, false, Option, none, some, if◌then◌else◌, map, any,
  str_eq,
}
use nexus_mainframe.Common.OrdMap.{OrdMap, find, insert, erase}
use nexus_mainframe.Common.Keys.{str_order}

pub record Room : Type 0 where
  pub id : Str
  pub name : Str
  pub device_ids : List Str

abbrev pub RoomRegistry : Type 0
RoomRegistry = OrdMap Str Room

unfoldable pub exists : RoomRegistry → Str → Bool
exists r id = elim (find id r) [ none ↦ false | some _ ↦ true ]

unfoldable pub add : RoomRegistry → Room → Bool × RoomRegistry
add r room = if exists r room.id then (false, r) else (true, insert room.id room r)

unfoldable pub get : RoomRegistry → Str → Option Room
get r id = find id r

unfoldable pub list : RoomRegistry → List Room
list r = map (λ e. e.1) r

unfoldable pub remove : RoomRegistry → Str → Bool × RoomRegistry
remove r id = (exists r id, erase id r)

-- `std::find(…) != end()`.
unfoldable pub has_id : Str → List Str → Bool
has_id id ids = any (λ i. str_eq i id) ids

-- `ids.erase(pos)` at the first place of an id.
unfoldable pub erase_first : Str → List Str → List Str
erase_first id [] = []
erase_first id (i ∷ ids) = let rest = erase_first id ids in if str_eq i id then ids else i ∷ rest

unfoldable pub add_device : RoomRegistry → Str → Str → Bool × RoomRegistry
add_device r room_id device_id = elim (find room_id r) [
  | none ↦ (false, r)
  | some room ↦
      if has_id device_id room.device_ids
      then (false, r)
      else (true, insert room_id (record room { device_ids = room.device_ids ++ device_id ∷ [] }) r)
]

unfoldable pub remove_device : RoomRegistry → Str → Str → Bool × RoomRegistry
remove_device r room_id device_id = elim (find room_id r) [
  | none ↦ (false, r)
  | some room ↦
      if has_id device_id room.device_ids
      then (
        true,
        insert room_id (record room { device_ids = erase_first device_id room.device_ids }) r,
      )
      else (false, r)
]
