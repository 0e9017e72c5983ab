-- ===== src/Home/Rooms/Members.antt =====
-- The devices of a room: each once, and what adding and removing one does.
use nexus_mainframe.Common.{
  ◌≡◌, refl, ap, ◌∙◌, List, [], ◌∷◌, ◌++◌, Str, Bool, true, false, Option, some, if◌then◌else◌, any,
  str_eq, str_eq_self, All, arith,
}
use nexus_mainframe.Common.OrdMap.{
  find, insert, find-insert, key_eq_iff, IsSorted, IsSorted-insert, IsSorted-ext,
}
use nexus_mainframe.Common.Keys.{str_order}
use nexus_mainframe.Json.{Json}
use nexus_mainframe.Home.Rooms.File.{from_json, read_items, load}
use nexus_mainframe.Home.Rooms.{
  Room, RoomRegistry, add, remove, has_id, erase_first, add_device, remove_device,
}

abbrev pub Distinct : List Str → Type 0
Distinct [] = Unit {0}
Distinct (i ∷ ids) = (has_id i ids ≡ false) × Distinct ids

-- Each room once, and in each room each device once.
pub record IsValid (r : RoomRegistry) : Type 0 where
  pub sorted : IsSorted r
  pub distinct : All (λ e. Distinct e.1.device_ids) r

has_id-push :
    (id i : Str) (ids : List Str)
    → has_id i (ids ++ id ∷ []) ≡ (if has_id i ids then true else str_eq id i)
unfolding has_id any
has_id-push id i [] = ground arith
has_id-push id i (x ∷ ids) = ground (arith, has_id-push id i ids)

erase-push :
    (id : Str) (ids : List Str) → has_id id ids ≡ false → erase_first id (ids ++ id ∷ []) ≡ ids
unfolding has_id any erase_first
erase-push id [] h = ground (arith, str_eq_self id)
erase-push id (i ∷ ids) h = ground (arith, erase-push id ids)

added :
    (r : RoomRegistry) (room_id device_id : Str) (room : Room)
    → find room_id r ≡ some room
    → has_id device_id room.device_ids ≡ false
    → add_device r room_id device_id
      ≡ (true, insert room_id (record room { device_ids = room.device_ids ++ device_id ∷ [] }) r)
unfolding add_device
added r room_id device_id room e h = rw (e, add_device) (rw h refl)

removed :
    (r : RoomRegistry) (room_id device_id : Str) (room : Room)
    → find room_id r ≡ some room
    → has_id device_id room.device_ids ≡ true
    → remove_device r room_id device_id ≡ (
      true,
      insert room_id (record room { device_ids = erase_first device_id room.device_ids }) r,
    )
unfolding remove_device
removed r room_id device_id room e h = rw (e, remove_device) (rw h refl)

insert-twice :
    (id : Str) (room room' : Room) (r : RoomRegistry)
    → IsSorted r
    → find id r ≡ some room
    → insert id room (insert id room' r) ≡ r
insert-twice id room room' r s e =
    IsSorted-ext (insert id room (insert id room' r)) r
      (IsSorted-insert id room (insert id room' r) (IsSorted-insert id room' r s)) s
      λ k. ground (
        arith,
        find-insert id k room (insert id room' r),
        find-insert id k room' r,
        key_eq_iff k id,
        e,
      )

-- On rooms that stand once each and have each device once, a device that is added to a room it is
-- not in, and removed again, leaves the rooms as they were; both calls answer true.
pub remove_device-add_device :
    (r : RoomRegistry) (room_id device_id : Str) (room : Room)
    → IsValid r
    → find room_id r ≡ some room
    → has_id device_id room.device_ids ≡ false
    → ((add_device r room_id device_id).0 ≡ true)
      × (remove_device (add_device r room_id device_id).1 room_id device_id ≡ (true, r))
remove_device-add_device r room_id device_id room v e h =
    let room' : Room = record room { device_ids = room.device_ids ++ device_id ∷ [] } in
    let found : find room_id (insert room_id room' r) ≡ some room' =
      ground (arith, find-insert room_id room_id room' r, key_eq_iff room_id room_id) in
    let has : has_id device_id room'.device_ids ≡ true =
      ground (arith, has_id-push device_id device_id room.device_ids, str_eq_self device_id) in
    let put : add_device r room_id device_id ≡ (true, insert room_id room' r) =
      added r room_id device_id room e h in
    let back : record room' { device_ids = erase_first device_id room'.device_ids } ≡ room =
      ap (λ (l : List Str). record room { device_ids = l })
        (erase-push device_id room.device_ids h) in
    (
      ap (λ (x : Bool × RoomRegistry). x.0) put,
      ap (λ (x : Bool × RoomRegistry). remove_device x.1 room_id device_id) put
          ∙ removed (insert room_id room' r) room_id device_id room' found has
          ∙ ap (λ (x : Room). (true, insert room_id x (insert room_id room' r))) back
          ∙ ap (λ (m : RoomRegistry). (true, m)) (insert-twice room_id room room' r v.sorted e),
    )

pub data RoomCall : Type 0 where
  adds : Room → RoomCall
  removes : Str → RoomCall
  adds_device : Str → Str → RoomCall
  removes_device : Str → Str → RoomCall
  loads : Option Str → RoomCall

module _ {J : Type 0} (json : Json J) where
  unfoldable pub step : RoomRegistry → RoomCall → RoomRegistry
  step r (adds room) = (add r room).1
  step r (removes id) = (remove r id).1
  step r (adds_device room device) = (add_device r room device).1
  step r (removes_device room device) = (remove_device r room device).1
  step r (loads file) = load json file r

  -- What can be read as a room lists no device twice.
  abbrev pub IsItem : J → Type 0
  IsItem item = (room : Room) → from_json json item ≡ some room → Distinct room.device_ids

  -- A room that is added has each device once, and so does every room in a file that is loaded.
  abbrev pub IsCall : RoomCall → Type 0
  IsCall (adds room) = Distinct room.device_ids
  IsCall (loads file) = (items : List J) → read_items json file ≡ some items → All IsItem items
  IsCall _ = Unit {0}

  unfoldable pub run_rooms : RoomRegistry → List RoomCall → RoomRegistry
  run_rooms r [] = r
  run_rooms r (c ∷ cs) = run_rooms (step r c) cs
