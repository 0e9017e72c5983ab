-- ===== src/Home/DeviceService.antt =====
-- DeviceService.cpp. A new id is random in the program, and an argument here.
-- `none` stands for an exception of `save`, which leaves the method.
use nexus_mainframe.Common.{
  ◌≡◌, Bool, List, [], ◌∷◌, ◌++◌, Str, codes, false, ◌||◌, Option, none, some, if◌then◌else◌,
  is_empty, arith,
}
use nexus_mainframe.Event.Bus.{EventBus, Event, text, publish}
use nexus_mainframe.Json.{Json}
use nexus_mainframe.Home.Result.{Result, ok, created, bad_request, not_found, conflict, is_ok}
use nexus_mainframe.Home.Devices.{Device, DeviceRegistry}
use nexus_mainframe.Home.Devices

module _ {J : Type 0} (json : Json J) where
  -- `file` is what stands under the registry's path.
  unfoldable pub start : Option Str → DeviceRegistry J
  start file = Devices.load json (record { devices = []; file = file })

  -- The registry is there behind `start`.
  unfoldable pub stop : DeviceRegistry J → Bool × DeviceRegistry J
  stop r = Devices.save json r

  unfoldable pub list : DeviceRegistry J → List (Device J)
  list r = Devices.list r

  unfoldable pub get : DeviceRegistry J → Str → Option (Device J)
  get r id = Devices.get r id

module _ {J C : Type 0} (json : Json J) where
  -- `_registry->save()`, then the event and the answer.
  unfoldable pub finish :
      DeviceRegistry J → EventBus C → Event → Result → Option Result × DeviceRegistry J × EventBus C
  finish r bus event result =
      let (saved, r') = Devices.save json r in
      if saved then (some result, r', publish bus event) else (none, r', bus)

  unfoldable pub add :
      DeviceRegistry J
      → EventBus C
      → Str
      → Str
      → Str
      → Option Result × DeviceRegistry J × EventBus C
  add r bus id name type =
      if is_empty name || is_empty type
      then (some (bad_request (codes "Fields 'name' and 'type' are required")), r, bus)
      else (let (added, r') = Devices.add r (record {
        id = id;
        name = name;
        type = type;
        state = json.object [];
        online = false;
      }) in
          if added
          then finish r' bus (record { name = codes "device.registered"; payload = text id })
              (created (codes "Device '" ++ id ++ codes "' registered"))
          else (some (conflict (codes "Device with this id already exists")), r', bus))

  unfoldable pub remove :
      DeviceRegistry J → EventBus C → Str → Option Result × DeviceRegistry J × EventBus C
  remove r bus id =
      if Devices.exists r id
      then finish (Devices.remove r id).1 bus
          (record { name = codes "device.removed"; payload = text id })
          (ok (codes "Device '" ++ id ++ codes "' removed"))
      else (some (not_found (codes "Device '" ++ id ++ codes "' not found")), r, bus)

  -- `command_text` is the dump of the id with the payload, which also may throw.
  unfoldable pub command :
      DeviceRegistry J → EventBus C → Str → J → Option Result × DeviceRegistry J × EventBus C
  command r bus id payload =
      if Devices.exists r id
      then (let (saved, r') = Devices.save json (Devices.update_state json r id payload).1 in
          let dumped =
            json.dump
              (json.object ((codes "id", json.string id) ∷ (codes "payload", payload) ∷ [])) in
          if saved
          then elim dumped [
            | none ↦ (none, r', bus)
            | some d ↦ (
              some (ok (codes "Command applied to device '" ++ id ++ codes "'")),
              r',
              publish bus (record { name = codes "device.command"; payload = text d }),
            )
          ]
          else (none, r', bus))
      else (some (not_found (codes "Device '" ++ id ++ codes "' not found")), r, bus)

  -- A command, a registration or a removal that is answered with a status outside 200 to 299 changes
  -- neither the registry nor the bus.
  pub refused-keeps :
      (r : DeviceRegistry J) (bus : EventBus C) (id name type : Str) (payload : J) (res : Result)
      → is_ok res ≡ false
      → ((add r bus id name type).0 ≡ some res
          → ((add r bus id name type).1 ≡ r) × ((add r bus id name type).2 ≡ bus))
        × ((remove r bus id).0 ≡ some res → ((remove r bus id).1 ≡ r) × ((remove r bus id).2 ≡ bus))
        × ((command r bus id payload).0 ≡ some res
            → ((command r bus id payload).1 ≡ r) × ((command r bus id payload).2 ≡ bus))
  unfolding add remove command finish is_ok ok created conflict Devices.add
  refused-keeps r bus id name type payload res refused = (
    λ e. ground (arith, e, refused),
    λ e. ground (arith, e, refused),
    λ e. ground (arith, e, refused),
  )
