-- ===== src/Home/Devices.antt =====
-- Device.cpp and DeviceRegistry.cpp. The file is its content, `none` where it does not exist.
-- `unordered_map` iterates in an order of its own; the model's map iterates by key.
pub mod Saved
use nexus_mainframe.Common.{
  ℕ, ◌≡◌, refl, List, [], ◌∷◌, Str, codes, Bool, true, false, not, Option, none, some,
  if◌then◌else◌, map, All,
}
use nexus_mainframe.Common.Options.{◌>>=◌}
use nexus_mainframe.Common.OrdMap.{
  OrdMap, find, insert, erase, find-insert, key_eq, key_eq_iff, IsSorted, Above, find-Above,
}
use nexus_mainframe.Common.Keys.{str_order}
use nexus_mainframe.Json.{Json, field}

pub record Device (J : Type 0) : Type 0 where
  pub id : Str
  pub name : Str
  pub type : Str
  pub state : J
  pub online : Bool

-- `_devices`, and the file at `_path`.
pub record DeviceRegistry (J : Type 0) : Type 0 where
  pub devices : OrdMap Str (Device J)
  pub file : Option Str

abbrev is_some {ℓ} : {A : Type ℓ} → Option A → Bool
is_some none = false
is_some (some a) = true

module _ {J : Type 0} where
  unfoldable pub exists : DeviceRegistry J → Str → Bool
  exists r id = is_some (find id r.devices)

  unfoldable pub add : DeviceRegistry J → Device J → Bool × DeviceRegistry J
  add r d =
      if exists r d.id then (false, r) else (true, record r { devices = insert d.id d r.devices })

  unfoldable pub get : DeviceRegistry J → Str → Option (Device J)
  get r id = find id r.devices

  unfoldable pub list : DeviceRegistry J → List (Device J)
  list r = map (λ e. e.1) r.devices

  unfoldable pub remove : DeviceRegistry J → Str → Bool × DeviceRegistry J
  remove r id = (exists r id, record r { devices = erase id r.devices })

module _ {J : Type 0} (json : Json J) where
  unfoldable pub to_json : Device J → J
  to_json d = json.object (
      (codes "id", json.string d.id)
      ∷ (codes "name", json.string d.name)
      ∷ (codes "type", json.string d.type)
      ∷ (codes "state", d.state)
      ∷ (codes "online", json.boolean d.online)
      ∷ [])

  unfoldable pub from_json : J → Option (Device J)
  from_json j = do
    id ← json.value_string j (codes "id") []
    name ← json.value_string j (codes "name") []
    type ← json.value_string j (codes "type") []
    state ← json.value_json j (codes "state") (json.object [])
    online ← json.value_boolean j (codes "online") false
    some (record { id = id; name = name; type = type; state = state; online = online })

  -- `merge_patch` of a missing device is not reached.
  unfoldable pub update_state : DeviceRegistry J → Str → J → Bool × DeviceRegistry J
  update_state r id patch = elim (find id r.devices) [
    | none ↦ (false, r)
    | some d ↦ (
      true,
      record r {
        devices = insert id (record d { state = json.merge_patch d.state patch }) r.devices;
      },
    )
  ]

  load_item : J → Option (Str × Device J)
  load_item item = do id ← json.at_string item (codes "id"); d ← from_json item; some (id, d)

  -- The loop ends at the first item that throws; what was read before stays.
  unfoldable pub load_items : List J → OrdMap Str (Device J) → OrdMap Str (Device J)
  unfolding load_item
  load_items [] m = m
  load_items (item ∷ items) m = elim (load_item item) [
    | none ↦ m
    | some (id, d) ↦ load_items items (insert id d m)
  ]

  -- What the file's parse is iterated over.
  read_items : Option Str → Option (List J)
  read_items file = do text ← file; j ← json.parse text; json.elements j

  unfoldable pub load : DeviceRegistry J → DeviceRegistry J
  unfolding read_items
  load r = elim (read_items r.file) [
    | none ↦ r
    | some items ↦ record r { devices = load_items items r.devices }
  ]

  -- A file that can be opened and written: it is emptied before `dump` may throw; the answer is whether it
  -- did not.
  unfoldable pub save : DeviceRegistry J → Bool × DeviceRegistry J
  save r = elim (json.dump_indented (json.array (map (λ e. to_json e.1) r.devices))) [
    | none ↦ (false, record r { file = some [] })
    | some text ↦ (true, record r { file = some text })
  ]
