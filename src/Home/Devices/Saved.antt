-- ===== src/Home/Devices/Saved.antt =====
-- The registry's invariant, and what the file keeps of it.
use nexus_mainframe.Common.{
  ◌≡◌, refl, subst, sym, ap, ◌∙◌, List, [], ◌∷◌, Str, codes, str_eq, Bool, true, false, Option,
  none, some, map, All, if_cases, Bool-cases, Option-cases, inl, inr, arith,
}
use nexus_mainframe.Common.OrdMap.{
  OrdMap, find, insert, find-insert, All-insert, All-erase, key_eq, key_eq_iff, IsSorted,
  IsSorted-insert, IsSorted-erase, IsSorted-ext, find-Above,
}
use nexus_mainframe.Common.Keys.{str_order}
use nexus_mainframe.Json.{Json, field}
use nexus_mainframe.Home.Devices.{
  Device, DeviceRegistry, exists, add, remove, to_json, from_json, update_state, load_item,
  read_items, load_items, load, save,
}

pub data RegistryCall (J : Type 0) : Type 0 where
  adds : Device J → RegistryCall J
  removes : Str → RegistryCall J
  updates : Str → J → RegistryCall J
  saves : RegistryCall J

module _ {J : Type 0} where
  -- Each device stands under its id, and each id once.
  pub record IsKeyed (m : OrdMap Str (Device J)) : Type 0 where
    pub keys : All (λ e. e.0 ≡ e.1.id) m
    pub sorted : IsSorted m

module _ {J : Type 0} (json : Json J) where
  from_json-to_json : (d : Device J) → from_json json (to_json json d) ≡ some d
  unfolding from_json to_json field str_eq
  from_json-to_json d =
      rw
        (
          json.value_string-object _ (codes "id") [] d.id refl,
          json.value_string-object _ (codes "name") [] d.name refl,
          json.value_string-object _ (codes "type") [] d.type refl,
          json.value_json-object _ (codes "state") (json.object []) d.state refl,
          json.value_boolean-object _ (codes "online") false d.online refl,
        )
        refl

  at_id : (d : Device J) → json.at_string (to_json json d) (codes "id") ≡ some d.id
  unfolding to_json field str_eq
  at_id d = json.at_string-object _ (codes "id") d.id refl

  load_item-to_json : (d : Device J) → load_item json (to_json json d) ≡ some (d.id, d)
  unfolding load_item
  load_item-to_json d = rw (at_id d, from_json-to_json d) refl

  load_items-cons :
      (d : Device J) (items : List J) (m : OrdMap Str (Device J))
      → load_items json (to_json json d ∷ items) m ≡ load_items json items (insert d.id d m)
  unfolding load_items
  load_items-cons d items m = rw (load_item-to_json d, load_items) refl

  abbrev items_of : OrdMap Str (Device J) → List J
  items_of m = map (λ e. to_json json e.1) m

  find-load_items :
      (k : Str) (es m : OrdMap Str (Device J))
      → All (λ e. e.0 ≡ e.1.id) es
      → IsSorted es
      → find k (load_items json (items_of es) m)
        ≡ elim (find k es) [ none ↦ find k m | some d ↦ some d ]
  unfolding find
  find-load_items k [] m a s = unfold load_items in refl
  find-load_items k ((j, d) ∷ es) m a s =
      ap (find k) (load_items-cons d (items_of es) m)
      ∙ find-load_items k es (insert d.id d m) a.1 s.1
      ∙ ground (
        arith,
        find-insert d.id k d m,
        a.0,
        key_eq_iff k j,
        key_eq_iff k d.id,
        find-Above j es s.0,
      )

  IsSorted-load_items :
      (items : List J) (m : OrdMap Str (Device J)) → IsSorted m → IsSorted (load_items json items m)
  unfolding load_items
  IsSorted-load_items [] m s = s
  IsSorted-load_items (item ∷ items) m s =
      loaded (load_item json item)
        λ id d. IsSorted-load_items items (insert id d m) (IsSorted-insert id d m s)
    where
      loaded :
          (o : Option (Str × Device J))
          → ((id : Str) (d : Device J) → IsSorted (load_items json items (insert id d m)))
          → IsSorted (elim o [ none ↦ m | some (id, d) ↦ load_items json items (insert id d m) ])
      loaded none h = s
      loaded (some (id, d)) h = h id d

  read_items-text :
      (js : List J) (text : Str)
      → json.dump_indented (json.array js) ≡ some text
      → read_items json (some text) ≡ some js
  unfolding read_items
  read_items-text js text e =
      rw (json.parse-dump_indented (json.array js) text e) (json.elements-array js)

  load_text :
      (es m : OrdMap Str (Device J)) (text : Str)
      → json.dump_indented (json.array (items_of es)) ≡ some text
      → load json (record { devices = m; file = some text })
        ≡ record { devices = load_items json (items_of es) m; file = some text }
  unfolding load
  load_text es m text e = rw (read_items-text (items_of es) text e, load) refl

  save_fails :
      (r : DeviceRegistry J)
      → json.dump_indented (json.array (items_of r.devices)) ≡ none
      → (save json r).0 ≡ false
  unfolding save
  save_fails r e = rw (e, save) refl

  save_text :
      (r : DeviceRegistry J) (text : Str)
      → json.dump_indented (json.array (items_of r.devices)) ≡ some text
      → (save json r).1.file ≡ some text
  unfolding save
  save_text r text e = rw (e, save) refl

  loaded_same : (m : OrdMap Str (Device J)) → IsKeyed m → load_items json (items_of m) [] ≡ m
  unfolding find
  loaded_same m k =
      IsSorted-ext (load_items json (items_of m) []) m (IsSorted-load_items (items_of m) [] tt)
        k.sorted λ id. find-load_items id m [] k.keys k.sorted ∙ same_find (find id m)
    where
      same_find : (o : Option (Device J)) → elim o [ none ↦ none | some d ↦ some d ] ≡ o
      same_find none = refl
      same_find (some d) = refl

  -- What is saved is what another start loads: where `save` succeeds on a registry whose devices
  -- stand under their ids, loading its file into an empty registry gives the same devices.
  pub load-save :
      (r : DeviceRegistry J)
      → IsKeyed r.devices
      → (save json r).0 ≡ true
      → (load json (record { devices = []; file = (save json r).1.file })).devices ≡ r.devices
  load-save r k ok = elim (Option-cases (json.dump_indented (json.array (items_of r.devices)))) [
    | inl e ↦ absurd (ground (arith, ok, save_fails r e))
    | inr (text, e) ↦
        ap (λ (f : Option Str). (load json (record { devices = []; file = f })).devices)
          (save_text r text e)
        ∙ ap (λ (s : DeviceRegistry J). s.devices) (load_text r.devices [] text e)
        ∙ loaded_same r.devices k
  ]

  unfoldable pub step : DeviceRegistry J → RegistryCall J → DeviceRegistry J
  step r (adds d) = (add r d).1
  step r (removes id) = (remove r id).1
  step r (updates id patch) = (update_state json r id patch).1
  step r saves = (save json r).1

  find-key :
      (id : Str) (d : Device J) (m : OrdMap Str (Device J))
      → All (λ e. e.0 ≡ e.1.id) m
      → find id m ≡ some d
      → id ≡ d.id
  unfolding find
  find-key id d [] a e = cc
  find-key id d ((j, x) ∷ m) a e = elim (Bool-cases (key_eq id j)) [
    | inl hit ↦ ground (arith, a.0, hit, e, key_eq_iff id j)
    | inr miss ↦ find-key id d m a.1 (ground arith)
  ]

  insert-IsKeyed :
      (id : Str) (d : Device J) (m : OrdMap Str (Device J))
      → id ≡ d.id
      → IsKeyed m
      → IsKeyed (insert id d m)
  insert-IsKeyed id d m e k = record {
    keys = All-insert _ id d m e k.keys;
    sorted = IsSorted-insert id d m k.sorted;
  }

  update-IsKeyed :
      (r : DeviceRegistry J) (id : Str) (patch : J)
      → IsKeyed r.devices
      → IsKeyed (update_state json r id patch).1.devices
  unfolding update_state
  update-IsKeyed r id patch k = elim (Option-cases (find id r.devices)) [
    | inl e ↦ rw (e, update_state) k
    | inr (d, e) ↦
        rw (e, update_state)
          (insert-IsKeyed id (record d { state = json.merge_patch d.state patch }) r.devices
            (find-key id d r.devices k.keys e) k)
  ]

  save-devices : (r : DeviceRegistry J) → (save json r).1.devices ≡ r.devices
  unfolding save
  save-devices r = elim (Option-cases (json.dump_indented (json.array (items_of r.devices)))) [
    | inl e ↦ rw (e, save) refl
    | inr (text, e) ↦ rw (e, save) refl
  ]

  step-IsKeyed :
      (r : DeviceRegistry J) (c : RegistryCall J) → IsKeyed r.devices → IsKeyed (step r c).devices
  unfolding step add remove save
  step-IsKeyed r (adds d) k =
      if_cases (λ (x : Bool × DeviceRegistry J). IsKeyed x.1.devices) (exists r d.id) _ _ (λ t. k)
        λ f. insert-IsKeyed d.id d r.devices refl k
  step-IsKeyed r (removes id) k = record {
    keys = All-erase _ id r.devices k.keys;
    sorted = IsSorted-erase id r.devices k.sorted;
  }
  step-IsKeyed r (updates id patch) k = update-IsKeyed r id patch k
  step-IsKeyed r saves k = subst IsKeyed (sym (save-devices r)) k

  unfoldable pub run : DeviceRegistry J → List (RegistryCall J) → DeviceRegistry J
  run r [] = r
  run r (c ∷ cs) = run (step r c) cs

  -- On a registry with each device under its id and each id once, any calls, in any order, keep it
  -- so.
  pub run-IsKeyed :
      (r : DeviceRegistry J) (cs : List (RegistryCall J))
      → IsKeyed r.devices
      → IsKeyed (run r cs).devices
  unfolding run
  run-IsKeyed r [] k = k
  run-IsKeyed r (c ∷ cs) k = run-IsKeyed (step r c) cs (step-IsKeyed r c k)
