-- ===== src/Home/DeviceController/Shown.antt =====
-- What a client of the routes sees of a device.
use nexus_mainframe.Common.{
  ◌≡◌, refl, ap, ◌∙◌, List, [], ◌++◌, Str, codes, is_empty, true, false, ◌||◌, none, some, map,
}
use nexus_mainframe.Common.OrdMap.{find, insert, find-insert, key_eq_iff}
use nexus_mainframe.Common.Keys.{str_order}
use nexus_mainframe.Json.{Json, field}
use nexus_mainframe.Event.Bus.{EventBus, text, publish}
use nexus_mainframe.Home.Result.{created, to_json}
use nexus_mainframe.Home.Devices.{Device, DeviceRegistry, exists}
use nexus_mainframe.Home.Devices
use nexus_mainframe.Home.DeviceService
use nexus_mainframe.Home.DeviceController.{respond, show, create, create_named, read_names, answer}

module _ {J : Type 0} (json : Json J) where
  abbrev pub registered : Str → Str → Str → Device J
  registered id name type = record {
    id = id;
    name = name;
    type = type;
    state = json.object [];
    online = false;
  }

  abbrev pub with_registered : DeviceRegistry J → Device J → Str → DeviceRegistry J
  with_registered r d file = record r { devices = insert d.id d r.devices; file = some file }

  read_names-object :
      (fs : List (Str × J)) (name type : Str)
      → field (codes "name") fs ≡ some (json.string name)
      → field (codes "type") fs ≡ some (json.string type)
      → read_names json (json.object fs) ≡ some (name, type)
  unfolding read_names
  read_names-object fs name type e f =
      rw
        (
          read_names,
          json.value_string-object fs (codes "name") [] name e,
          json.value_string-object fs (codes "type") [] type f,
        )
        refl

  save_registered :
      (r : DeviceRegistry J) (d : Device J) (file : Str)
      → json.dump_indented
          (json.array (map (λ e. Devices.to_json json e.1) (insert d.id d r.devices)))
        ≡ some file
      → Devices.save json (record r { devices = insert d.id d r.devices })
        ≡ (true, with_registered r d file)
  unfolding Devices.save
  save_registered r d file e = rw (Devices.save, e) refl

  find-registered :
      (r : DeviceRegistry J) (d : Device J) (file : Str)
      → find d.id (with_registered r d file).devices ≡ some d
  find-registered r d file =
      find-insert d.id d.id d r.devices ∙ rw ((key_eq_iff d.id d.id).1 refl) refl

module _ {J C : Type 0} (json : Json J) where
  add-registered :
      (r : DeviceRegistry J) (bus : EventBus C) (id name type file : Str)
      → is_empty name || is_empty type ≡ false
      → exists r id ≡ false
      → json.dump_indented (
          json.array (
            map
              (λ e. Devices.to_json json e.1)
              (insert id (registered json id name type) r.devices)))
        ≡ some file
      → DeviceService.add json r bus id name type ≡ (
        some (created (codes "Device '" ++ id ++ codes "' registered")),
        with_registered json r (registered json id name type) file,
        publish bus (record { name = codes "device.registered"; payload = text id }),
      )
  unfolding DeviceService.add DeviceService.finish Devices.add
  add-registered r bus id name type file given fresh saved =
      rw
        (
          DeviceService.add,
          given,
          fresh,
          save_registered json r (registered json id name type) file saved,
        )
        refl

  -- A registration with a name and a type, under an id that is new, whose file can be printed, is
  -- answered with 201; the device is then what the route of its id shows, with the printed text of
  -- the device.
  pub create-show :
      (r : DeviceRegistry J) (bus : EventBus C) (fs : List (Str × J)) (id body name type : Str)
      (file answered shown : Str)
      → json.parse body ≡ some (json.object fs)
      → field (codes "name") fs ≡ some (json.string name)
      → field (codes "type") fs ≡ some (json.string type)
      → is_empty name || is_empty type ≡ false
      → exists r id ≡ false
      → json.dump_indented (
          json.array (
            map
              (λ e. Devices.to_json json e.1)
              (insert id (registered json id name type) r.devices)))
        ≡ some file
      → to_json json (created (codes "Device '" ++ id ++ codes "' registered")) ≡ some answered
      → json.dump (Devices.to_json json (registered json id name type)) ≡ some shown
      → ((create json r bus id body).0 ≡ some (record { status = some 201; body = answered }))
        × (show json (create json r bus id body).1 id
            ≡ some (record { status = none; body = shown }))
  unfolding create create_named answer respond show DeviceService.get Devices.get created
  create-show r bus fs id body name type file answered shown p n t given fresh saved told printed =
      let d = registered json id name type in
      let made : create json r bus id body ≡ (
        some (record { status = some 201; body = answered }),
        with_registered json r d file,
        publish bus (record { name = codes "device.registered"; payload = text id }),
      ) =
        rw
          (
            create,
            p,
            read_names-object json fs name type n t,
            add-registered r bus id name type file given fresh saved,
            told,
          )
          refl in
      (
        ap (λ x. x.0) made,
        ap (λ x. show json x.1 id) made ∙ rw (show, find-registered json r d file, printed) refl,
      )
