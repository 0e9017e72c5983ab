-- ===== src/Cast/Module/Commands.antt =====
-- What a command does to the devices of the module.
use nexus_mainframe.Common.{
  ◌≡◌, ◌≢◌, refl, Str, is_empty, ◌||◌, Option, none, some, arith, All, option_cases, if_cases,
}
use nexus_mainframe.Common.Ints.{ℤ}
use nexus_mainframe.Common.OrdMap.{
  OrdMap, find, insert, find-insert, All-insert, find-entry, key_eq_iff, IsSorted, IsSorted-insert,
}
use nexus_mainframe.Common.Keys.{str_order}
use nexus_mainframe.Json.{Json}
use nexus_mainframe.Event.Bus.{Event, Payload}
use nexus_mainframe.Cast.Socket.{TlsSocket}
use nexus_mainframe.Json.{Reals}
use nexus_mainframe.Cast.Device.{
  CastDevice, Outcome, returned, threw, undefined, new_device, next_id, disconnect,
}
use nexus_mainframe.Cast.Device.Control.{Action, perform}
use nexus_mainframe.Cast.Device.Guards.{
  IsValid, Holds, IsClosed, IsValid-IsClosed, perform-Holds, new_device-IsValid,
}
use nexus_mainframe.Cast.Module.{
  ChromecastModule, Parsed, action, nothing_to_do, bad_field, device_key, get_or_create, store,
  run_action, run_command, read_command, parse_action, handle_command,
}

-- A device that stands under the key of its host and port.
unfoldable pub At : {D : Type 0} → Str → CastDevice D → Type 0
At key d = IsValid d × (device_key d.host d.port ≡ key)

At-IsClosed : {D : Type 0} (key : Str) → IsClosed (At {D = D} key)
unfolding At next_id disconnect
At-IsClosed {D = D} key =
    let valid = IsValid-IsClosed {D = D} in
    record {
      valid = λ d (v, e). v;
      numbered = λ d (v, e). (valid.numbered d v, e);
      channelled = λ d ch (v, e). (valid.channelled d ch v, e);
      dropped = λ d (v, e). (
        valid.dropped d v,
        option_cases (λ (d' : CastDevice D). device_key d'.host d'.port ≡ key) d.channel _ _
            (λ _. e) λ ch f. e,
      );
    }

pub record IsKeyed {D : Type 0} (m : ChromecastModule D) : Type 0 where
  pub sorted : IsSorted m.devices
  pub keyed : All (λ e. At e.0 e.1) m.devices

module _ {D : Type 0} where
  All-At-find :
      (k : Str) (d : CastDevice D) (ds : OrdMap Str (CastDevice D))
      → All (λ e. At e.0 e.1) ds
      → find k ds ≡ some d
      → At k d
  All-At-find k d ds a e = find-entry (λ (x : Str × CastDevice D). At x.0 x.1) k d ds a e

  get_or_create-At :
      (m : ChromecastModule D) (host : Str) (port : ℤ)
      → IsKeyed m
      → At (device_key host port) (get_or_create m host port)
  unfolding get_or_create
  get_or_create-At m host port v =
      option_cases (At (device_key host port)) (find (device_key host port) m.devices) _ _
        (λ _. unfold At in (new_device-IsValid host port, unfold new_device in refl))
        λ d e. All-At-find _ d m.devices v.keyed e

  store-IsKeyed :
      (m : ChromecastModule D) (key : Str) (o : Outcome (CastDevice D))
      → IsKeyed m
      → Holds (At key) o
      → Holds IsKeyed (store m key o)
  unfolding store Holds
  store-IsKeyed m key (returned d) v h = record {
    sorted = IsSorted-insert key d m.devices v.sorted;
    keyed = All-insert (λ e. At e.0 e.1) key d m.devices h v.keyed;
  }
  store-IsKeyed m key (threw d) v h = record {
    sorted = IsSorted-insert key d m.devices v.sorted;
    keyed = All-insert (λ e. At e.0 e.1) key d m.devices h v.keyed;
  }
  store-IsKeyed m key undefined v h = h

  -- The other entries stay.
  unfoldable pub Others : ChromecastModule D → Str → ChromecastModule D → Type 0
  Others m key m' = (k : Str) → k ≢ key → find k m'.devices ≡ find k m.devices

  insert-Others :
      (m : ChromecastModule D) (key : Str) (d : CastDevice D)
      → Others m key (record m { devices = insert key d m.devices })
  unfolding Others
  insert-Others m key d k h = ground (arith, find-insert key k d m.devices, key_eq_iff k key)

  store-Others :
      (m : ChromecastModule D) (key : Str) (o : Outcome (CastDevice D))
      → Holds (At key) o
      → Holds (Others m key) (store m key o)
  unfolding store Holds
  store-Others m key (returned d) h = insert-Others m key d
  store-Others m key (threw d) h = insert-Others m key d
  store-Others m key undefined h = h

module _ {J D : Type 0} (json : Json J) (reals : Reals J D json) where
  -- How the action of a command ends, on the device of its host and port.
  performed-At :
      (opened : Option TlsSocket) (m : ChromecastModule D) (host : Str) (port : ℤ) (a : Action D)
      → IsKeyed m
      → Holds (At (device_key host port)) (perform json reals opened a (get_or_create m host port))
  performed-At opened m host port a v =
      perform-Holds json reals (At (device_key host port)) (At-IsClosed (device_key host port))
        opened a (get_or_create m host port) (get_or_create-At m host port v)

  run_action-IsKeyed :
      (opened : Option TlsSocket) (m : ChromecastModule D) (host : Str) (port : ℤ) (p : Parsed D)
      → IsKeyed m
      → Holds IsKeyed (run_action json reals opened m host port p)
  unfolding run_action
  run_action-IsKeyed opened m host port (action a) v =
      store-IsKeyed m (device_key host port) _ v (performed-At opened m host port a v)
  run_action-IsKeyed opened m host port nothing_to_do v =
      store-IsKeyed m (device_key host port) _ v (unfold Holds in get_or_create-At m host port v)
  run_action-IsKeyed opened m host port bad_field v =
      store-IsKeyed m (device_key host port) _ v (unfold Holds in get_or_create-At m host port v)

  run_action-Others :
      (opened : Option TlsSocket) (m : ChromecastModule D) (host : Str) (port : ℤ) (p : Parsed D)
      → IsKeyed m
      → Holds (Others m (device_key host port)) (run_action json reals opened m host port p)
  unfolding run_action
  run_action-Others opened m host port (action a) v =
      store-Others m (device_key host port) _ (performed-At opened m host port a v)
  run_action-Others opened m host port nothing_to_do v =
      store-Others m (device_key host port) _ (unfold Holds in get_or_create-At m host port v)
  run_action-Others opened m host port bad_field v =
      store-Others m (device_key host port) _ (unfold Holds in get_or_create-At m host port v)

  run_command-IsKeyed :
      (opened : Option TlsSocket) (m : ChromecastModule D) (cmd : J) (c : Option (Str × ℤ × Str))
      → IsKeyed m
      → Holds IsKeyed (run_command json reals opened m cmd c)
  unfolding run_command Holds
  run_command-IsKeyed opened m cmd none v = v
  run_command-IsKeyed opened m cmd (some (host, port, name)) v =
      if_cases (Holds IsKeyed) (is_empty host || is_empty name) _ _ (λ _. v)
        λ _. run_action-IsKeyed opened m host port (parse_action json reals cmd name) v

  -- Any event on the command's name, from a module whose devices are well formed and stand under the
  -- keys of their hosts and ports, ends in such a module, also where an exception leaves the handler,
  -- and never uses the pointer to a channel that is not there.
  pub handle_command-IsKeyed :
      (opened : Option TlsSocket) (m : ChromecastModule D) (event : Event)
      → IsKeyed m
      → Holds IsKeyed (handle_command json reals opened m event)
  unfolding handle_command Holds
  handle_command-IsKeyed opened m event v = handled event.payload
    where
      handled :
          (p : Payload)
          → Holds IsKeyed (handle_command json reals opened m (record event { payload = p }))
      handled Payload.nothing = v
      handled (Payload.pair a b) = v
      handled (Payload.text t) =
          option_cases (Holds IsKeyed) (json.parse t) _ _ (λ _. v)
            λ cmd e. run_command-IsKeyed opened m cmd (read_command json reals cmd) v

  -- A command for a host and a port leaves the devices of all others alone.
  pub handle_command-Others :
      (opened : Option TlsSocket) (m : ChromecastModule D) (name text : Str) (cmd : J)
      (host verb : Str) (port : ℤ)
      → IsKeyed m
      → json.parse text ≡ some cmd
      → read_command json reals cmd ≡ some (host, port, verb)
      → Holds
          (Others m (device_key host port))
          (handle_command json reals opened m (record { name = name; payload = Payload.text text }))
  unfolding handle_command run_command Holds Others
  handle_command-Others opened m name text cmd host verb port v e f =
      rw (handle_command, e, f)
        (if_cases (Holds (Others m (device_key host port))) (is_empty host || is_empty verb) _ _
          (λ _. λ k h. refl)
          λ _. run_action-Others opened m host port (parse_action json reals cmd verb) v)
