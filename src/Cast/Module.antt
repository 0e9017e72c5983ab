-- ===== src/Cast/Module.antt =====
-- ChromecastModule.cpp: the devices of the module, its commands, and the events it publishes. The
-- module's callback is a handle `handler`. The lock of `handleCommand` is not modelled: its calls come
-- one after another on the bus's thread. Log lines are left out.
pub mod Commands
pub mod Shutdown
mod Tests
use nexus_mainframe.Common.{
  ℕ, List, [], ◌∷◌, ◌++◌, Str, codes, str_eq, is_empty, Bool, true, false, ◌||◌, Option, none, some,
  if◌then◌else◌, map,
}
use nexus_mainframe.Common.Options.{◌>>=◌}
use nexus_mainframe.Common.Ints.{ℤ, pos, int_to_string}
use nexus_mainframe.Common.OrdMap.{OrdMap, find, insert}
use nexus_mainframe.Common.Keys.{str_order}
use nexus_mainframe.Json.{Json}
use nexus_mainframe.Event.Bus.{EventBus, Event, Payload, subscribe, unsubscribe, publish}
use nexus_mainframe.Event.Bus
use nexus_mainframe.Cast.Proto.{CastMessage}
use nexus_mainframe.Cast.Socket.{TlsSocket}
use nexus_mainframe.Json.{Reals}
use nexus_mainframe.Cast.Device.{
  CastDevice, Outcome, returned, threw, undefined, ReceiverStatus, MediaStatus, new_device,
  disconnect,
}
use nexus_mainframe.Cast.Device.Control.{
  Action, connects, disconnects, gets_status, launches, stops_app, plays, pauses, stops_media,
  seeks, sets_volume, sets_muted, loads_media, perform,
}
use nexus_mainframe.Cast.Device.Status.{Report, receiver, media, handle_message}

-- `none` among the ids is -1, which no listener has.
pub record ChromecastModule (D : Type 0) : Type 0 where
  pub has_bus : Bool
  pub sub_ids : List (Option ℕ)
  pub devices : OrdMap Str (CastDevice D)

unfoldable pub command_event : Str
command_event = codes "chromecast.command"

unfoldable pub new_module : {D : Type 0} → ChromecastModule D
new_module = record { has_bus = false; sub_ids = []; devices = [] }

unfoldable pub initialize :
    {C D : Type 0} → C → ChromecastModule D × EventBus C → ChromecastModule D × EventBus C
initialize handler (m, bus) =
    let (id, bus') = subscribe bus command_event handler in
    (record m { has_bus = true; sub_ids = m.sub_ids ++ id ∷ [] }, bus')

unfoldable pub unsubscribe_all : {C : Type 0} → List (Option ℕ) → EventBus C → EventBus C
unsubscribe_all [] bus = bus
unsubscribe_all (none ∷ ids) bus = unsubscribe_all ids bus
unsubscribe_all (some id ∷ ids) bus = unsubscribe_all ids (unsubscribe bus command_event id)

-- The devices are disconnected before the map is cleared; `closed` is what their channels are then.
unfoldable pub shutdown :
    {C D : Type 0} → ChromecastModule D × EventBus C → ChromecastModule D × EventBus C
shutdown (m, bus) =
    if m.has_bus
    then (record m { sub_ids = []; devices = [] }, unsubscribe_all m.sub_ids bus)
    else (record m { devices = [] }, bus)

unfoldable pub device_key : Str → ℤ → Str
device_key host port = host ++ codes ":" ++ int_to_string port

unfoldable pub get_or_create : {D : Type 0} → ChromecastModule D → Str → ℤ → CastDevice D
get_or_create m host port = elim (find (device_key host port) m.devices) [
  | none ↦ new_device host port
  | some d ↦ d
]

-- How a command ends.
unfoldable pub store :
    {D : Type 0} → ChromecastModule D → Str → Outcome (CastDevice D) → Outcome (ChromecastModule D)
store m key (returned d) = returned (record m { devices = insert key d m.devices })
store m key (threw d) = threw (record m { devices = insert key d m.devices })
store m key undefined = undefined

-- What an action's name stands for: an action, nothing to do, or an exception.
pub data Parsed (D : Type 0) : Type 0 where
  action : Action D → Parsed D
  nothing_to_do : Parsed D
  bad_field : Parsed D

module _ {J D : Type 0} (json : Json J) (reals : Reals J D json) where
  with_field : {A : Type 0} → Option A → (A → Action D) → Parsed D
  with_field none f = bad_field
  with_field (some a) f = action (f a)

  -- `contentType` and `title` are read when the url has been found to be there.
  parse_load : J → Parsed D
  parse_load cmd = elim (json.value_string cmd (codes "url") []) [
    | none ↦ bad_field
    | some url ↦
        if is_empty url
        then nothing_to_do
        else with_field
            (do
              content_type ← json.value_string cmd (codes "contentType") (codes "video/mp4")
              title ← json.value_string cmd (codes "title") []
              some (content_type, title))
            (λ (t : Str × Str). loads_media url t.0 t.1)
  ]

  unfoldable pub parse_action : J → Str → Parsed D
  unfolding with_field parse_load
  parse_action cmd name =
      if str_eq name (codes "connect")
      then action connects
      else if str_eq name (codes "disconnect")
      then action disconnects
      else if str_eq name (codes "getStatus")
      then action gets_status
      else if str_eq name (codes "launchMediaReceiver")
      then action launches
      else if str_eq name (codes "stopApp")
      then action stops_app
      else if str_eq name (codes "play")
      then action plays
      else if str_eq name (codes "pause")
      then action pauses
      else if str_eq name (codes "stopMedia")
      then action stops_media
      else if str_eq name (codes "seek")
      then with_field (reals.value_real cmd (codes "seconds") reals.zero) seeks
      else if str_eq name (codes "setVolume")
      then with_field (reals.value_real cmd (codes "level") reals.one) sets_volume
      else if str_eq name (codes "setMuted")
      then with_field (json.value_boolean cmd (codes "muted") false) sets_muted
      else if str_eq name (codes "loadMedia")
      then parse_load cmd
      else nothing_to_do

  unfoldable pub run_action :
      Option TlsSocket → ChromecastModule D → Str → ℤ → Parsed D → Outcome (ChromecastModule D)
  run_action opened m host port (action a) =
      store m (device_key host port) (perform json reals opened a (get_or_create m host port))
  run_action opened m host port nothing_to_do =
      store m (device_key host port) (returned (get_or_create m host port))
  run_action opened m host port bad_field =
      store m (device_key host port) (threw (get_or_create m host port))

  unfoldable pub read_command : J → Option (Str × ℤ × Str)
  read_command cmd = do
    host ← json.value_string cmd (codes "host") []
    port ← json.value_int cmd (codes "port") (pos 8009)
    name ← json.value_string cmd (codes "action") []
    some (host, port, name)

  unfoldable pub run_command :
      Option TlsSocket
      → ChromecastModule D
      → J
      → Option (Str × ℤ × Str)
      → Outcome (ChromecastModule D)
  run_command opened m cmd none = threw m
  run_command opened m cmd (some (host, port, name)) =
      if is_empty host || is_empty name
      then returned m
      else run_action opened m host port (parse_action cmd name)

  -- `opened` is what a `connect` of a socket would make. Only the parse is guarded by a `catch`.
  unfoldable pub handle_command :
      Option TlsSocket → ChromecastModule D → Event → Outcome (ChromecastModule D)
  handle_command opened m event = elim event.payload [
    | Payload.nothing ↦ returned m
    | Payload.pair a b ↦ returned m
    | Payload.text payload ↦ elim (json.parse payload) [
      | none ↦ returned m
      | some cmd ↦ run_command opened m cmd (read_command cmd)
    ]
  ]

  report_fields : Str → Report D → List (Str × J)
  report_fields host (receiver s) =
      (codes "host", json.string host)
      ∷ (codes "sessionId", json.string s.session_id)
      ∷ (codes "transportId", json.string s.transport_id)
      ∷ (codes "appId", json.string s.app_id)
      ∷ (codes "displayName", json.string s.display_name)
      ∷ (codes "isIdleScreen", json.boolean s.is_idle_screen)
      ∷ (codes "volume", reals.real s.volume_level)
      ∷ (codes "muted", json.boolean s.muted)
      ∷ []
  report_fields host (media s) =
      (codes "host", json.string host)
      ∷ (codes "mediaSessionId", json.integer s.session_id)
      ∷ (codes "playerState", json.string s.player_state)
      ∷ (codes "currentTime", reals.real s.current_time)
      ∷ (codes "duration", reals.real s.duration)
      ∷ (codes "title", json.string s.title)
      ∷ (codes "contentId", json.string s.content_id)
      ∷ (codes "contentType", json.string s.content_type)
      ∷ []

  report_name : Report D → Str
  report_name (receiver s) = codes "chromecast.status"
  report_name (media s) = codes "chromecast.media"

  -- The callbacks that `getOrCreate` sets; `dump` may throw.
  unfoldable pub publish_report :
      {C : Type 0} → ChromecastModule D → Str → Report D → EventBus C → EventBus C
  unfolding report_fields report_name
  publish_report m host r bus =
      if m.has_bus
      then elim (json.dump (json.object (report_fields host r))) [
        | none ↦ bus
        | some text ↦ publish bus (record { name = report_name r; payload = Payload.text text })
      ]
      else bus

  -- The callback of a channel that hangs up.
  unfoldable pub publish_error : {C : Type 0} → ChromecastModule D → Str → EventBus C → EventBus C
  publish_error m host bus =
      if m.has_bus
      then elim (json.dump (
          json.object (
            (codes "host", json.string host)
            ∷ (codes "error", json.string (codes "Disconnected from " ++ host))
            ∷ []))) [
              | none ↦ bus
              | some text ↦
                  publish bus
                    (record { name = codes "chromecast.error"; payload = Payload.text text })
            ]
      else bus

  publish_reports :
      {C : Type 0} → ChromecastModule D → Str → List (Report D) → EventBus C → EventBus C
  publish_reports m host [] bus = bus
  publish_reports m host (r ∷ rs) bus = publish_reports m host rs (publish_report m host r bus)

  stored :
      {C : Type 0}
      → ChromecastModule D
      → Str
      → EventBus C
      → Outcome (CastDevice D × List (Report D))
      → Outcome (ChromecastModule D × EventBus C)
  stored m key bus (returned (d, rs)) =
      returned (record m { devices = insert key d m.devices }, publish_reports m d.host rs bus)
  stored m key bus (threw (d, rs)) = threw (m, bus)
  stored m key bus undefined = undefined

  -- A message that the receiving thread of the device of `key` hands on.
  unfoldable pub hear :
      {C : Type 0}
      → ChromecastModule D
      → Str
      → CastMessage
      → EventBus C
      → Outcome (ChromecastModule D × EventBus C)
  unfolding publish_reports stored
  hear m key msg bus = elim (find key m.devices) [
    | none ↦ returned (m, bus)
    | some d ↦ stored m key bus (handle_message json reals d msg)
  ]
