-- ===== src/Cast/Module/Tests.antt =====
-- Commands of the module, and its life on a bus.
use nexus_mainframe.Common.{ℕ, ◌≡◌, refl, [], ◌∷◌, Str, codes, str_eq, true, false, none, some}
use nexus_mainframe.Common.Ints.{pos}
use nexus_mainframe.Json.{field}
use nexus_mainframe.Json.Packed.{packed, packed_reals, string, object, pack, parts, unpack, pairs}
use nexus_mainframe.Event.Bus.{EventBus, Event, Payload, init}
use nexus_mainframe.Event.Bus.Invariant.{init-IsValid}
use nexus_mainframe.Cast.Device.{new_device}
use nexus_mainframe.Cast.Device.Guards.{Holds}
use nexus_mainframe.Cast.Module.{
  ChromecastModule, handle_command, read_command, initialize, shutdown,
}
use nexus_mainframe.Cast.Module.Commands.{IsKeyed, handle_command-IsKeyed}
use nexus_mainframe.Cast.Module.Shutdown.{shutdown-initialize}

abbrev idle_module : ChromecastModule ℕ
idle_module = record { has_bus = true; sub_ids = []; devices = [] }

idle_module-IsKeyed : IsKeyed idle_module
idle_module-IsKeyed = record { sorted = tt; keyed = tt }

abbrev play_command : Str
play_command =
    object ((codes "host", string (codes "tv")) ∷ (codes "action", string (codes "play")) ∷ [])

abbrev command : Event
command = record { name = codes "chromecast.command"; payload = Payload.text play_command }

handle_command-IsKeyed_example :
    Holds IsKeyed (handle_command packed packed_reals none idle_module command)
handle_command-IsKeyed_example =
    handle_command-IsKeyed packed packed_reals none idle_module command idle_module-IsKeyed

reads : read_command packed packed_reals play_command ≡ some (codes "tv", pos 8009, codes "play")
unfolding read_command field str_eq pack parts unpack pairs
reads = refl

abbrev bus : EventBus ℕ
bus = init

bus_is_up : bus.is_shutting_down ≡ false
unfolding init
bus_is_up = refl

shutdown-initialize_example :
    ((shutdown (
      record (initialize 5 (idle_module, bus)).0 {
        devices = (codes "tv:1", new_device (codes "tv") (pos 1)) ∷ [];
      },
      (initialize 5 (idle_module, bus)).1,
    )).0
      ≡ record { has_bus = true; sub_ids = []; devices = [] })
    × ((shutdown (
      record (initialize 5 (idle_module, bus)).0 {
        devices = (codes "tv:1", new_device (codes "tv") (pos 1)) ∷ [];
      },
      (initialize 5 (idle_module, bus)).1,
    )).1.listeners
        ≡ bus.listeners)
shutdown-initialize_example =
    shutdown-initialize 5 idle_module ((codes "tv:1", new_device (codes "tv") (pos 1)) ∷ []) bus
      init-IsValid bus_is_up refl
