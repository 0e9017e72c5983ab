-- ===== src/Cast/Module/Shutdown.antt =====
-- The module's life on the bus.
use nexus_mainframe.Common.{◌≡◌, refl, [], Str, false, true}
use nexus_mainframe.Common.OrdMap.{OrdMap}
use nexus_mainframe.Event.Bus.{EventBus}
use nexus_mainframe.Event.Bus.Invariant.{IsValid}
use nexus_mainframe.Event.Bus.Laws.{unsubscribe-subscribe}
use nexus_mainframe.Cast.Device.{CastDevice}
use nexus_mainframe.Cast.Module.{
  ChromecastModule, initialize, shutdown, unsubscribe_all, command_event,
}

-- On a valid bus that is not shutting down, a module without subscriptions that is initialized and,
-- whatever its devices have become, shut down again has no devices and no subscriptions, and leaves
-- the bus with the listeners it had.
pub shutdown-initialize :
    {C D : Type 0} (handler : C) (m : ChromecastModule D) (devices : OrdMap Str (CastDevice D))
    (bus : EventBus C)
    → IsValid bus
    → bus.is_shutting_down ≡ false
    → m.sub_ids ≡ []
    → ((shutdown (
      record (initialize handler (m, bus)).0 { devices = devices },
      (initialize handler (m, bus)).1,
    )).0
        ≡ record { has_bus = true; sub_ids = []; devices = [] })
      × ((shutdown (
        record (initialize handler (m, bus)).0 { devices = devices },
        (initialize handler (m, bus)).1,
      )).1.listeners
          ≡ bus.listeners)
unfolding initialize shutdown unsubscribe_all
shutdown-initialize handler m devices bus v up fresh =
    let (given, restored) = unsubscribe-subscribe bus command_event handler v up in
    (refl, rw (fresh, given) restored)
