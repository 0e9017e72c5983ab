-- ===== src/Event/Tests.antt =====
-- Runs of the bus and of a trigger, and their theorems at concrete inputs. A callback is a number,
-- which it writes down.
use nexus_mainframe.Common.{
  ℕ, ◌≡◌, refl, List, [], ◌∷◌, ◌++◌, Str, codes, keep_if, some, true, false,
}
use nexus_mainframe.Common.OrdMap.{find, insert, erase}
use nexus_mainframe.Common.Keys.{str_cmp}
use nexus_mainframe.Event.Bus.{
  EventBus, Event, nothing, init, subscribe, unsubscribe, publish, dispatch_pending, call_all,
  dispatch_events, callbacks_for,
}
use nexus_mainframe.Event.Bus.Invariant.{IsValid, Rising, init-IsValid}
use nexus_mainframe.Event.Bus.Laws.{
  subscribes, unsubscribes, publishes, run, step, run-IsValid, unsubscribe-subscribe, dispatches,
  Call,
}
use nexus_mainframe.Event.Bus.Dispatch.{KeepsValid, named, listening, run_plan, plan, dispatch-plan}
use nexus_mainframe.Event.Trigger.{EventTrigger}

abbrev changed : Event
changed = record { name = codes "a"; payload = nothing }

abbrev history : List (Call ℕ)
history =
    subscribes (codes "a") 7
    ∷ subscribes (codes "b") 8
    ∷ subscribes (codes "a") 9
    ∷ unsubscribes (codes "b") 2
    ∷ publishes changed
    ∷ dispatches
    ∷ publishes changed
    ∷ []

abbrev note : ℕ → Event → EventBus ℕ × List ℕ → EventBus ℕ × List ℕ
note cb event (b, w) = (b, w ++ cb ∷ [])

note-KeepsValid : KeepsValid note
note-KeepsValid cb event s v = v

abbrev bus : EventBus ℕ
bus = (run note (init, []) history).0

run-IsValid_example : IsValid (run note (init, []) history).0
run-IsValid_example = run-IsValid note (init, []) history note-KeepsValid init-IsValid

bus-IsValid : IsValid bus
bus-IsValid = run-IsValid note (init, []) history note-KeepsValid init-IsValid

bus_up : bus.is_shutting_down ≡ false
unfolding run step init subscribe unsubscribe publish find insert str_cmp keep_if erase
    dispatch_pending dispatch_events call_all callbacks_for
bus_up = refl

dispatch_order : (dispatch_pending note (bus, [])).1 ≡ 7 ∷ 9 ∷ []
unfolding dispatch_pending dispatch_events call_all callbacks_for run step init subscribe
    unsubscribe publish find insert str_cmp keep_if erase
dispatch_order = refl

dispatch-plan_example :
    (dispatch_pending note (bus, [])
      ≡ run_plan note (plan bus bus.event_queue) (record bus { event_queue = [] }, []))
    × ((name : Str) → Rising 1 bus.next_id (listening name (named bus.listeners)))
dispatch-plan_example = dispatch-plan note (λ cb event s. refl) bus [] bus-IsValid bus_up

unsubscribe-subscribe_example :
    ((subscribe bus (codes "b") 5).0 ≡ some bus.next_id)
    × ((unsubscribe (subscribe bus (codes "b") 5).1 (codes "b") bus.next_id).listeners
        ≡ bus.listeners)
unsubscribe-subscribe_example = unsubscribe-subscribe bus (codes "b") 5 bus-IsValid bus_up

abbrev trigger : EventTrigger
trigger = record { bus = true; event_name = codes "a"; event_id = some 1 }

abbrev target : EventTrigger
target = record { bus = true; event_name = codes "a"; event_id = some 3 }
