-- ===== src/Event/Bus.antt =====
-- EventBus.cpp and EventBus.hpp. A callback is a handle of a type `C`, and `call` runs one: it is code
-- outside the bus, which may use the bus again and change the rest of the program, `W`; what it did
-- before it threw counts, since `dispatchPending` catches everything. Log lines are left out.
-- Each method holds the mutex, so that methods of several threads come one after another.
pub mod Invariant
pub mod Laws
pub mod Dispatch
use nexus_mainframe.Common.{
  ℕ, zero, suc, ◌+◌, List, [], ◌∷◌, ◌++◌, Str, Bool, true, false, not, ◌==◌, Option, none, some,
  if◌then◌else◌, keep_if, map,
}
use nexus_mainframe.Common.OrdMap.{OrdMap, find, insert, erase}
use nexus_mainframe.Common.Keys.{str_order}

-- What the program puts into `std::any`: nothing, a string, or a topic with its payload.
pub data Payload : Type 0 where
  nothing : Payload
  text : Str → Payload
  pair : Str → Str → Payload

pub record Event : Type 0 where
  pub name : Str
  pub payload : Payload

pub record Listener (C : Type 0) : Type 0 where
  pub id : ℕ
  pub cb : C

pub record EventBus (C : Type 0) : Type 0 where
  pub listeners : OrdMap Str (List (Listener C))
  pub event_queue : List Event
  pub next_id : ℕ
  pub is_shutting_down : Bool

abbrev or_empty {ℓ} : {A : Type ℓ} → Option (List A) → List A
or_empty none = []
or_empty (some l) = l

module _ {C : Type 0} where
  unfoldable pub init : EventBus C
  init = record { listeners = []; event_queue = []; next_id = 1; is_shutting_down = false }

  -- `none` is the answer -1. Ids are unbounded: `nextId` is an `int`, and 2 ^ 31 subscriptions are
  -- not reached.
  unfoldable pub subscribe : EventBus C → Str → C → Option ℕ × EventBus C
  subscribe bus name cb = if bus.is_shutting_down then (none, bus) else (
    some bus.next_id,
    record bus {
      next_id = suc bus.next_id;
      listeners =
          insert name
            (or_empty (find name bus.listeners) ++ record { id = bus.next_id; cb = cb } ∷ [])
            bus.listeners;
    },
  )

  without_id : ℕ → List (Listener C) → List (Listener C)
  without_id id = keep_if λ l. not (l.id == id)

  -- An empty vector leaves the map.
  store_or_erase :
      Str → List (Listener C) → OrdMap Str (List (Listener C)) → OrdMap Str (List (Listener C))
  store_or_erase name [] m = erase name m
  store_or_erase name (l ∷ ls) m = insert name (l ∷ ls) m

  unfoldable pub unsubscribe : EventBus C → Str → ℕ → EventBus C
  unfolding without_id store_or_erase
  unsubscribe bus name id = elim (find name bus.listeners) [
    | none ↦ bus
    | some ls ↦ record bus { listeners = store_or_erase name (without_id id ls) bus.listeners }
  ]

  unfoldable pub publish : EventBus C → Event → EventBus C
  publish bus event =
      if bus.is_shutting_down
      then bus
      else record bus { event_queue = bus.event_queue ++ event ∷ [] }

  unfoldable pub shutdown : EventBus C → EventBus C
  shutdown bus = record bus { is_shutting_down = true; event_queue = []; listeners = [] }

  unfoldable pub is_active : EventBus C → Bool
  is_active bus = not bus.is_shutting_down

  unfoldable pub callbacks_for : EventBus C → Str → List C
  callbacks_for bus name = map (λ l. l.cb) (or_empty (find name bus.listeners))

module _ {C W : Type 0} (call : C → Event → EventBus C × W → EventBus C × W) where
  unfoldable pub call_all : List C → Event → EventBus C × W → EventBus C × W
  call_all [] event s = s
  call_all (cb ∷ cbs) event s = call_all cbs event (call cb event s)

  -- The callbacks are copied when their event's turn comes.
  unfoldable pub dispatch_events : List Event → EventBus C × W → EventBus C × W
  dispatch_events [] s = s
  dispatch_events (event ∷ events) s =
      dispatch_events events (call_all (callbacks_for s.0 event.name) event s)

  unfoldable pub dispatch_pending : EventBus C × W → EventBus C × W
  dispatch_pending (bus, w) =
      if bus.is_shutting_down
      then (bus, w)
      else dispatch_events bus.event_queue (record bus { event_queue = [] }, w)
