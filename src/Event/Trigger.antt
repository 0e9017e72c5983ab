-- ===== src/Event/Trigger.antt =====
-- EventTrigger.cpp and EventTask.cpp: a subscription that lives as long as an object, and a task that
-- publishes an event when it is done.
use nexus_mainframe.Common.{ℕ, ◌≡◌, [], Str, Bool, true, false, Option, none, some, if◌then◌else◌}
use nexus_mainframe.Event.Bus.{nothing, EventBus, subscribe, unsubscribe, publish}
use nexus_mainframe.Event.Bus.Invariant.{IsValid}
use nexus_mainframe.Event.Bus.Laws.{unsubscribe-subscribe}

-- `bus` says that `_bus` is not null, and `event_id` is `none` where `_eventId` is -1.
pub record EventTrigger : Type 0 where
  pub bus : Bool
  pub event_name : Str
  pub event_id : Option ℕ

module _ {C : Type 0} where
  -- The constructor; `cb` is the callback that executes the task.
  unfoldable pub create : EventBus C → Str → C → EventTrigger × EventBus C
  create b name cb =
      let (id, b') = subscribe b name cb in
      (record { bus = true; event_name = name; event_id = id }, b')

  unsubscribe_id : EventBus C → Str → Option ℕ → EventBus C
  unsubscribe_id b name none = b
  unsubscribe_id b name (some id) = unsubscribe b name id

  -- The destructor.
  unfoldable pub destroy : EventBus C → EventTrigger → EventBus C
  unfolding unsubscribe_id
  destroy b t = if t.bus then unsubscribe_id b t.event_name t.event_id else b

  -- The move assignment of `other` to another object `t`: the bus, `t` and `other` behind it. The
  -- name of what was moved from is unspecified, and taken to be empty.
  unfoldable pub move_assign :
      EventBus C → EventTrigger → EventTrigger → EventBus C × EventTrigger × EventTrigger
  move_assign b t other =
      (destroy b t, other, record { bus = false; event_name = []; event_id = none })

-- The move constructor: the new object, and what is left of `other`.
unfoldable pub move_construct : EventTrigger → EventTrigger × EventTrigger
move_construct other = (other, record { bus = false; event_name = []; event_id = none })

module _ {C : Type 0} where
  -- A trigger that was created on a valid bus that is not shutting down, and destroyed, leaves the
  -- listeners as they were.
  pub destroy-create :
      (b : EventBus C) (name : Str) (cb : C)
      → IsValid b
      → b.is_shutting_down ≡ false
      → (destroy (create b name cb).1 (create b name cb).0).listeners ≡ b.listeners
  unfolding destroy create
  destroy-create b name cb v up =
      let (id, same) = unsubscribe-subscribe b name cb v up in rw (id, destroy) same

  module _ {W : Type 0} (run : EventBus C × W → Bool × (EventBus C × W)) where
    -- `EventTask::execute` over a task that `run` executes; it answers `true` where it threw.
    unfoldable pub execute_event_task : Str → EventBus C × W → EventBus C × W
    execute_event_task completion s =
        let (threw, s') = run s in
        if threw then s' else (publish s'.0 (record { name = completion; payload = nothing }), s'.1)
