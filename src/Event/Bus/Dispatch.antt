-- ===== src/Event/Bus/Dispatch.antt =====
-- `dispatchPending` against a plan that is drawn up when it starts.
use nexus_mainframe.Common.{
  ◌≡◌, refl, sym, ap, ◌∙◌, List, [], ◌∷◌, ◌++◌, false, map, if_cases, Str, if◌then◌else◌,
  append-nil, none, some, arith,
}
use nexus_mainframe.Common.OrdMap.{OrdMap, find, IsSorted, Above, find-Above, key_eq, key_eq_iff}
use nexus_mainframe.Common.Keys.{str_order}
use nexus_mainframe.Event.Bus.{
  Event, Listener, EventBus, or_empty, callbacks_for, call_all, dispatch_events, dispatch_pending,
}
use nexus_mainframe.Event.Bus.Invariant.{IsValid, Rising, All-Rising-find}

module _ {C : Type 0} where
  -- Every listener with the name of its event.
  unfoldable pub named : OrdMap Str (List (Listener C)) → List (Str × Listener C)
  named [] = []
  named ((name, ls) ∷ m) = map (λ l. (name, l)) ls ++ named m

  -- The listeners whose name is that of an event.
  unfoldable pub listening : Str → List (Str × Listener C) → List (Listener C)
  listening name [] = []
  listening name ((k, l) ∷ all) =
      let rest = listening name all in if key_eq name k then l ∷ rest else rest

  -- Every listener of every event, events first come first served.
  unfoldable pub plan : EventBus C → List Event → List (C × Event)
  plan bus [] = []
  plan bus (event ∷ events) =
      map (λ l. (l.cb, event)) (listening event.name (named bus.listeners)) ++ plan bus events

  listening-append :
      (name : Str) (a b : List (Str × Listener C))
      → listening name (a ++ b) ≡ listening name a ++ listening name b
  unfolding listening
  listening-append name [] b = refl
  listening-append name (e ∷ a) b = ground (arith, listening-append name a b)

  listening-named :
      (name k : Str) (ls : List (Listener C))
      → listening name (map (λ l. (k, l)) ls) ≡ (if key_eq name k then ls else [])
  unfolding listening
  listening-named name k [] = ground arith
  listening-named name k (l ∷ ls) = ground (arith, listening-named name k ls)

  find-one :
      (name k : Str) (ls : List (Listener C))
      → find name ((k, ls) ∷ []) ≡ (if key_eq name k then some ls else none)
  unfolding find
  find-one name k ls = refl

  listening-Above :
      (name : Str) (m : OrdMap Str (List (Listener C)))
      → Above name m
      → listening name (named m) ≡ []
  unfolding named
  listening-Above name [] a = unfold listening in refl
  listening-Above name ((k, ls) ∷ m) a = ground (
    arith,
    listening-append name (map (λ l. (k, l)) ls) (named m),
    listening-named name k ls,
    listening-Above name m a.1,
    find-Above name ((k, ls) ∷ []) (a.0, tt),
    find-one name k ls,
  )

  listening-find :
      (name : Str) (m : OrdMap Str (List (Listener C)))
      → IsSorted m
      → listening name (named m) ≡ or_empty (find name m)
  unfolding named find
  listening-find name [] s = unfold listening in refl
  listening-find name ((k, ls) ∷ m) s = ground (
    arith,
    listening-append name (map (λ l. (k, l)) ls) (named m),
    listening-named name k ls,
    listening-find name m s.1,
    key_eq_iff name k,
    find-Above k m s.0,
    append-nil ls,
  )

  -- The plan by the lookup of the bus.
  own_plan : EventBus C → List Event → List (C × Event)
  own_plan bus [] = []
  own_plan bus (event ∷ events) =
      map (λ cb. (cb, event)) (callbacks_for bus event.name) ++ own_plan bus events

  map-cb :
      (event : Event) (ls : List (Listener C))
      → map {B = C × Event} (λ cb. (cb, event)) (map (λ (l : Listener C). l.cb) ls)
        ≡ map {B = C × Event} (λ l. (l.cb, event)) ls
  map-cb event [] = refl
  map-cb event (l ∷ ls) = ap (λ (p : List (C × Event)). (l.cb, event) ∷ p) (map-cb event ls)

  own_plan-plan :
      (bus : EventBus C) (events : List Event)
      → IsSorted bus.listeners
      → own_plan bus events ≡ plan bus events
  unfolding own_plan plan callbacks_for
  own_plan-plan bus [] s = refl
  own_plan-plan bus (event ∷ events) s =
      rw
        (
          map-cb event (or_empty (find event.name bus.listeners)),
          listening-find event.name bus.listeners s,
          own_plan-plan bus events s,
        )
        refl

module _ {C W : Type 0} (call : C → Event → EventBus C × W → EventBus C × W) where
  unfoldable pub run_plan : List (C × Event) → EventBus C × W → EventBus C × W
  run_plan [] s = s
  run_plan ((cb, event) ∷ rest) s = run_plan rest (call cb event s)

  run_plan-append :
      (p q : List (C × Event)) (s : EventBus C × W)
      → run_plan (p ++ q) s ≡ run_plan q (run_plan p s)
  unfolding run_plan
  run_plan-append [] q s = refl
  run_plan-append ((cb, event) ∷ p) q s = run_plan-append p q (call cb event s)

  call_all-plan :
      (cbs : List C) (event : Event) (s : EventBus C × W)
      → call_all call cbs event s ≡ run_plan (map (λ cb. (cb, event)) cbs) s
  unfolding call_all run_plan
  call_all-plan [] event s = refl
  call_all-plan (cb ∷ cbs) event s = call_all-plan cbs event (call cb event s)

  abbrev pub KeepsListeners : Type 0
  KeepsListeners =
      (cb : C) (event : Event) (s : EventBus C × W) → (call cb event s).0.listeners ≡ s.0.listeners

  abbrev pub KeepsValid : Type 0
  KeepsValid =
      (cb : C) (event : Event) (s : EventBus C × W) → IsValid s.0 → IsValid (call cb event s).0

  module _ (keeps : KeepsListeners) where
    call_all-listeners :
        (cbs : List C) (event : Event) (s : EventBus C × W)
        → (call_all call cbs event s).0.listeners ≡ s.0.listeners
    unfolding call_all
    call_all-listeners [] event s = refl
    call_all-listeners (cb ∷ cbs) event s =
        call_all-listeners cbs event (call cb event s) ∙ keeps cb event s

    own_plan-same :
        (bus bus' : EventBus C) (events : List Event)
        → bus'.listeners ≡ bus.listeners
        → own_plan bus' events ≡ own_plan bus events
    unfolding own_plan callbacks_for
    own_plan-same bus bus' [] e = refl
    own_plan-same bus bus' (event ∷ events) e = rw (e, own_plan-same bus bus' events e)

    dispatch_events-own_plan :
        (events : List Event) (s : EventBus C × W)
        → dispatch_events call events s ≡ run_plan (own_plan s.0 events) s
    unfolding dispatch_events own_plan
    dispatch_events-own_plan [] s = unfold run_plan in refl
    dispatch_events-own_plan (event ∷ events) s =
        let cbs = callbacks_for s.0 event.name in
        let s' = call_all call cbs event s in
        dispatch_events-own_plan events s'
        ∙ ap (λ (p : List (C × Event)). run_plan p s')
            (own_plan-same s.0 s'.0 events (call_all-listeners cbs event s))
        ∙ ap (run_plan (own_plan s.0 events)) (call_all-plan cbs event s)
        ∙ sym (run_plan-append (map (λ cb. (cb, event)) cbs) (own_plan s.0 events) s)

    dispatch-own_plan :
        (bus : EventBus C) (w : W)
        → bus.is_shutting_down ≡ false
        → dispatch_pending call (bus, w)
          ≡ run_plan (own_plan bus bus.event_queue) (record bus { event_queue = [] }, w)
    unfolding dispatch_pending
    dispatch-own_plan bus w up =
        if_cases
          (λ (s : EventBus C × W).
            s ≡ run_plan (own_plan bus bus.event_queue) (record bus { event_queue = [] }, w))
          bus.is_shutting_down _ _ (λ down. cc)
          λ _.
            dispatch_events-own_plan bus.event_queue (record bus { event_queue = [] }, w)
            ∙ ap (λ (p : List (C × Event)). run_plan p (record bus { event_queue = [] }, w))
                (own_plan-same bus (record bus { event_queue = [] }) bus.event_queue refl)

    -- Where no callback subscribes or cancels, `dispatchPending` on a valid, active bus runs exactly
    -- the plan of the events that were queued when it started, from an empty queue: each event in the
    -- order of publication, and for each event every listener with its name, once. The ids of the
    -- listeners of a name rise and have been given out, so that they run in the order of subscription.
    pub dispatch-plan :
        (bus : EventBus C) (w : W)
        → IsValid bus
        → bus.is_shutting_down ≡ false
        → (dispatch_pending call (bus, w)
            ≡ run_plan (plan bus bus.event_queue) (record bus { event_queue = [] }, w))
          × ((name : Str) → Rising 1 bus.next_id (listening name (named bus.listeners)))
    dispatch-plan bus w v up = (
      dispatch-own_plan bus w up
          ∙ ap (λ (p : List (C × Event)). run_plan p (record bus { event_queue = [] }, w))
              (own_plan-plan bus bus.event_queue v.sorted),
      λ name.
          rw (listening-find name bus.listeners v.sorted)
            (All-Rising-find bus.next_id name bus.listeners v.entries),
    )

  module _ (valid : KeepsValid) where
    call_all-IsValid :
        (cbs : List C) (event : Event) (s : EventBus C × W)
        → IsValid s.0
        → IsValid (call_all call cbs event s).0
    unfolding call_all
    call_all-IsValid [] event s v = v
    call_all-IsValid (cb ∷ cbs) event s v =
        call_all-IsValid cbs event (call cb event s) (valid cb event s v)

    dispatch_events-IsValid :
        (events : List Event) (s : EventBus C × W)
        → IsValid s.0
        → IsValid (dispatch_events call events s).0
    unfolding dispatch_events
    dispatch_events-IsValid [] s v = v
    dispatch_events-IsValid (event ∷ events) s v =
        dispatch_events-IsValid events _ (call_all-IsValid (callbacks_for s.0 event.name) event s v)

    -- If every callback leaves a valid bus valid, whatever it subscribes, cancels or publishes, so
    -- does `dispatchPending`.
    pub dispatch-IsValid :
        (bus : EventBus C) (w : W) → IsValid bus → IsValid (dispatch_pending call (bus, w)).0
    unfolding dispatch_pending
    dispatch-IsValid bus w v =
        if_cases (λ (s : EventBus C × W). IsValid s.0) bus.is_shutting_down _ _ (λ down. v)
          λ up. dispatch_events-IsValid bus.event_queue _ (record {
            sorted = v.sorted;
            entries = v.entries;
            positive = v.positive;
            closed = λ e. cc;
          })
