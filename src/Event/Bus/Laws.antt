-- ===== src/Event/Bus/Laws.antt =====
-- Histories of the bus: its invariant, what a subscription leaves behind, and the end by `shutdown`.
use nexus_mainframe.Common.{
  ℕ, suc, ◌≡◌, refl, ap, ap₂, ◌∙◌, ◌≢◌, inl, inr, List, [], ◌∷◌, ◌++◌, append-nil, Str, false, not,
  ◌==◌, Option, none, some, if◌then◌else◌, keep_if, keep_if-append, All, Option-cases, arith,
}
use nexus_mainframe.Common.OrdMap.{
  OrdMap, find, insert, find-All, IsSorted, IsSorted-insert, IsSorted-erase, IsSorted-ext,
  find-insert, find-erase, key_eq, key_eq_iff,
}
use nexus_mainframe.Common.Keys.{str_order}
use nexus_mainframe.Event.Bus.{
  Event, Listener, EventBus, or_empty, subscribe, without_id, store_or_erase, unsubscribe, publish,
  shutdown, dispatch_pending,
}
use nexus_mainframe.Event.Bus.Dispatch.{KeepsValid, dispatch-IsValid}
use nexus_mainframe.Event.Bus.Invariant.{
  IsEntry, Rising, IsValid, All-Rising-find, publish-IsValid, shutdown-IsValid, subscribe-IsValid,
  unsubscribe-IsValid,
}

pub data Call (C : Type 0) : Type 0 where
  subscribes : Str → C → Call C
  unsubscribes : Str → ℕ → Call C
  publishes : Event → Call C
  dispatches : Call C
  shuts_down : Call C

module _ {C W : Type 0} (call : C → Event → EventBus C × W → EventBus C × W) where
  unfoldable pub step : EventBus C × W → Call C → EventBus C × W
  step (bus, w) (subscribes name cb) = ((subscribe bus name cb).1, w)
  step (bus, w) (unsubscribes name id) = (unsubscribe bus name id, w)
  step (bus, w) (publishes event) = (publish bus event, w)
  step s dispatches = dispatch_pending call s
  step (bus, w) shuts_down = (shutdown bus, w)

  unfoldable pub run : EventBus C × W → List (Call C) → EventBus C × W
  run s [] = s
  run s (c ∷ cs) = run (step s c) cs

  step-IsValid :
      (s : EventBus C × W) (c : Call C) → KeepsValid call → IsValid s.0 → IsValid (step s c).0
  unfolding step
  step-IsValid (bus, w) (subscribes name cb) k v = subscribe-IsValid bus name cb v
  step-IsValid (bus, w) (unsubscribes name id) k v = unsubscribe-IsValid bus name id v
  step-IsValid (bus, w) (publishes event) k v = publish-IsValid bus event v
  step-IsValid (bus, w) dispatches k v = dispatch-IsValid call k bus w v
  step-IsValid (bus, w) shuts_down k v = shutdown-IsValid bus v

  -- From a valid bus, any calls of subscribe, unsubscribe, publish, dispatchPending and shutdown, in
  -- any order, lead to a valid bus, where every callback that dispatchPending runs leaves a valid bus
  -- valid.
  pub run-IsValid :
      (s : EventBus C × W) (cs : List (Call C))
      → KeepsValid call
      → IsValid s.0
      → IsValid (run s cs).0
  unfolding run
  run-IsValid s [] k v = v
  run-IsValid s (c ∷ cs) k v = run-IsValid (step s c) cs k (step-IsValid s c k v)

module _ {C : Type 0} where
  -- A vector as the map holds it.
  abbrev stored : List (Listener C) → Option (List (Listener C))
  stored [] = none
  stored (l ∷ ls) = some (l ∷ ls)

  find-store :
      (k name : Str) (ls : List (Listener C)) (m : OrdMap Str (List (Listener C)))
      → find k (store_or_erase name ls m) ≡ (if key_eq k name then stored ls else find k m)
  unfolding store_or_erase
  find-store k name [] m = find-erase name k m
  find-store k name (l ∷ ls) m = find-insert name k (l ∷ ls) m

  IsSorted-store :
      (name : Str) (ls : List (Listener C)) (m : OrdMap Str (List (Listener C)))
      → IsSorted m
      → IsSorted (store_or_erase name ls m)
  unfolding store_or_erase
  IsSorted-store name [] m s = IsSorted-erase name m s
  IsSorted-store name (l ∷ ls) m s = IsSorted-insert name (l ∷ ls) m s

  stored-find :
      (name : Str) (n : ℕ) (m : OrdMap Str (List (Listener C)))
      → All (λ e. IsEntry n e.1) m
      → stored (or_empty (find name m)) ≡ find name m
  stored-find name n m a = elim (Option-cases (find name m)) [
    | inl e ↦ rw e
    | inr (ls, e) ↦ rw e (full ls (find-All (IsEntry n) name ls m a e).0)
  ]
    where
      full : (ls : List (Listener C)) → ls ≢ [] → stored ls ≡ some ls
      full [] h = absurd (h refl)
      full (l ∷ ls) h = refl

  without-fresh : (lo n : ℕ) (ls : List (Listener C)) → Rising lo n ls → without_id n ls ≡ ls
  unfolding without_id keep_if
  without-fresh lo n [] r = refl
  without-fresh lo n (l ∷ ls) r = ground (arith, without-fresh (suc l.id) n ls r.2)

  without-push :
      (n : ℕ) (cb : C) (ls : List (Listener C))
      → Rising 1 n ls
      → without_id n (ls ++ record { id = n; cb = cb } ∷ []) ≡ ls
  unfolding without_id keep_if
  without-push n cb ls r =
      keep_if-append (λ l. not (l.id == n)) ls (record { id = n; cb = cb } ∷ [])
      ∙ ap₂ ◌++◌ (without-fresh 1 n ls r) (ground arith)
      ∙ append-nil ls

  restored :
      (name : Str) (cb : C) (bus : EventBus C)
      → IsValid bus
      → store_or_erase name
          (without_id bus.next_id
            (or_empty (find name bus.listeners) ++ record { id = bus.next_id; cb = cb } ∷ []))
          (insert name
            (or_empty (find name bus.listeners) ++ record { id = bus.next_id; cb = cb } ∷ [])
            bus.listeners)
        ≡ bus.listeners
  restored name cb bus v =
      let ls : List (Listener C) = or_empty (find name bus.listeners) in
      let new : List (Listener C) = ls ++ record { id = bus.next_id; cb = cb } ∷ [] in
      rw (without-push bus.next_id cb ls (All-Rising-find bus.next_id name bus.listeners v.entries))
        (IsSorted-ext _ bus.listeners
          (IsSorted-store name ls _ (IsSorted-insert name new bus.listeners v.sorted)) v.sorted
          λ k.
            find-store k name ls (insert name new bus.listeners)
            ∙ ground (
              arith,
              find-insert name k new bus.listeners,
              key_eq_iff k name,
              stored-find name bus.next_id bus.listeners v.entries,
            ))

  unsubscribe-found :
      (bus : EventBus C) (name : Str) (id : ℕ) (ls : List (Listener C))
      → find name bus.listeners ≡ some ls
      → (unsubscribe bus name id).listeners ≡ store_or_erase name (without_id id ls) bus.listeners
  unfolding unsubscribe
  unsubscribe-found bus name id ls e = rw (e, unsubscribe)

  subscribe-found :
      (bus : EventBus C) (name : Str) (cb : C)
      → bus.is_shutting_down ≡ false
      → find name (subscribe bus name cb).1.listeners
        ≡ some (or_empty (find name bus.listeners) ++ record { id = bus.next_id; cb = cb } ∷ [])
  unfolding subscribe
  subscribe-found bus name cb up = ground (
    arith,
    find-insert name name
        (or_empty (find name bus.listeners) ++ record { id = bus.next_id; cb = cb } ∷ [])
        bus.listeners,
    key_eq_iff name name,
  )

  -- On a valid bus that is not shutting down, subscribing returns the next id, and cancelling by
  -- that id leaves the listeners as they were.
  pub unsubscribe-subscribe :
      (bus : EventBus C) (name : Str) (cb : C)
      → IsValid bus
      → bus.is_shutting_down ≡ false
      → ((subscribe bus name cb).0 ≡ some bus.next_id)
        × ((unsubscribe (subscribe bus name cb).1 name bus.next_id).listeners ≡ bus.listeners)
  unfolding subscribe
  unsubscribe-subscribe bus name cb v up = (
    ground arith,
    unsubscribe-found (subscribe bus name cb).1 name bus.next_id _ (subscribe-found bus name cb up)
        ∙ rw up (restored name cb bus v),
  )

module _ {C W : Type 0} (call : C → Event → EventBus C × W → EventBus C × W) where
  step-shutdown :
      (bus : EventBus C) (w : W) (c : Call C) → step call (shutdown bus, w) c ≡ (shutdown bus, w)
  unfolding step shutdown subscribe unsubscribe publish find dispatch_pending
  step-shutdown bus w (subscribes name cb) = refl
  step-shutdown bus w (unsubscribes name id) = refl
  step-shutdown bus w (publishes event) = refl
  step-shutdown bus w dispatches = refl
  step-shutdown bus w shuts_down = refl

  -- After `shutdown` no call changes the bus, and none runs a callback.
  pub run-shutdown :
      (bus : EventBus C) (w : W) (cs : List (Call C))
      → run call (shutdown bus, w) cs ≡ (shutdown bus, w)
  unfolding run
  run-shutdown bus w [] = refl
  run-shutdown bus w (c ∷ cs) =
      ap (λ (s : EventBus C × W). run call s cs) (step-shutdown bus w c) ∙ run-shutdown bus w cs
