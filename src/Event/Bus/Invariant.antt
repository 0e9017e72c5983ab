-- ===== src/Event/Bus/Invariant.antt =====
-- What every method of the bus keeps, and how its methods undo one another.
use nexus_mainframe.Common.{
  ℕ, suc, ◌≤◌, ◌<◌, ◌≡◌, refl, ap, ◌≢◌, inl, inr, List, [], ◌∷◌, ◌++◌, Str, true, false, Option,
  some, keep_if, All, Bool-cases, if_cases, Option-cases, arith,
}
use nexus_mainframe.Common.OrdMap.{
  OrdMap, find, All-insert, All-erase, find-All, IsSorted, IsSorted-insert, IsSorted-erase,
}
use nexus_mainframe.Common.Keys.{str_order}
use nexus_mainframe.Event.Bus.{
  Event, Listener, EventBus, or_empty, init, subscribe, without_id, store_or_erase, unsubscribe,
  publish, shutdown,
}

module _ {C : Type 0} where
  -- The ids of one event's listeners rise, and lie below `n`.
  abbrev pub Rising : ℕ → ℕ → List (Listener C) → Type 0
  Rising lo n [] = Unit {0}
  Rising lo n (l ∷ ls) = (lo ≤ l.id) × (l.id < n) × Rising (suc l.id) n ls

  abbrev pub IsEntry : ℕ → List (Listener C) → Type 0
  IsEntry n ls = (ls ≢ []) × Rising 1 n ls

  -- The map is sorted, no vector in it is empty, each vector's ids rise and have been given out, and
  -- a bus that shuts down holds no listener and no event.
  pub record IsValid (bus : EventBus C) : Type 0 where
    pub sorted : IsSorted bus.listeners
    pub entries : All (λ e. IsEntry bus.next_id e.1) bus.listeners
    pub positive : 1 ≤ bus.next_id
    pub closed : bus.is_shutting_down ≡ true → (bus.listeners ≡ []) × (bus.event_queue ≡ [])

  Rising-mono : (lo n n' : ℕ) (ls : List (Listener C)) → n ≤ n' → Rising lo n ls → Rising lo n' ls
  Rising-mono lo n n' [] h r = tt
  Rising-mono lo n n' (l ∷ ls) h r = (r.0, omega arith, Rising-mono (suc l.id) n n' ls h r.2)

  Rising-lower :
      (lo lo' n : ℕ) (ls : List (Listener C)) → lo' ≤ lo → Rising lo n ls → Rising lo' n ls
  Rising-lower lo lo' n [] h r = tt
  Rising-lower lo lo' n (l ∷ ls) h r = (omega arith, r.1, r.2)

  Rising-push :
      (lo n : ℕ) (cb : C) (ls : List (Listener C))
      → lo ≤ n
      → Rising lo n ls
      → Rising lo (suc n) (ls ++ record { id = n; cb = cb } ∷ [])
  Rising-push lo n cb [] h r = (h, omega arith, tt)
  Rising-push lo n cb (l ∷ ls) h r = (r.0, omega arith, Rising-push (suc l.id) n cb ls r.1 r.2)

  Rising-without :
      (id lo n : ℕ) (ls : List (Listener C)) → Rising lo n ls → Rising lo n (without_id id ls)
  unfolding without_id keep_if
  Rising-without id lo n [] r = tt
  Rising-without id lo n (l ∷ ls) r = ground (
    arith,
    Rising-without id (suc l.id) n ls r.2,
    Rising-lower (suc l.id) lo n (without_id id ls),
  )

  All-entries_mono :
      (n n' : ℕ) (m : OrdMap Str (List (Listener C)))
      → n ≤ n'
      → All (λ e. IsEntry n e.1) m
      → All (λ e. IsEntry n' e.1) m
  All-entries_mono n n' [] h a = tt
  All-entries_mono n n' (e ∷ m) h a =
      ((a.0.0, Rising-mono 1 n n' e.1 h a.0.1), All-entries_mono n n' m h a.1)

  pub All-Rising-find :
      (n : ℕ) (name : Str) (m : OrdMap Str (List (Listener C)))
      → All (λ e. IsEntry n e.1) m
      → Rising 1 n (or_empty (find name m))
  All-Rising-find n name m a = elim (Option-cases (find name m)) [
    | inl e ↦ rw e tt
    | inr (ls, e) ↦ rw e (find-All (IsEntry n) name ls m a e).1
  ]

  append-ne-nil : (ls : List (Listener C)) (l : Listener C) → ls ++ l ∷ [] ≢ []
  append-ne-nil [] l e = cc
  append-ne-nil (x ∷ ls) l e = cc

  pub init-IsValid : IsValid (init {C = C})
  unfolding init
  init-IsValid = record {
    sorted = tt;
    entries = tt;
    positive = omega arith;
    closed = λ e. (refl, refl);
  }

  pub publish-IsValid :
      (bus : EventBus C) (event : Event) → IsValid bus → IsValid (publish bus event)
  unfolding publish
  publish-IsValid bus event v =
      if_cases IsValid bus.is_shutting_down _ _ (λ down. v)
        λ up. record {
          sorted = v.sorted;
          entries = v.entries;
          positive = v.positive;
          closed = λ e. cc;
        }

  pub shutdown-IsValid : (bus : EventBus C) → IsValid bus → IsValid (shutdown bus)
  unfolding shutdown
  shutdown-IsValid bus v = record {
    sorted = tt;
    entries = tt;
    positive = v.positive;
    closed = λ e. (refl, refl);
  }

  pub subscribe-IsValid :
      (bus : EventBus C) (name : Str) (cb : C) → IsValid bus → IsValid (subscribe bus name cb).1
  unfolding subscribe
  subscribe-IsValid bus name cb v =
      if_cases (λ (r : Option ℕ × EventBus C). IsValid r.1) bus.is_shutting_down _ _ (λ down. v)
        λ up. record {
          sorted = IsSorted-insert name _ bus.listeners v.sorted;
          entries =
              All-insert (λ e. IsEntry (suc bus.next_id) e.1) name _ bus.listeners
                (
                  append-ne-nil (or_empty (find name bus.listeners)) _,
                  Rising-push 1 bus.next_id cb (or_empty (find name bus.listeners)) v.positive
                      (All-Rising-find bus.next_id name bus.listeners v.entries),
                )
                (All-entries_mono bus.next_id (suc bus.next_id) bus.listeners (omega arith)
                  v.entries);
          positive = omega arith;
          closed = λ e. cc;
        }

  store-IsValid :
      (bus : EventBus C) (name : Str) (ls : List (Listener C))
      → IsValid bus
      → bus.is_shutting_down ≡ false
      → Rising 1 bus.next_id ls
      → IsValid (record bus { listeners = store_or_erase name ls bus.listeners })
  unfolding store_or_erase
  store-IsValid bus name [] v up r = record {
    sorted = IsSorted-erase name bus.listeners v.sorted;
    entries = All-erase (λ e. IsEntry bus.next_id e.1) name bus.listeners v.entries;
    positive = v.positive;
    closed = λ e. cc;
  }
  store-IsValid bus name (l ∷ ls) v up r = record {
    sorted = IsSorted-insert name (l ∷ ls) bus.listeners v.sorted;
    entries =
        All-insert (λ e. IsEntry bus.next_id e.1) name (l ∷ ls) bus.listeners ((λ e. cc), r)
          v.entries;
    positive = v.positive;
    closed = λ e. cc;
  }

  found_active :
      (bus : EventBus C) (name : Str) (ls : List (Listener C))
      → IsValid bus
      → find name bus.listeners ≡ some ls
      → bus.is_shutting_down ≡ false
  unfolding find
  found_active bus name ls v e = elim (Bool-cases bus.is_shutting_down) [
    | inl down ↦ cc (ap (find name) (v.closed down).0)
    | inr up ↦ up
  ]

  pub unsubscribe-IsValid :
      (bus : EventBus C) (name : Str) (id : ℕ) → IsValid bus → IsValid (unsubscribe bus name id)
  unfolding unsubscribe
  unsubscribe-IsValid bus name id v = elim (Option-cases (find name bus.listeners)) [
    | inl e ↦ rw (e, unsubscribe) v
    | inr (ls, e) ↦
        rw (e, unsubscribe)
          (store-IsValid bus name (without_id id ls) v (found_active bus name ls v e) (
            Rising-without id 1 bus.next_id ls
              (find-All (IsEntry bus.next_id) name ls bus.listeners v.entries e).1))
  ]
