-- ===== src/App/Scheduler.antt =====
-- Scheduler.cpp: the tasks, and the ones that are due. The cron library is two arguments: `make`
-- parses an expression, and `next` is the time behind another at which an expression is due.
use nexus_mainframe.Common.{
  ℕ, ◌<◌, ◌≡◌, refl, subst, List, [], ◌∷◌, ◌++◌, Str, Bool, true, false, leb, Option, none, some,
  if◌then◌else◌, All, arith, if_cases,
}
use nexus_mainframe.App.{Ended, returned, raised, raised_other}

pub record ScheduledTask (T C : Type 0) : Type 0 where
  pub task : T
  pub cron_expr : C
  pub next_execution : ℕ

module _ {T C W : Type 0} (make : Str → Option C) (next : C → ℕ → ℕ)
    (execute : T → W → Ended W) where
  unfoldable pub schedule_task :
      ℕ → List (ScheduledTask T C) → T → Str → Bool × List (ScheduledTask T C)
  schedule_task now tasks task time = elim (make time) [
    | none ↦ (false, tasks)
    | some c ↦
        (true, tasks ++ record { task = task; cron_expr = c; next_execution = next c now } ∷ [])
  ]

  unfoldable pub reschedule : ℕ → ScheduledTask T C → ScheduledTask T C
  reschedule now t = record t { next_execution = next t.cron_expr now }

  -- What `tick` does with a task that has run; `rest` is the loop behind it. What is thrown leaves
  -- `tick` before the task is scheduled again.
  unfoldable pub resume :
      ℕ
      → ScheduledTask T C
      → List (ScheduledTask T C)
      → (W → Ended W × List (ScheduledTask T C))
      → Ended W
      → Ended W × List (ScheduledTask T C)
  resume now t ts rest (returned w) = let (e, ts') = rest w in (e, reschedule now t ∷ ts')
  resume now t ts rest (raised w) = (raised w, t ∷ ts)
  resume now t ts rest (raised_other w) = (raised_other w, t ∷ ts)

  unfoldable pub tick : ℕ → List (ScheduledTask T C) → W → Ended W × List (ScheduledTask T C)
  tick now [] w = (returned w, [])
  tick now (t ∷ ts) w =
      if leb t.next_execution now
      then resume now t ts (tick now ts) (execute t.task w)
      else (let (e, ts') = tick now ts w in (e, t ∷ ts'))

  -- No task is due.
  abbrev pub Idle : ℕ → List (ScheduledTask T C) → Type 0
  Idle now ts = All (λ t. now < t.next_execution) ts

  -- Where `tick` returned, no task is due.
  Settles : ℕ → Ended W × List (ScheduledTask T C) → Type 0
  Settles now (returned w, ts) = Idle now ts
  Settles now (raised w, ts) = Unit {0}
  Settles now (raised_other w, ts) = Unit {0}

  cons-Settles :
      (now : ℕ) (t : ScheduledTask T C) (r : Ended W × List (ScheduledTask T C))
      → now < t.next_execution
      → Settles now r
      → Settles now (r.0, t ∷ r.1)
  unfolding Settles
  cons-Settles now t (returned w, ts) h a = (h, a)
  cons-Settles now t (raised w, ts) h a = tt
  cons-Settles now t (raised_other w, ts) h a = tt

  module _ (later : (c : C) (now : ℕ) → now < next c now) where
    resume-Settles :
        (now : ℕ) (t : ScheduledTask T C) (ts : List (ScheduledTask T C))
        (rest : W → Ended W × List (ScheduledTask T C)) (o : Ended W)
        → ((w : W) → Settles now (rest w))
        → Settles now (resume now t ts rest o)
    unfolding resume reschedule Settles
    resume-Settles now t ts rest (returned w) a =
        cons-Settles now (reschedule now t) (rest w) (later t.cron_expr now) (a w)
    resume-Settles now t ts rest (raised w) a = tt
    resume-Settles now t ts rest (raised_other w) a = tt

    tick-Settles : (now : ℕ) (ts : List (ScheduledTask T C)) (w : W) → Settles now (tick now ts w)
    unfolding tick Settles
    tick-Settles now [] w = tt
    tick-Settles now (t ∷ ts) w =
        if_cases (Settles now) (leb t.next_execution now) _ _
          (λ _. resume-Settles now t ts (tick now ts) (execute t.task w) (tick-Settles now ts))
          λ f. cons-Settles now t (tick now ts w) (ground (arith, f)) (tick-Settles now ts w)

    tick-Idle :
        (now : ℕ) (ts : List (ScheduledTask T C)) (w : W)
        → Idle now ts
        → tick now ts w ≡ (returned w, ts)
    unfolding tick
    tick-Idle now [] w a = refl
    tick-Idle now (t ∷ ts) w a = ground (arith, a.0, tick-Idle now ts w a.1)

    -- Where the cron library answers a time behind the one it is asked for, a `tick` that no task's
    -- exception leaves is followed, at the same time, only by ticks that run nothing and change
    -- nothing: no task runs twice for one time.
    pub tick_again :
        (now : ℕ) (ts ts' : List (ScheduledTask T C)) (w w' v : W)
        → tick now ts w ≡ (returned w', ts')
        → tick now ts' v ≡ (returned v, ts')
    unfolding Settles
    tick_again now ts ts' w w' v e =
        tick-Idle now ts' v (subst (Settles now) e (tick-Settles now ts w))
