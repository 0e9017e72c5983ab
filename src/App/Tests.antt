-- ===== src/App/Tests.antt =====
-- Services that keep a log, and a clock with a task.
use nexus_mainframe.Common.{ℕ, suc, ◌+◌, ◌≡◌, refl, List, [], ◌∷◌, Str, codes, false, Option, some}
use nexus_mainframe.App.{
  Ended, returned, raised, Service, Program, caught, caught_all, start_all, stop_all, run_services,
}
use nexus_mainframe.App.Order.{
  IsTame, stopped, stop_all-stopped, run_services-start_raised, has_thrown,
}
use nexus_mainframe.App.Scheduler.{ScheduledTask, tick, resume, reschedule}

abbrev Log : Type 0
Log = List Str

abbrev quiet : Str → Service Log
quiet n = record {
  name = n;
  start = λ w. returned (n ∷ w);
  update = λ w. returned w;
  stop = λ w. returned (n ∷ w);
}

-- Its start and its stop throw.
abbrev broken : Service Log
broken = record (quiet (codes "b")) { start = λ w. raised w; stop = λ w. raised (codes "b" ∷ w) }

quiet-IsTame : (n : Str) → IsTame (quiet n)
unfolding caught caught_all
quiet-IsTame n w = refl

broken-IsTame : IsTame broken
unfolding caught caught_all
broken-IsTame w = refl

stop_all-stopped_example :
    stop_all (λ w. codes "bus" ∷ w) (quiet (codes "a") ∷ broken ∷ quiet (codes "c") ∷ []) []
    ≡ returned (codes "a" ∷ codes "b" ∷ codes "c" ∷ codes "bus" ∷ [])
unfolding stopped caught_all
stop_all-stopped_example =
    stop_all-stopped (λ w. codes "bus" ∷ w) (quiet (codes "a") ∷ broken ∷ quiet (codes "c") ∷ []) []
      (quiet-IsTame (codes "a"), (broken-IsTame, (quiet-IsTame (codes "c"), tt)))

abbrev program : Program Log
program = record {
  init_paths = λ w. returned w;
  builtin = record {
    load_config = λ w. returned w;
    log = quiet (codes "log");
    modules = quiet (codes "modules");
    mqtt = quiet (codes "mqtt");
    devices = quiet (codes "devices");
    rooms = quiet (codes "rooms");
    http = quiet (codes "http");
    mcp = quiet (codes "mcp");
    ws = quiet (codes "ws");
  };
  set_running = λ b w. w;
  is_running = λ w. false;
  dispatch_pending = λ w. returned w;
  tick = λ w. returned w;
  shut_bus = λ w. w;
}

starts_a : start_all (quiet (codes "a") ∷ []) [] ≡ returned (codes "a" ∷ [])
unfolding start_all
starts_a = refl

run_services-start_raised_example :
    run_services program 9 (quiet (codes "a") ∷ broken ∷ quiet (codes "c") ∷ []) []
    ≡ some (broken.start (codes "a" ∷ []))
unfolding has_thrown
run_services-start_raised_example =
    run_services-start_raised program 9 (quiet (codes "a") ∷ []) (quiet (codes "c") ∷ []) broken []
      (codes "a" ∷ []) starts_a refl

-- Every five seconds.
abbrev parse : Str → Option ℕ
parse time = some 5

abbrev next : ℕ → ℕ → ℕ
next c now = suc (now + c)

abbrev execute : Str → Log → Ended Log
execute task w = returned (task ∷ w)

abbrev due : List (ScheduledTask Str ℕ)
due = record { task = codes "scan"; cron_expr = 5; next_execution = 10 } ∷ []

abbrev done : List (ScheduledTask Str ℕ)
done = record { task = codes "scan"; cron_expr = 5; next_execution = 16 } ∷ []

runs_scan : tick parse next execute 10 due [] ≡ (returned (codes "scan" ∷ []), done)
unfolding tick resume reschedule
runs_scan = refl
