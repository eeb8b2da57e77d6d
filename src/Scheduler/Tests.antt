-- ===== src/Scheduler/Tests.antt =====
-- The theorems on the scheduler at concrete inputs: a task bound to thread 8, one whose fiber runs,
-- and one that thread 7 may take.
use web_framework.Base.{
  ℕ, ◌≡◌, ◌⊎◌, ◌↔◌, refl, true, false, List, [], ◌∷◌, any, all, none, some, is_empty, ◌==◌,
  if◌then◌else◌,
}
use web_framework.Fiber.{State, init, hold, exec, term, ready}
use web_framework.Scheduler.{Task, Scheduler, picked, pick, is_foreign, is_running, round}
use web_framework.Scheduler.Pick.{Taken, is_passed, pick_lem}
use web_framework.Scheduler.Run.{Runs, next_idle, next, stops, run_lem, stopped}
use web_framework.Scheduler.Run
use web_framework.Scheduler.Round.{round-none_iff}
use web_framework.Scheduler.Dispatch.{is_alive}

abbrev bound : Task
bound = record { fiber = some 1; callback = none; thread = some 8 }

abbrev busy : Task
busy = record { fiber = some 2; callback = none; thread = none }

abbrev free : Task
free = record { fiber = some 3; callback = none; thread = none }

abbrev last : Task
last = record { fiber = none; callback = some 5; thread = none }

abbrev queue : List Task
queue = bound ∷ busy ∷ free ∷ last ∷ []

abbrev states : ℕ → State
states f = if f == 2 then exec else init

abbrev scheduler : Scheduler
scheduler = record {
  fibers = queue;
  threads = 2;
  thread_ids = 7 ∷ 8 ∷ [];
  thread_count = 2;
  active = 1;
  idle = 0;
  stopping = false;
  auto_stop = false;
  root_thread = none;
  root_fiber = none;
}

pick_lem_example :
    Taken 7 states queue
    ⊎ ((all (is_passed 7 states) queue ≡ true)
        × (pick 7 states queue ≡ picked (any (is_foreign 7) queue) none queue))
pick_lem_example = pick_lem 7 states queue refl

taken_free : Taken 7 states queue
unfolding is_foreign is_running pick
taken_free = record {
  before = bound ∷ busy ∷ [];
  task = free;
  after = last ∷ [];
  splits = refl;
  passed_over = refl;
  allowed = refl;
  result = refl;
}

abbrev back : ℕ → State
back f = ready

round-none_iff_example :
    (round 7 states back 9 hold scheduler ≡ none) ↔ (is_alive states free ≡ false)
unfolding taken_free
round-none_iff_example = round-none_iff 7 states back 9 hold scheduler taken_free

-- A scheduler that runs on its caller's thread alone, with one fiber to run.
abbrev alone : Scheduler
alone = record {
  fibers = free ∷ [];
  threads = 0;
  thread_ids = 7 ∷ [];
  thread_count = 0;
  active = 0;
  idle = 0;
  stopping = false;
  auto_stop = false;
  root_thread = some 7;
  root_fiber = some 0;
}

abbrev drained : Scheduler
drained = record alone { fibers = []; auto_stop = true; stopping = true }

abbrev fresh : ℕ → State
fresh f = init

abbrev ended : ℕ → State
ended f = term

-- The fiber runs to its end, then idle_fiber, then the loop breaks.
alone_runs : Runs 7 drained init (stopped alone)
unfolding round next_idle
alone_runs = next fresh ended 9 0 refl (next ended ended 9 0 refl (Run.last ended ended 9 0 refl))

run_lem_example :
    (drained.auto_stop ≡ true)
    × (drained.stopping ≡ true)
    × (is_empty drained.fibers ≡ true)
    × (drained.active ≡ 0)
run_lem_example = run_lem {tid = 7} {s = alone} (stops alone_runs)
