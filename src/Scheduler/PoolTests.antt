-- ===== src/Scheduler/PoolTests.antt =====
-- The theorems on several threads at concrete inputs: thread 0 with fiber 3, thread 1 between two
-- rounds, and callback 5 in the queue.
use mathlib.Core.Quot
use web_framework.Scheduler.Threads.Done.{about_to_queue, stopping-jobs}
use web_framework.Base.{
  ℕ, ◌+◌, ◌≡◌, ◌≤◌, refl, true, [], ◌∷◌, some, none, is_empty, all, not, ◌&&◌, length, get_elem?,
  total, arith, inr,
}
use web_framework.Fiber.{State, init, hold, ready}
use web_framework.Scheduler.{Task, Scheduler, is_stopping, fiber_task, continues, take_task, round}
use web_framework.Scheduler.Threads.{
  between, in_task, before_schedule, Pool, Step, takes, comes_back, Steps, none_yet, later,
}
use web_framework.Scheduler.Threads.Count.{weight, is_in_task, active_bounds, stopping_iff_quiet}
use web_framework.Scheduler.Threads.Jobs.{Allowed, event_of, jobs}
use web_framework.Scheduler.Threads.Kept.{Step-Allowed}
use web_framework.Scheduler.Threads.Rounds.{OwnSteps, round-OwnSteps}
use web_framework.Scheduler.Threads.Unique.{runs_once}
use web_framework.Scheduler.Threads.Crew.{Crew, CrewSteps, IsUnique, IsRunning}

abbrev three : Task
three = record { fiber = some 3; callback = none; thread = some 7 }

abbrev five : Task
five = record { fiber = none; callback = some 5; thread = none }

abbrev shared : Scheduler
shared = record {
  fibers = five ∷ [];
  threads = 2;
  thread_ids = 7 ∷ 8 ∷ [];
  thread_count = 2;
  active = 1;
  idle = 0;
  stopping = true;
  auto_stop = true;
  root_thread = none;
  root_fiber = none;
}

abbrev tids : ℕ → ℕ
tids i = i + 7

abbrev pool : Pool
pool = record { scheduler = shared; hands = in_task three ∷ between ∷ [] }

abbrev states : ℕ → State
states f = init

-- Thread 1 takes the callback.
abbrev both_busy : Pool
both_busy = record {
  scheduler = record shared { fibers = []; active = 2 };
  hands = in_task three ∷ in_task five ∷ [];
}

one_step : Steps tids pool both_busy
unfolding take_task
one_step = later none_yet (takes 1 states refl refl)

active_bounds_example :
    (2 ≡ total weight both_busy.hands)
    × (2 ≤ length both_busy.hands)
    × ((i : ℕ) (t : Task) → get_elem? both_busy.hands i ≡ some (in_task t) → 1 ≤ 2)
active_bounds_example = active_bounds tids pool both_busy refl one_step

stopping_iff_quiet_example : is_stopping both_busy.scheduler ≡ (
    true
    && (true
        && (is_empty both_busy.scheduler.fibers && all (λ h. not (is_in_task h)) both_busy.hands)))
stopping_iff_quiet_example = stopping_iff_quiet tids pool both_busy refl one_step

abbrev alone : Pool
alone = record { scheduler = record shared { fibers = [] }; hands = in_task three ∷ between ∷ [] }

-- Thread 0 comes back with fiber 3 ready.
abbrev waiting : Pool
waiting = record {
  scheduler = record shared { active = 0 };
  hands = before_schedule 3 ∷ between ∷ [];
}

abbrev came_back_ready : Step tids pool waiting
came_back_ready = comes_back 0 9 ready refl

Step-Allowed_example : Allowed (event_of came_back_ready) (jobs pool) (jobs waiting)
Step-Allowed_example = Step-Allowed came_back_ready

abbrev returned : Scheduler
returned = record shared { fibers = fiber_task 9 ∷ [] }

-- Thread 1 runs the callback, whose fiber yields by YieldToReady.
round-OwnSteps_example :
    OwnSteps tids 1 9 (λ f. ready) pool (record { scheduler = returned; hands = pool.hands })
unfolding round
round-OwnSteps_example =
    round-OwnSteps tids pool.hands 1 states (λ f. ready) 9 0 hold shared returned continues refl
      refl

-- Thread 0 comes back with fiber 3 ready, and no other task is left.
abbrev last_back : Pool
last_back = record {
  scheduler = record alone.scheduler { active = 0 };
  hands = before_schedule 3 ∷ between ∷ [];
}

stopping-jobs_example : jobs last_back ≡ Quot.mk (about_to_queue last_back.hands)
unfolding is_stopping
stopping-jobs_example =
    stopping-jobs tids alone last_back refl (later none_yet (comes_back 0 9 ready refl)) refl

-- Thread 0 has fiber 3, and thread 1 runs the callback on a new fiber, 9.
abbrev before_callback : Crew
before_callback = record { pool = pool; callback_fibers = none ∷ none ∷ [] }

abbrev after_taking : Crew
after_taking = record { pool = both_busy; callback_fibers = none ∷ some 9 ∷ [] }

callback_taken : CrewSteps tids before_callback after_taking
unfolding take_task
callback_taken =
    CrewSteps.later CrewSteps.none_yet (takes 1 states refl refl) (inr (9, refl, refl, refl))

before_callback-IsUnique : IsUnique before_callback
before_callback-IsUnique f = ground arith

runs_once_example : ¬ IsRunning after_taking 0 9
unfolding callback_taken
runs_once_example =
    runs_once before_callback after_taking callback_taken 1 0 9 (tt, tt) before_callback-IsUnique
      (λ e. omega (arith, e)) (five, refl, refl)
