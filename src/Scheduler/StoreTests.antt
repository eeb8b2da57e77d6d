-- ===== src/Scheduler/StoreTests.antt =====
-- The loop of Scheduler::run on a thread with a main fiber, 0, and one to run, 1, which yields once.
use web_framework.Base.{
  ℕ, zero, suc, ◌≡◌, refl, all, arith, Bool, sym, ap, true, false, [], ◌∷◌, none, some, get_elem?,
}
use web_framework.Fiber.{init, exec, main_func, Fiber, Thread}
use web_framework.Scheduler.{Scheduler, is_stopping, is_term, state_after}
use web_framework.Scheduler.Drain.{Fibers, resume, queue_of, loop, is_live}
use web_framework.Scheduler.Drain.Switch.{states_of}
use web_framework.Scheduler.Drain.Store.{IsHome, fibers_of, loop_on}
use web_framework.Scheduler.Drain.Follow.{loop_on-loop, loop_on_ends}

abbrev main_fiber : Fiber
main_fiber = record {
  id = 0;
  stacksize = 0;
  state = exec;
  stack = false;
  callback = none;
  entry = main_func;
}

abbrev worker : Fiber
worker = record {
  id = 1;
  stacksize = 1024;
  state = init;
  stack = true;
  callback = some 2;
  entry = main_func;
}

abbrev thread : Thread
thread = record {
  fibers = main_fiber ∷ worker ∷ [];
  fiber_id = 1;
  fiber_count = 2;
  current = some 0;
  thread_fiber = some 0;
  main = some 0;
  running = some 0;
}

abbrev once : ℕ → ℕ
once i = 1

abbrev start : Scheduler
start = record {
  fibers = queue_of 7 ((false, 1) ∷ []);
  threads = 0;
  thread_ids = 7 ∷ [];
  thread_count = 0;
  active = 0;
  idle = 0;
  stopping = true;
  auto_stop = true;
  root_thread = some 7;
  root_fiber = some 0;
}

abbrev over : Scheduler
over = record start { fibers = [] }

abbrev all_over : Fibers
all_over = resume (resume (fibers_of thread once) 1) 1

only_main_func :
    (i : ℕ) (f : Fiber)
    → get_elem? thread.fibers i ≡ some f
    → is_live f.state ≡ true
    → f.entry ≡ main_func
only_main_func zero f e live = cc
only_main_func (suc zero) f e live = let same : worker ≡ f = cc in ap (λ x. x.entry) (sym same)
only_main_func (suc (suc i)) f e live = cc

thread-IsHome : IsHome 0 thread
thread-IsHome = record { main = refl; runs = refl; entries = only_main_func }

abstract_run : loop 4 7 0 (fibers_of thread once) init start ≡ some (over, all_over)
unfolding loop state_after
abstract_run = refl

loop_on-loop_example :
    (v : Thread) × (loop_on 4 7 0 thread once init start ≡ some (over, v))
    × (states_of v ≡ all_over.state)
    × (v.running ≡ some 0)
loop_on-loop_example =
    loop_on-loop 4 7 0 0 thread once init start over all_over thread-IsHome abstract_run

loop_on_ends_example :
    (u : Scheduler) × (v : Thread) × (loop_on 4 7 0 thread once init start ≡ some (u, v))
    × (is_stopping u ≡ true)
    × (all (λ (p : Bool × ℕ). is_term (states_of v p.1)) ((false, 1) ∷ []) ≡ true)
    × (v.running ≡ some 0)
loop_on_ends_example =
    loop_on_ends 4 7 0 0 thread once start ((false, 1) ∷ []) thread-IsHome refl refl refl
      (record { auto = refl; stop = refl; quiet = refl }) (omega arith)
