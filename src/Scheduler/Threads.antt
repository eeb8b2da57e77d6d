-- ===== src/Scheduler/Threads.antt =====
-- Several threads in Scheduler::run over one queue (components/scheduler.cpp). A thread takes a task
-- in one critical section; when the task's fiber comes back it counts the task down, which is not
-- in a critical section; and it queues a fiber that is ready in another. Other threads act in between.
pub mod Count
pub mod Jobs
pub mod Kept
pub mod Done
pub mod Rounds
pub mod Crew
pub mod Unique
use web_framework.Base.{
  ℕ, zero, suc, ◌+◌, ◌-◌, ◌≡◌, Bool, true, false, List, [], ◌∷◌, Option, none, some, get_elem?, set,
  if◌then◌else◌, arith,
}
use web_framework.Fiber.{State}
use web_framework.Scheduler.{Task, Scheduler, schedule, take_task, fiber_task, is_ready}

-- Where a thread is in the loop of run: before the critical section, in a task's fiber, or between
-- `--m_activeThreadCount` and `schedule` of a fiber that came back ready.
pub data Hand : Type 0 where
  between : Hand
  in_task : Task → Hand
  before_schedule : ℕ → Hand

pub record Pool : Type 0 where
  pub scheduler : Scheduler
  pub hands : List Hand

-- Where the thread is after a task came back in state `back`; `c` is its callback_fiber.
abbrev pub hand_after : Task → ℕ → State → Hand
hand_after t c back = by_kind t.fiber t.callback
  where
    of_fiber : ℕ → Hand
    of_fiber f = if is_ready back then before_schedule f else between

    by_callback : Option ℕ → Hand
    by_callback none = between
    by_callback (some n) = of_fiber c

    by_kind : Option ℕ → Option ℕ → Hand
    by_kind none callback = by_callback callback
    by_kind (some f) callback = of_fiber f

-- `--m_activeThreadCount`
abbrev pub count_down : Scheduler → Scheduler
count_down s = record s { active = s.active - 1 }

-- One step of the thread with number `i`, whose id is `tids i`, or of code outside run: a call of
-- schedule, and the two assignments of stop. The fibers' states are any at each step, and a
-- fiber comes back in one step: between its change of state and the switch nothing else is seen.
pub data Step (tids : ℕ → ℕ) (p : Pool) : Pool → Type 0 where
  takes :
      (i : ℕ) (state : ℕ → State) {s : Scheduler} {tickle_me : Bool} {t : Task}
      → get_elem? p.hands i ≡ some between
      → take_task (tids i) state p.scheduler ≡ some (s, tickle_me, some t)
      → Step tids p (record { scheduler = s; hands = set p.hands i (in_task t) })
  comes_back :
      (i c : ℕ) (back : State) {t : Task}
      → get_elem? p.hands i ≡ some (in_task t)
      → Step tids p (record {
        scheduler = count_down p.scheduler;
        hands = set p.hands i (hand_after t c back);
      })
  requeues :
      (i : ℕ) {f : ℕ}
      → get_elem? p.hands i ≡ some (before_schedule f)
      → Step tids p (record {
        scheduler = (schedule p.scheduler (fiber_task f)).0;
        hands = set p.hands i between;
      })
  schedules :
      (t : Task) → Step tids p (record { scheduler = (schedule p.scheduler t).0; hands = p.hands })
  sets_auto_stop :
      Step tids p (record { scheduler = record p.scheduler { auto_stop = true }; hands = p.hands })
  sets_stopping :
      Step tids p (record { scheduler = record p.scheduler { stopping = true }; hands = p.hands })

pub data Steps (tids : ℕ → ℕ) (p : Pool) : Pool → Type 0 where
  none_yet : Steps tids p p
  later : {q r : Pool} → Steps tids p q → Step tids q r → Steps tids p r
