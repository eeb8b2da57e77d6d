-- ===== src/Scheduler/Threads/Crew.antt =====
-- Several threads in Scheduler::run with the callback_fiber of each, a local variable of run
-- (components/scheduler.cpp).
use mathlib.Core.Quot
use mathlib.Core.Quot.{Quot}
use native.Mathlib.Nat.{ℕ_set}
use web_framework.Base.{
  ℕ, ◌+◌, ◌≡◌, ◌≤◌, List, Option, none, some, ◌==◌, get_elem?, set, ◌⊎◌, total, if◌then◌else◌,
}
use web_framework.Fiber.{State}
use web_framework.Scheduler.{Task, after_callback, CallbackFiber, kept, given_up}
use web_framework.Scheduler.Threads.{
  in_task, Pool, Step, takes, comes_back, requeues, schedules, sets_auto_stop, sets_stopping,
}
use web_framework.Scheduler.Threads.Jobs.{
  fiber_job, count, Bag, jobs, Event, internal, scheduled, came_back, event_of,
}

-- How often a fiber is in the bag.
abbrev pub copies : ℕ → Bag → ℕ
copies f = Quot.lift ℕ_set (λ js. count (fiber_job f) js) (λ xs ys h. h (fiber_job f))

-- The threads, with the callback_fiber of each.
pub record Crew : Type 0 where
  pub pool : Pool
  pub callback_fibers : List (Option ℕ)

-- 1 for a callback_fiber that is `f`.
abbrev pub is_fiber : ℕ → Option ℕ → ℕ
is_fiber f none = 0
is_fiber f (some c) = if c == f then 1 else 0

-- How often the scheduler has a fiber: queued, with a thread, or as a thread's callback_fiber.
abbrev pub held : ℕ → Crew → ℕ
held f x = copies f (jobs x.pool) + total (is_fiber f) x.callback_fibers

abbrev pub left : CallbackFiber → ℕ → Option ℕ
left kept c = some c
left given_up c = none

-- callback_fiber when a thread takes a task: for a callback it is used again, or is a new fiber
-- where the thread has none. What `new` gives is none of the fibers that the scheduler has.
abbrev pub Prepares : Crew → ℕ → Option ℕ → Option ℕ → List (Option ℕ) → Type 0
Prepares x i none (some n) cs =
    ((c : ℕ) × (get_elem? x.callback_fibers i ≡ some (some c)) × (cs ≡ x.callback_fibers))
    ⊎ ((c : ℕ) × (get_elem? x.callback_fibers i ≡ some none)
        × (held c x ≡ 0)
        × (cs ≡ set x.callback_fibers i (some c)))
Prepares x i fiber callback cs = cs ≡ x.callback_fibers

-- callback_fiber when a task comes back: after a callback, kept or given up as run has it.
abbrev pub Leaves : Crew → ℕ → ℕ → State → Option ℕ → Option ℕ → List (Option ℕ) → Type 0
Leaves x i c back none (some n) cs =
    (get_elem? x.callback_fibers i ≡ some (some c))
    × (cs ≡ set x.callback_fibers i (left (after_callback x.pool.scheduler c back).1 c))
Leaves x i c back fiber callback cs = cs ≡ x.callback_fibers

-- What a step of the threads does to their callback fibers.
abbrev pub Follows :
    {tids : ℕ → ℕ} (x : Crew) {q : Pool} → Step tids x.pool q → List (Option ℕ) → Type 0
Follows x (takes i state {t = t} at e) cs = Prepares x i t.fiber t.callback cs
Follows x (comes_back i c back {t} at) cs = Leaves x i c back t.fiber t.callback cs
Follows x (requeues i at) cs = cs ≡ x.callback_fibers
Follows x (schedules t) cs = cs ≡ x.callback_fibers
Follows x sets_auto_stop cs = cs ≡ x.callback_fibers
Follows x sets_stopping cs = cs ≡ x.callback_fibers

pub data CrewSteps (tids : ℕ → ℕ) (x : Crew) : Crew → Type 0 where
  none_yet : CrewSteps tids x x
  later :
      {y z : Crew}
      → CrewSteps tids x y
      → (step : Step tids y.pool z.pool) → Follows y step z.callback_fibers
      → CrewSteps tids x z

-- A caller schedules only fibers that the scheduler does not have.
abbrev pub IsFresh : Event → Crew → Type 0
IsFresh internal x = Unit
IsFresh (scheduled t) x = (f : ℕ) → t.fiber ≡ some f → held f x ≡ 0
IsFresh (came_back t c back) x = Unit

abbrev pub AllFresh : {tids : ℕ → ℕ} {x y : Crew} → CrewSteps tids x y → Type 0
AllFresh none_yet = Unit
AllFresh (later {y} before step follows) = AllFresh before × IsFresh (event_of step) y

abbrev pub IsUnique : Crew → Type 0
IsUnique x = (f : ℕ) → held f x ≤ 1

-- Whether a thread that is in a task with this fiber or callback runs the fiber `f`.
abbrev pub RunsIn : Crew → ℕ → ℕ → Option ℕ → Option ℕ → Type 0
RunsIn x i f (some g) callback = g ≡ f
RunsIn x i f none (some n) = get_elem? x.callback_fibers i ≡ some (some f)
RunsIn x i f none none = ⊥

-- Thread `i` runs the fiber `f`, for a task of it or for a callback.
abbrev pub IsRunning : Crew → ℕ → ℕ → Type 0
IsRunning x i f =
    (t : Task) × (get_elem? x.pool.hands i ≡ some (in_task t)) × RunsIn x i f t.fiber t.callback
