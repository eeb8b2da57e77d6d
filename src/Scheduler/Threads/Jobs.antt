-- ===== src/Scheduler/Threads/Jobs.antt =====
-- The scheduler as its callers see it: the bag of the jobs that are scheduled and not yet done,
-- wherever they are, queued or with a thread (components/scheduler.h, components/scheduler.cpp).
use mathlib.Core.Quot
use mathlib.Core.Quot.{Quot, Quot-set}
use web_framework.Base.{
  ℕ, ◌+◌, ◌≡◌, Bool, false, List, [], ◌∷◌, ◌++◌, Option, none, some, if◌then◌else◌, arith, ◌==◌,
}
use web_framework.Fiber.{State}
use web_framework.Scheduler.{Task, is_ready}
use web_framework.Scheduler.Threads.{
  Hand, between, in_task, before_schedule, Pool, Step, takes, comes_back, requeues, schedules,
  sets_auto_stop, sets_stopping,
}

-- What a caller hands over: a fiber or a callback.
pub data Job : Type 0 where
  fiber_job callback_job : ℕ → Job

abbrev pub same_job : Job → Job → Bool
same_job (fiber_job m) (fiber_job n) = m == n
same_job (callback_job m) (callback_job n) = m == n
same_job _ _ = false

abbrev pub count : Job → List Job → ℕ
count j [] = 0
count j (x ∷ xs) = (if same_job x j then 1 else 0) + count j xs

-- A thread number that a task is bound to is forgotten, and so is the order.
abbrev pub SameJobs : List Job → List Job → Type 0
SameJobs xs ys = (j : Job) → count j xs ≡ count j ys

abbrev pub Bag : Type 0
Bag = Quot SameJobs

pub count-append : (j : Job) (xs ys : List Job) → count j (xs ++ ys) ≡ count j xs + count j ys
count-append j [] ys = omega arith
count-append j (x ∷ xs) ys = omega (arith, count-append j xs ys)

pub SameJobs-append : (new xs ys : List Job) → SameJobs xs ys → SameJobs (new ++ xs) (new ++ ys)
SameJobs-append new xs ys h j = omega (arith, h j, count-append j new xs, count-append j new ys)

-- The bag with some more jobs.
unfoldable pub add_all : List Job → Bag → Bag
add_all new =
    Quot.lift Quot-set (λ xs. Quot.mk (new ++ xs))
      (λ xs ys h. Quot.sound (SameJobs-append new xs ys h))

abbrev pub jobs_of : Option ℕ → Option ℕ → List Job
jobs_of (some f) callback = fiber_job f ∷ []
jobs_of none (some n) = callback_job n ∷ []
jobs_of none none = []

abbrev pub task_jobs : Task → List Job
task_jobs t = jobs_of t.fiber t.callback

abbrev pub queue_jobs : List Task → List Job
queue_jobs [] = []
queue_jobs (t ∷ q) = task_jobs t ++ queue_jobs q

abbrev pub hand_jobs : Hand → List Job
hand_jobs between = []
hand_jobs (in_task t) = task_jobs t
hand_jobs (before_schedule f) = fiber_job f ∷ []

abbrev pub all_hand_jobs : List Hand → List Job
all_hand_jobs [] = []
all_hand_jobs (h ∷ hs) = hand_jobs h ++ all_hand_jobs hs

abbrev pub pool_jobs : Pool → List Job
pool_jobs p = queue_jobs p.scheduler.fibers ++ all_hand_jobs p.hands

-- The abstract view of a pool
abbrev pub jobs : Pool → Bag
jobs p = Quot.mk (pool_jobs p)

-- What a step is to the callers: nothing, a call of schedule, or a task that came back.
pub data Event : Type 0 where
  internal : Event
  scheduled : Task → Event
  came_back : Task → ℕ → State → Event

abbrev pub event_of : {tids : ℕ → ℕ} {p q : Pool} → Step tids p q → Event
event_of (takes i state at e) = internal
event_of (comes_back i c back {t} at) = came_back t c back
event_of (requeues i at) = internal
event_of (schedules t) = scheduled t
event_of sets_auto_stop = internal
event_of sets_stopping = internal

-- What is still to do when a job came back: a fiber that is ready, and for a callback that yielded
-- by YieldToReady the fiber `c` that runs it.
abbrev pub left_by : List Job → ℕ → State → List Job
left_by [] c back = []
left_by (fiber_job f ∷ js) c back = if is_ready back then fiber_job f ∷ [] else []
left_by (callback_job n ∷ js) c back = if is_ready back then fiber_job c ∷ [] else []

-- What an event may do to the bag.
abbrev pub Allowed : Event → Bag → Bag → Type 0
Allowed internal b b' = b ≡ b'
Allowed (scheduled t) b b' = b' ≡ add_all (task_jobs t) b
Allowed (came_back t c back) b b' =
    (rest : Bag) × (b ≡ add_all (task_jobs t) rest)
    × (b' ≡ add_all (left_by (task_jobs t) c back) rest)
