-- ===== src/Scheduler/Threads/Kept.antt =====
-- What the steps of the threads do to the bag of jobs (components/scheduler.cpp).
use mathlib.Core.Quot
use mathlib.Core.Quot.{Quot, Quot-set}
use web_framework.Base.{
  ℕ, ◌+◌, ◌≡◌, false, List, [], ◌∷◌, ◌++◌, Option, none, some, get_elem?, set, if◌then◌else◌, arith,
  Bool-cases, Option-cases, inl, inr, refl, ap, ◌||◌, is_some, total, total-set,
}
use web_framework.Fiber.{State}
use web_framework.Scheduler.{Task, Scheduler, schedule, schedule_no_lock, fiber_task, is_ready}
use web_framework.Scheduler.Pick.{TakenOut, take_task-TakenOut}
use web_framework.Scheduler.Threads.{
  Hand, between, in_task, before_schedule, Pool, hand_after, count_down, Step, takes, comes_back,
  requeues, schedules, sets_auto_stop, sets_stopping,
}
use web_framework.Scheduler.Threads.Jobs.{
  fiber_job, Job, count, count-append, add_all, jobs_of, task_jobs, queue_jobs, hand_jobs,
  all_hand_jobs, pool_jobs, jobs, event_of, left_by, Allowed,
}

count-queue_jobs :
    (j : Job) (xs ys : List Task)
    → count j (queue_jobs (xs ++ ys)) ≡ count j (queue_jobs xs) + count j (queue_jobs ys)
count-queue_jobs j [] ys = omega arith
count-queue_jobs j (x ∷ xs) ys = omega (
  arith,
  count-queue_jobs j xs ys,
  count-append j (task_jobs x) (queue_jobs (xs ++ ys)),
  count-append j (task_jobs x) (queue_jobs xs),
)

count-all_hand_jobs :
    (j : Job) (hs : List Hand) → count j (all_hand_jobs hs) ≡ total (λ h. count j (hand_jobs h)) hs
count-all_hand_jobs j [] = refl
count-all_hand_jobs j (h ∷ hs) =
    omega (arith, count-all_hand_jobs j hs, count-append j (hand_jobs h) (all_hand_jobs hs))

pub count-pool_jobs :
    (j : Job) (p : Pool)
    → count j (pool_jobs p)
      ≡ count j (queue_jobs p.scheduler.fibers) + total (λ h. count j (hand_jobs h)) p.hands
count-pool_jobs j p = omega (
  arith,
  count-append j (queue_jobs p.scheduler.fibers) (all_hand_jobs p.hands),
  count-all_hand_jobs j p.hands,
)

count-TakenOut :
    (j : Job) (state : ℕ → State) (q rest : List Task) (t : Task)
    → TakenOut state q rest t
    → count j (queue_jobs q) ≡ count j (queue_jobs rest) + count j (task_jobs t)
count-TakenOut j state q rest t out =
    rw (out.splits, out.left)
      (omega (
        arith,
        count-queue_jobs j out.before (t ∷ out.after),
        count-queue_jobs j out.before out.after,
        count-append j (task_jobs t) (queue_jobs out.after),
      ))

jobs_of_none : (f n : Option ℕ) → (is_some f || is_some n) ≡ false → jobs_of f n ≡ []
jobs_of_none none none h = refl
jobs_of_none none (some n) h = cc
jobs_of_none (some f) n h = cc

count-schedule :
    (j : Job) (s : Scheduler) (t : Task)
    → count j (queue_jobs (schedule s t).0.fibers)
      ≡ count j (queue_jobs s.fibers) + count j (task_jobs t)
unfolding schedule schedule_no_lock
count-schedule j s t = elim (Bool-cases (is_some t.fiber || is_some t.callback)) [
  | inl filled ↦
      rw filled
        (omega (arith, count-queue_jobs j s.fibers (t ∷ []), count-append j (task_jobs t) []))
  | inr empty ↦ rw (empty, jobs_of_none t.fiber t.callback empty) (omega arith)
]

hand_jobs-ready :
    (f : ℕ) (back : State)
    → hand_jobs (if is_ready back then before_schedule f else between)
      ≡ (if is_ready back then fiber_job f ∷ [] else [])
hand_jobs-ready f back = ground arith

hand_jobs-hand_after :
    (t : Task) (c : ℕ) (back : State)
    → hand_jobs (hand_after t c back) ≡ left_by (task_jobs t) c back
hand_jobs-hand_after t c back = elim (Option-cases t.fiber) [
  | inr (f, e) ↦ rw e (hand_jobs-ready f back)
  | inl e ↦ elim (Option-cases t.callback) [
    | inl e' ↦ rw (e, e') refl
    | inr (n, e') ↦ rw (e, e') (hand_jobs-ready c back)
  ]
]

-- The jobs after thread `i` has gone on, where the queue is `q`.
module _ (p : Pool) (i : ℕ) (v : Hand) {h : Hand} (at : get_elem? p.hands i ≡ some h) where
  count-moved :
      (j : Job) (s : Scheduler)
      → count j (pool_jobs (record { scheduler = s; hands = set p.hands i v }))
          + (count j (hand_jobs h) + count j (queue_jobs p.scheduler.fibers))
        ≡ count j (pool_jobs p) + (count j (hand_jobs v) + count j (queue_jobs s.fibers))
  count-moved j s = omega (
    arith,
    count-pool_jobs j p,
    count-pool_jobs j (record { scheduler = s; hands = set p.hands i v }),
    total-set (λ x. count j (hand_jobs x)) p.hands i v at,
  )

-- No step of the threads loses a job or does it twice, so no interleaving does: as bags,
-- the jobs queued and with threads are changed by no step but a call of schedule, which adds its
-- task, and a task that comes back, which leaves the bag; a fiber that comes back ready stays in it,
-- and for a callback that does so the fiber that runs it takes its place.
pub Step-Allowed :
    {tids : ℕ → ℕ} {p q : Pool} (step : Step tids p q) → Allowed (event_of step) (jobs p) (jobs q)
unfolding add_all
Step-Allowed {tids} {p} {q} (takes i state {s} {tickle_me} {t} at e) =
    let (out, same) = take_task-TakenOut (tids i) state p.scheduler s tickle_me t e in
    Quot.sound (λ j. omega (
      arith,
      count-moved p i (in_task t) at j s,
      count-TakenOut j state p.scheduler.fibers s.fibers t out,
    ))
Step-Allowed {tids} {p} {q} (comes_back i c back {t} at) =
    let between_tasks : Pool = record { scheduler = p.scheduler; hands = set p.hands i between } in
    (
      jobs between_tasks,
      Quot.sound (λ j. omega (
        arith,
        count-moved p i between at j p.scheduler,
        count-append j (task_jobs t) (pool_jobs between_tasks),
      )),
      Quot.sound (λ j. omega (
        arith,
        count-moved p i between at j p.scheduler,
        count-moved p i (hand_after t c back) at j (count_down p.scheduler),
        ap (count j) (hand_jobs-hand_after t c back),
        count-append j (left_by (task_jobs t) c back) (pool_jobs between_tasks),
      )),
    )
Step-Allowed {tids} {p} {q} (requeues i {f} at) = Quot.sound (λ j. omega (
  arith,
  count-moved p i between at j (schedule p.scheduler (fiber_task f)).0,
  count-schedule j p.scheduler (fiber_task f),
))
Step-Allowed {tids} {p} {q} (schedules t) = Quot.sound (λ j. omega (
  arith,
  count-append j (task_jobs t) (pool_jobs p),
  count-pool_jobs j p,
  count-pool_jobs j (record { scheduler = (schedule p.scheduler t).0; hands = p.hands }),
  count-schedule j p.scheduler t,
))
Step-Allowed {tids} {p} {q} sets_auto_stop = refl
Step-Allowed {tids} {p} {q} sets_stopping = refl
