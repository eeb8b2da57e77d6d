-- ===== src/Scheduler/Threads/Count.antt =====
-- m_activeThreadCount over the threads of Scheduler::run (components/scheduler.cpp).
use web_framework.Base.{
  ℕ, zero, suc, ◌+◌, ◌≡◌, ◌≤◌, Bool, true, false, List, [], ◌∷◌, some, get_elem?, if◌then◌else◌,
  arith, length, is_empty, ◌&&◌, ◌==◌, inl, inr, refl, ap, ◌∙◌, get_elem?-set_known, Option-cases,
  not, all, total, total-set,
}
use web_framework.Fiber.{State, ready}
use web_framework.Scheduler.{
  Task, Scheduler, schedule, fiber_task, is_ready, is_stopping, schedule_no_lock,
}
use web_framework.Scheduler.Pick.{take_task-TakenOut}
use web_framework.Scheduler.Threads.{
  Hand, between, in_task, before_schedule, Pool, hand_after, Step, takes, comes_back, requeues,
  schedules, sets_auto_stop, sets_stopping, Steps, none_yet, later,
}

-- 1 for a thread in a task
abbrev pub weight : Hand → ℕ
weight between = 0
weight (in_task t) = 1
weight (before_schedule f) = 0

-- m_activeThreadCount is the number of threads in a task.
abbrev pub IsCounted : Pool → Type 0
IsCounted p = p.scheduler.active ≡ total weight p.hands

weight-hand_after : (t : Task) (c : ℕ) (back : State) → weight (hand_after t c back) ≡ 0
weight-hand_after t c back = elim (Option-cases t.fiber) [
  | inr (f, e) ↦ rw e (ready_weight f)
  | inl e ↦ elim (Option-cases t.callback) [
    | inl e' ↦ rw (e, e') refl
    | inr (n, e') ↦ rw (e, e') (ready_weight c)
  ]
]
  where
    ready_weight : (f : ℕ) → weight (if is_ready back then before_schedule f else between) ≡ 0
    ready_weight f = ground arith

schedule-active : (s : Scheduler) (t : Task) → (schedule s t).0.active ≡ s.active
unfolding schedule schedule_no_lock
schedule-active s t = ground arith

Step-IsCounted : (tids : ℕ → ℕ) (p q : Pool) → IsCounted p → Step tids p q → IsCounted q
Step-IsCounted tids p q h (takes i state {s} {tickle_me} {t} at e) =
    let (out, same) = take_task-TakenOut (tids i) state p.scheduler s tickle_me t e in
    let more : s.active ≡ p.scheduler.active + 1 = ap (λ z. z.active) same in
    omega (arith, total-set weight p.hands i (in_task t) at)
Step-IsCounted tids p q h (comes_back i c back {t} at) =
    omega (arith, total-set weight p.hands i (hand_after t c back) at, weight-hand_after t c back)
Step-IsCounted tids p q h (requeues i {f} at) =
    omega (arith, total-set weight p.hands i between at, schedule-active p.scheduler (fiber_task f))
Step-IsCounted tids p q h (schedules t) = schedule-active p.scheduler t ∙ h
Step-IsCounted tids p q h sets_auto_stop = h
Step-IsCounted tids p q h sets_stopping = h

Steps-IsCounted : (tids : ℕ → ℕ) (p q : Pool) → IsCounted p → Steps tids p q → IsCounted q
Steps-IsCounted tids p q h none_yet = h
Steps-IsCounted tids p q h (later {q = r} before step) =
    Step-IsCounted tids r q (Steps-IsCounted tids p r h before) step

abbrev pub is_in_task : Hand → Bool
is_in_task (in_task t) = true
is_in_task _ = false

weight_le : (hs : List Hand) → total weight hs ≤ length hs
weight_le [] = omega arith
weight_le (between ∷ hs) = omega (arith, weight_le hs)
weight_le (in_task t ∷ hs) = omega (arith, weight_le hs)
weight_le (before_schedule f ∷ hs) = omega (arith, weight_le hs)

total_zero : (hs : List Hand) → (total weight hs == 0) ≡ all (λ h. not (is_in_task h)) hs
total_zero [] = refl
total_zero (between ∷ hs) = ground (arith, total_zero hs)
total_zero (in_task t ∷ hs) = ground arith
total_zero (before_schedule f ∷ hs) = ground (arith, total_zero hs)

total_ge :
    (hs : List Hand) (i : ℕ) (t : Task) → get_elem? hs i ≡ some (in_task t) → 1 ≤ total weight hs
total_ge [] i t e = cc
total_ge (h ∷ hs) zero t e = let same : h ≡ in_task t = cc in rw same (omega arith)
total_ge (h ∷ hs) (suc i) t e = omega (arith, total_ge hs i t e)

-- However the threads' steps interleave, m_activeThreadCount is the number of threads in a task: it
-- never exceeds the number of threads, and a thread that counts down finds at least 1.
pub active_bounds :
    (tids : ℕ → ℕ) (p q : Pool)
    → p.scheduler.active ≡ total weight p.hands
    → Steps tids p q
    → (q.scheduler.active ≡ total weight q.hands)
      × (q.scheduler.active ≤ length q.hands)
      × ((i : ℕ) (t : Task) → get_elem? q.hands i ≡ some (in_task t) → 1 ≤ q.scheduler.active)
active_bounds tids p q h steps =
    let counted : q.scheduler.active ≡ total weight q.hands = Steps-IsCounted tids p q h steps in
    (counted, omega (arith, weight_le q.hands), λ i t at. omega (arith, total_ge q.hands i t at))

-- However the threads' steps interleave, stopping() is true exactly when both flags of stop are set,
-- the queue is empty and no thread is in a task.
pub stopping_iff_quiet :
    (tids : ℕ → ℕ) (p q : Pool)
    → p.scheduler.active ≡ total weight p.hands
    → Steps tids p q
    → is_stopping q.scheduler ≡ (
        q.scheduler.auto_stop
        && (q.scheduler.stopping
            && (is_empty q.scheduler.fibers && all (λ h. not (is_in_task h)) q.hands)))
unfolding is_stopping
stopping_iff_quiet tids p q h steps =
    let counted = Steps-IsCounted tids p q h steps in rw (counted, total_zero q.hands) refl

-- stopping() may be true and then false again: when the last thread in a task comes back with a
-- ready fiber, after stop was called and with the queue empty, stopping() is true until that thread
-- queues the fiber.
pub stopping_too_early :
    (tids : ℕ → ℕ) (p : Pool) (i c f : ℕ) (t : Task)
    → get_elem? p.hands i ≡ some (in_task t)
    → t.fiber ≡ some f
    → p.scheduler.auto_stop ≡ true
    → p.scheduler.stopping ≡ true
    → p.scheduler.fibers ≡ []
    → p.scheduler.active ≡ 1
    → (q r : Pool) × Step tids p q
      × Step tids q r
      × (is_stopping q.scheduler ≡ true)
      × (r.scheduler.fibers ≡ fiber_task f ∷ [])
      × (is_stopping r.scheduler ≡ false)
unfolding is_stopping schedule schedule_no_lock
stopping_too_early tids p i c f t at fiber auto stop empty one =
    let requeuing : hand_after t c ready ≡ before_schedule f = rw fiber refl in
    let at' = get_elem?-set_known p.hands i (hand_after t c ready) at ∙ ap some requeuing in
    (
      _,
      _,
      comes_back i c ready at,
      requeues i at',
      ground arith,
      rw empty refl,
      ground (arith, empty),
    )
