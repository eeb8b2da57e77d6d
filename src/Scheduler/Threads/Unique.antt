-- ===== src/Scheduler/Threads/Unique.antt =====
-- No fiber is run by two threads at a time, by one for a task and by another for a callback neither,
-- while callers schedule no fiber twice (components/scheduler.h, components/scheduler.cpp).
use mathlib.Core.Quot
use mathlib.Core.Quot.{Quot}
use native.Mathlib.Nat.{ℕ_set}
use web_framework.Base.{
  ℕ, ◌+◌, ◌≡◌, ◌≢◌, ◌≤◌, refl, ap, ◌∙◌, true, List, Option, none, some, ◌==◌, arith, get_elem?, ◌⊎◌,
  total, total-set, total_ge, total_ge_two, Bool-cases, subst, ==_iff, inl, inr,
}
use web_framework.Fiber.{State}
use web_framework.Scheduler.{
  Task, Scheduler, is_ready, after_callback, CallbackFiber, kept, given_up,
}
use web_framework.Scheduler.Threads.{
  Hand, in_task, Step, takes, comes_back, requeues, schedules, sets_auto_stop, sets_stopping,
}
use web_framework.Scheduler.Threads.Jobs.{
  Job, fiber_job, count, count-append, Bag, add_all, jobs_of, task_jobs, hand_jobs, jobs, event_of,
  left_by, Allowed,
}
use web_framework.Scheduler.Threads.Kept.{Step-Allowed, count-pool_jobs}
use web_framework.Scheduler.Threads.Crew.{
  copies, Crew, is_fiber, held, left, Prepares, Leaves, Follows, CrewSteps, none_yet, later,
  IsFresh, AllFresh, IsUnique, RunsIn, IsRunning,
}

copies-add_all :
    (f : ℕ) (new : List Job) (b : Bag)
    → copies f (add_all new b) ≡ count (fiber_job f) new + copies f b
unfolding add_all
copies-add_all f new = Quot.ind (λ b. ℕ_set _ _) (λ js. count-append (fiber_job f) new js)

scheduled_le :
    (f : ℕ) (fiber callback : Option ℕ) (n k : ℕ)
    → (fiber ≡ some f → n + k ≡ 0)
    → n + k ≤ 1
    → count (fiber_job f) (jobs_of fiber callback) + n + k ≤ 1
scheduled_le f (some g) callback n k fresh le = elim (Bool-cases (g == f)) [
  | inr other ↦ rw other (omega arith)
  | inl same ↦ rw same (omega (arith, fresh (ap some ((==_iff g f).0 same))))
]
scheduled_le f none (some c) n k fresh le = omega arith
scheduled_le f none none n k fresh le = omega arith

-- Taking a task leaves the callback fibers unique.
Prepares-le :
    (x : Crew) (i : ℕ) (fiber callback : Option ℕ) (cs : List (Option ℕ)) (f : ℕ)
    → Prepares x i fiber callback cs
    → held f x ≤ 1
    → copies f (jobs x.pool) + total (is_fiber f) cs ≤ 1
Prepares-le x i (some g) callback cs f same le = rw same le
Prepares-le x i none none cs f same le = rw same le
Prepares-le x i none (some n) cs f (inl (c, at, same)) le = rw same le
Prepares-le x i none (some n) cs f (inr (c, at, new, same)) le =
    let change = total-set (is_fiber f) x.callback_fibers i (some c) at in
    rw same (elim (Bool-cases (c == f)) [
      | inr other ↦
          let none_more : is_fiber f (some c) ≡ 0 = rw other refl in
          omega (arith, change, none_more, le)
      | inl one ↦
          let one_more : is_fiber f (some c) ≡ 1 = rw one refl in
          let unused : held f x ≡ 0 = subst (λ g. held g x ≡ 0) ((==_iff c f).0 one) new in
          omega (arith, change, one_more, unused)
    ])

given_up_ready :
    (s : Scheduler) (c : ℕ) (back : State)
    → is_ready back ≡ true
    → (after_callback s c back).1 ≡ given_up
unfolding after_callback
given_up_ready s c back e = rw e refl

left_le : (f c : ℕ) (d : CallbackFiber) → is_fiber f (left d c) ≤ is_fiber f (some c)
left_le f c kept = omega arith
left_le f c given_up = omega arith

-- A task that comes back leaves each fiber as often as before, or less often.
Leaves-le :
    (x : Crew) (i c : ℕ) (back : State) (fiber callback : Option ℕ) (cs : List (Option ℕ)) (f n : ℕ)
    → Leaves x i c back fiber callback cs
    → count (fiber_job f) (left_by (jobs_of fiber callback) c back) + n + total (is_fiber f) cs
      ≤ count (fiber_job f) (jobs_of fiber callback) + n + total (is_fiber f) x.callback_fibers
Leaves-le x i c back (some g) callback cs f n same = elim (Bool-cases (is_ready back)) [
  | inl again ↦ rw (same, again) (omega arith)
  | inr over ↦ rw (same, over) (omega arith)
]
Leaves-le x i c back none none cs f n same = rw same (omega arith)
Leaves-le x i c back none (some m) cs f n (at, same) =
    let d = (after_callback x.pool.scheduler c back).1 in
    let change = total-set (is_fiber f) x.callback_fibers i (left d c) at in
    rw same (elim (Bool-cases (is_ready back)) [
      | inl again ↦
          let gone : is_fiber f (left d c) ≡ 0 =
            ap (λ k. is_fiber f (left k c)) (given_up_ready x.pool.scheduler c back again) in
          rw again (omega (arith, change, gone))
      | inr over ↦ rw over (omega (arith, change, left_le f c d))
    ])

unchanged :
    (x y : Crew) (f : ℕ)
    → jobs x.pool ≡ jobs y.pool
    → y.callback_fibers ≡ x.callback_fibers
    → held f x ≤ 1
    → held f y ≤ 1
unchanged x y f e e' le = omega (arith, ap (copies f) e, ap (total (is_fiber f)) e', le)

Step-IsUnique :
    {tids : ℕ → ℕ} (x y : Crew) (step : Step tids x.pool y.pool)
    → Allowed (event_of step) (jobs x.pool) (jobs y.pool)
    → Follows x step y.callback_fibers
    → IsFresh (event_of step) x
    → IsUnique x
    → IsUnique y
Step-IsUnique x y (takes i state {t = t} at e) allowed follows fresh unique f =
    let kept_jobs = ap (copies f) allowed in
    let le = Prepares-le x i t.fiber t.callback y.callback_fibers f follows (unique f) in
    omega (arith, kept_jobs, le)
Step-IsUnique x y (comes_back i c back {t} at) (rest, before, after) follows fresh unique f =
    let had = ap (copies f) before ∙ copies-add_all f (task_jobs t) rest in
    let has = ap (copies f) after ∙ copies-add_all f (left_by (task_jobs t) c back) rest in
    let le = Leaves-le x i c back t.fiber t.callback y.callback_fibers f (copies f rest) follows in
    omega (arith, had, has, le, unique f)
Step-IsUnique x y (requeues i at) allowed follows fresh unique f =
    unchanged x y f allowed follows (unique f)
Step-IsUnique x y (schedules t) allowed follows fresh unique f =
    let more = ap (copies f) allowed ∙ copies-add_all f (task_jobs t) (jobs x.pool) in
    let same = ap (total (is_fiber f)) follows in
    let le =
      scheduled_le f t.fiber t.callback (copies f (jobs x.pool))
        (total (is_fiber f) x.callback_fibers) (fresh f) (unique f) in
    omega (arith, more, same, le)
Step-IsUnique x y sets_auto_stop allowed follows fresh unique f =
    unchanged x y f allowed follows (unique f)
Step-IsUnique x y sets_stopping allowed follows fresh unique f =
    unchanged x y f allowed follows (unique f)

Steps-IsUnique :
    {tids : ℕ → ℕ} (x z : Crew) (steps : CrewSteps tids x z)
    → AllFresh steps
    → IsUnique x
    → IsUnique z
Steps-IsUnique x z none_yet fresh unique = unique
Steps-IsUnique x z (later {y} before step follows) (earlier, fresh) unique =
    Step-IsUnique y z step (Step-Allowed step) follows fresh
      (Steps-IsUnique x y before earlier unique)

-- What a thread that runs `f` adds to the count of it.
abbrev Adds : Crew → ℕ → ℕ → Type 0
Adds y i f =
    ((h : Hand) × (get_elem? y.pool.hands i ≡ some h) × (count (fiber_job f) (hand_jobs h) ≡ 1))
    ⊎ ((get_elem? y.callback_fibers i ≡ some (some f)))

IsRunning-Adds :
    (y : Crew) (i f : ℕ) (t : Task) (fiber callback : Option ℕ)
    → t.fiber ≡ fiber
    → get_elem? y.pool.hands i ≡ some (in_task t)
    → RunsIn y i f fiber callback
    → Adds y i f
IsRunning-Adds y i f t (some g) callback e at same =
    inl (in_task t, at, rw (e, same) (ground arith))
IsRunning-Adds y i f t none (some n) e at has = inr has
IsRunning-Adds y i f t none none e at has = absurd has

-- However the threads' steps interleave, no two threads run the same fiber, be it the fiber of a
-- task or the callback_fiber that runs a callback, if no fiber is there twice at the start and
-- callers schedule only fibers that the scheduler does not have, queued, with a thread or as a
-- thread's callback_fiber; a fiber that `new` gives is none of these.
pub runs_once :
    {tids : ℕ → ℕ} (x y : Crew) (steps : CrewSteps tids x y) (i j f : ℕ)
    → AllFresh steps
    → IsUnique x
    → i ≢ j
    → IsRunning y i f
    → ¬ IsRunning y j f
runs_once x y steps i j f fresh unique ne (t, at, runs) (u, at', runs') =
    let one = Steps-IsUnique x y steps fresh unique f in
    let bag = count-pool_jobs (fiber_job f) y.pool in
    let w : Hand → ℕ = λ h. count (fiber_job f) (hand_jobs h) in
    let mine : is_fiber f (some f) ≡ 1 = ground arith in
    elim (IsRunning-Adds y i f t t.fiber t.callback refl at runs) [
      | inl (h, there, is_one) ↦ elim (IsRunning-Adds y j f u u.fiber u.callback refl at' runs') [
        | inl (k, there', is_one') ↦
            omega (arith, one, bag, is_one, is_one', total_ge_two w y.pool.hands ne there there')
        | inr has ↦ omega (
          arith,
          one,
          bag,
          is_one,
          mine,
          total_ge w y.pool.hands i there,
          total_ge (is_fiber f) y.callback_fibers j has,
        )
      ]
      | inr had ↦ elim (IsRunning-Adds y j f u u.fiber u.callback refl at' runs') [
        | inl (k, there', is_one') ↦ omega (
          arith,
          one,
          bag,
          is_one',
          mine,
          total_ge w y.pool.hands j there',
          total_ge (is_fiber f) y.callback_fibers i had,
        )
        | inr has ↦ omega (arith, one, mine, total_ge_two (is_fiber f) y.callback_fibers ne had has)
      ]
    ]
