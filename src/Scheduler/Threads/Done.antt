-- ===== src/Scheduler/Threads/Done.antt =====
-- What is left to do when stopping() is true, with several threads (components/scheduler.cpp).
use mathlib.Core.Quot
use web_framework.Base.{
  ℕ, ◌≡◌, refl, sym, ap, ◌∙◌, true, not, List, [], ◌∷◌, ◌++◌, all, is_empty, arith, total,
}
use web_framework.Scheduler.{Task, is_stopping}
use web_framework.Scheduler.Threads.{Hand, between, in_task, before_schedule, Pool, Steps}
use web_framework.Scheduler.Threads.Count.{weight, is_in_task, stopping_iff_quiet}
use web_framework.Scheduler.Threads.Jobs.{Job, fiber_job, queue_jobs, all_hand_jobs, jobs}

-- The fibers that threads are about to queue.
abbrev pub about_to_queue : List Hand → List Job
about_to_queue [] = []
about_to_queue (between ∷ hs) = about_to_queue hs
about_to_queue (in_task t ∷ hs) = about_to_queue hs
about_to_queue (before_schedule f ∷ hs) = fiber_job f ∷ about_to_queue hs

all_hand_jobs-about_to_queue :
    (hs : List Hand)
    → all (λ h. not (is_in_task h)) hs ≡ true
    → all_hand_jobs hs ≡ about_to_queue hs
all_hand_jobs-about_to_queue [] h = refl
all_hand_jobs-about_to_queue (between ∷ hs) h = all_hand_jobs-about_to_queue hs h
all_hand_jobs-about_to_queue (in_task t ∷ hs) h = cc
all_hand_jobs-about_to_queue (before_schedule f ∷ hs) h =
    ap (◌∷◌ (fiber_job f)) (all_hand_jobs-about_to_queue hs h)

queue_jobs-none : (q : List Task) → is_empty q ≡ true → queue_jobs q ≡ []
queue_jobs-none [] h = refl
queue_jobs-none (t ∷ q) h = cc

-- However the threads' steps interleave, when stopping() is true the scheduler has none of the jobs
-- that were scheduled, queued or with a thread, but for the fibers that came back ready and that
-- their threads are about to queue again. A job that came back in any other state, ended or held,
-- is not the scheduler's any more.
pub stopping-jobs :
    (tids : ℕ → ℕ) (p q : Pool)
    → p.scheduler.active ≡ total weight p.hands
    → Steps tids p q
    → is_stopping q.scheduler ≡ true
    → jobs q ≡ Quot.mk (about_to_queue q.hands)
stopping-jobs tids p q counted steps stopping =
    let quiet = sym (stopping_iff_quiet tids p q counted steps) ∙ stopping in
    let empty : is_empty q.scheduler.fibers ≡ true = ground arith in
    let idle : all (λ h. not (is_in_task h)) q.hands ≡ true = ground arith in
    ap Quot.mk (
      ap (λ js. js ++ all_hand_jobs q.hands) (queue_jobs-none q.scheduler.fibers empty)
      ∙ all_hand_jobs-about_to_queue q.hands idle)
