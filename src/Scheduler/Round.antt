-- ===== src/Scheduler/Round.antt =====
-- A round of Scheduler::run (components/scheduler.cpp): the count of active tasks, the queue, and
-- the end of the loop.
use web_framework.Base.{
  ℕ, ◌≡◌, refl, ap, inl, inr, ◌↔◌, ◌||◌, false, Bool-cases, [], ◌∷◌, ◌++◌, any, all-append, none,
  some, is_some, is_empty, if◌then◌else◌, arith,
}
use web_framework.Fiber.{State}
use web_framework.Scheduler.{
  Task, Scheduler, schedule, schedule_no_lock, is_foreign, continues, take_picked, take_task, round,
  fiber_task, is_ready, is_term, is_except,
}
use web_framework.Scheduler.Pick.{IsFilled, Taken}
use web_framework.Scheduler.Dispatch.{
  without, is_alive, dispatch_fiber, dispatch_task, dispatch_ended,
}

-- A queue with no empty task stays so under `schedule`: an empty task is not queued. A tickle is sent
-- exactly if the queue was empty.
pub schedule_lem :
    (s : Scheduler) (task : Task)
    → IsFilled s.fibers
    → let (s', tickles) = schedule s task in
      IsFilled s'.fibers
      × (s'.fibers ≡ (
          if is_some task.fiber || is_some task.callback then s.fibers ++ task ∷ [] else s.fibers))
      × (tickles ≡ (if is_empty s.fibers then 1 else 0))
      × (s'.active ≡ s.active)
unfolding schedule schedule_no_lock
schedule_lem s task h = (
  ground (arith, all-append (λ t. is_some t.fiber || is_some t.callback) s.fibers (task ∷ [])),
  ground arith,
  ground arith,
  ground arith,
)

take_task-Taken :
    (tid : ℕ) (state : ℕ → State) (s : Scheduler) (taken : Taken tid state s.fibers)
    → take_task tid state s
      ≡ some (
        without s (taken.before ++ taken.after),
        any (is_foreign tid) taken.before,
        some taken.task,
      )
unfolding take_task
take_task-Taken tid state s taken = ap (take_picked s) taken.result

module _ (tid : ℕ) (state back : ℕ → State) (callback_fiber : ℕ) (idle_state : State)
    (s : Scheduler) where
  -- A round that takes a task of a fiber that has not ended: the count of active tasks is again what it was, the thread
  -- goes on, and the queue is the old one without the task, with the fiber at its end exactly if it
  -- came back ready. A tickle is sent exactly if a task of another thread stood before it.
  pub round_fiber :
      (taken : Taken tid state s.fibers) (f : ℕ)
      → taken.task.fiber ≡ some f
      → (is_term (state f) || is_except (state f)) ≡ false
      → round tid state back callback_fiber idle_state s
        ≡ some (
          record s {
            fibers =
                (taken.before ++ taken.after)
                ++ (if is_ready (back f) then fiber_task f ∷ [] else []);
          },
          continues,
          if any (is_foreign tid) taken.before then 1 else 0,
        )
  unfolding round
  round_fiber taken f e alive =
      rw
        (
          take_task-Taken tid state s taken,
          dispatch_fiber state back callback_fiber idle_state s (taken.before ++ taken.after)
              taken.task f e alive,
        )
        refl

  -- A round that takes a task runs into an assertion exactly if the task has a fiber and that has
  -- ended: the test of its state before it is run, `!= TERM || != EXCEPT`, keeps no fiber back.
  pub round-none_iff :
      (taken : Taken tid state s.fibers)
      → (round tid state back callback_fiber idle_state s ≡ none)
        ↔ (is_alive state taken.task ≡ false)
  unfolding round
  round-none_iff taken = elim (Bool-cases (is_alive state taken.task)) [
    | inl alive ↦
        let (_, out, _, _) =
          dispatch_task state back callback_fiber idle_state s (taken.before ++ taken.after)
            taken.task alive in
        (
          (λ fails. let off = rw (take_task-Taken tid state s taken, out) at fails in cc),
          (λ ended. cc),
        )
    | inr ended ↦
        let fails =
          dispatch_ended state back callback_fiber idle_state s (taken.before ++ taken.after)
            taken.task ended in
        ((λ _. ended), (λ _. rw (take_task-Taken tid state s taken, fails) refl))
  ]
