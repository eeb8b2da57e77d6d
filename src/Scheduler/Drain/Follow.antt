-- ===== src/Scheduler/Drain/Follow.antt =====
-- The loop of run on the fibers of its thread, beside the loop on abstract fibers
-- (components/scheduler.cpp, components/fiber.cpp).
use web_framework.Base.{
  ℕ, zero, suc, ◌+◌, ◌-◌, ◌≤◌, ◌≡◌, refl, sym, ap, subst, ◌∙◌, inl, inr, Bool, true, false, ◌||◌,
  List, Option, none, some, get_elem?, arith, all, Bool-cases, Option-cases, >>=-eq-some,
}
use web_framework.Fiber.{State, init, Thread, ok, is_exec}
use web_framework.Scheduler.{
  Task, Scheduler, is_stopping, is_term, is_except, is_running, take_task, dispatch, round, Ended,
  continues, breaks,
}
use web_framework.Scheduler.Pick.{take_task-TakenOut}
use web_framework.Scheduler.Run.{next_idle}
use web_framework.Scheduler.Drain.{
  Fibers, back_of, resume, update, is_live, after_taken, loop, queue_of, is_distinct, all_live,
  work, IsStopped,
}
use web_framework.Scheduler.Drain.Ends.{loop_ends}
use web_framework.Scheduler.Drain.Switch.{states_of, switched, swap_in-resume}
use web_framework.Scheduler.Drain.Store.{
  fibers_of, yields_after, switch_to, loop_on, IsHome, IsHome-switched,
}

-- The task is not that of a fiber that runs.
abbrev IsIdle : Thread → Option Task → Type 0
IsIdle t none = Unit
IsIdle t (some task) = is_running (states_of t) task ≡ false

-- What switch_to gives where the loop on abstract fibers goes on.
abbrev Follows : ℕ → Thread → (ℕ → ℕ) → Option Task → Fibers → Type 0
Follows m t yields task y =
    (v : Thread) × (switch_to t yields task ≡ ok v)
    × IsHome m v
    × (fibers_of v (yields_after yields task) ≡ y)

module _ (m : ℕ) (t : Thread) (yields : ℕ → ℕ) (y : Fibers) (home : IsHome m t) where
  Follows-fiber :
      (task : Task) (f : ℕ)
      → task.fiber ≡ some f
      → is_running (states_of t) task ≡ false
      → after_taken (fibers_of t yields) (some task) ≡ some y
      → Follows m t yields (some task) y
  unfolding switch_to is_running
  Follows-fiber task f e idle h = elim (Option-cases (get_elem? t.fibers f)) [
    | inl missing ↦ let off = rw (e, missing) at h in cc
    | inr (g, at) ↦ elim (Bool-cases (is_term g.state || is_except g.state)) [
      | inl ended ↦ let off = rw (e, at, ended) at h in cc
      | inr going ↦
          let stands : is_exec g.state ≡ false = rw (e, at) at idle in
          let live : is_live g.state ≡ true = ground arith in
          let (run, states) =
            swap_in-resume t f m g yields at live (home.entries f g at live) home.main in
          let same : resume (fibers_of t yields) f ≡ y = cc (rw (e, at, going) at h) in
          let v = switched t f m g (yields f) in
          (
            v,
            rw (e, at, going) run,
            IsHome-switched m f (yields f) t g home at live,
            rw e (
                ap (λ st. record { state = st; yields = update yields f (yields f - 1) }) states
                ∙ same),
          )
    ]
  ]

  Follows-task :
      (task : Option Task)
      → IsIdle t task
      → after_taken (fibers_of t yields) task ≡ some y
      → Follows m t yields task y
  unfolding switch_to
  Follows-task none idle h = (t, refl, home, cc)
  Follows-task (some task) idle h = elim (Option-cases task.fiber) [
    | inl e ↦ (t, rw e refl, home, rw e (cc (rw e at h)))
    | inr (f, e) ↦ Follows-fiber task f e idle h
  ]

take_task-IsIdle :
    (tid : ℕ) (t : Thread) (s s' : Scheduler) (k : Bool) (task : Option Task)
    → take_task tid (states_of t) s ≡ some (s', k, task)
    → IsIdle t task
take_task-IsIdle tid t s s' k none e = tt
take_task-IsIdle tid t s s' k (some task) e =
    (take_task-TakenOut tid (states_of t) s s' k task e).0.idle

-- How the loop on the thread ends where the loop on abstract fibers ends in `u` and `z`.
abbrev EndsAs : ℕ → Option (Scheduler × Thread) → Scheduler → Fibers → Type 0
EndsAs m result u z =
    (v : Thread) × (result ≡ some (u, v)) × (states_of v ≡ z.state) × (v.running ≡ some m)

module _ (m : ℕ) (rest : Fibers → Option (Scheduler × Fibers)) (s u : Scheduler) (z : Fibers) where
  EndsAs-round :
      (ended : Ended) (v : Thread) (yields : ℕ → ℕ) (y : Fibers)
      (rest_on : Option (Scheduler × Thread))
      → IsHome m v
      → fibers_of v yields ≡ y
      → (rest (fibers_of v yields) ≡ some (u, z) → EndsAs m rest_on u z)
      → elim ended [ breaks ↦ some (s, y) | continues ↦ rest y ] ≡ some (u, z)
      → EndsAs m (elim ended [ breaks ↦ some (s, v) | continues ↦ rest_on ]) u z
  EndsAs-round breaks v yields y rest_on home same later h =
      let over : s ≡ u = cc in
      let left : y ≡ z = cc in
      (v, ap (λ x. some (x, v)) over, ap (λ x. x.state) (same ∙ left), home.runs)
  EndsAs-round continues v yields y rest_on home same later h = later (ap rest same ∙ h)

-- One round of the loop.
loop_on-round :
    (fuel tid c : ℕ) (t v : Thread) (yields : ℕ → ℕ) (idle : State) (s s₁ s' : Scheduler) (k : Bool)
    (task : Option Task) (ended : Ended) (tickles : ℕ)
    → take_task tid (states_of t) s ≡ some (s₁, k, task)
    → round tid (states_of t) (back_of (fibers_of t yields)) c idle s ≡ some (s', ended, tickles)
    → switch_to t yields task ≡ ok v
    → loop_on (suc fuel) tid c t yields idle s ≡ elim ended [
      | breaks ↦ some (s', v)
      | continues ↦
          loop_on fuel tid c v (yields_after yields task) (next_idle tid (states_of t) idle s) s'
    ]
unfolding loop_on round
loop_on-round fuel tid c t v yields idle s s₁ s' k task ended tickles taken gone switches =
    let ((s'', ended'), out, last) =
      >>=-eq-some (dispatch (states_of t) (back_of (fibers_of t yields)) c idle s₁ task) _
        (rw taken at gone) in
    let same_s : s'' ≡ s' = cc in
    let same_ended : ended' ≡ ended = cc in
    let goes_on : Scheduler → Ended → Option (Scheduler × Thread) = λ u e. elim e [
      | breaks ↦ some (u, v)
      | continues ↦
          loop_on fuel tid c v (yields_after yields task) (next_idle tid (states_of t) idle s) u
    ] in
    rw (taken, switches, out)
      (ap (λ u. goes_on u ended') same_s ∙ ap (λ e. goes_on s' e) same_ended)

-- The loop of run on the fibers of its thread does what the loop on abstract fibers does: where that
-- returns it returns, with the same scheduler and the same states of the fibers, and the thread's
-- main fiber runs again.
pub loop_on-loop :
    (fuel tid c m : ℕ) (t : Thread) (yields : ℕ → ℕ) (idle : State) (s u : Scheduler) (z : Fibers)
    → IsHome m t
    → loop fuel tid c (fibers_of t yields) idle s ≡ some (u, z)
    → (v : Thread) × (loop_on fuel tid c t yields idle s ≡ some (u, v))
      × (states_of v ≡ z.state)
      × (v.running ≡ some m)
unfolding loop
loop_on-loop zero tid c m t yields idle s u z home h = cc
loop_on-loop (suc fuel) tid c m t yields idle s u z home h =
    let y = fibers_of t yields in
    let ((s₁, k, task), taken, h₁) = >>=-eq-some (take_task tid y.state s) _ h in
    let ((s', ended, k'), gone, h₂) = >>=-eq-some (round tid y.state (back_of y) c idle s) _ h₁ in
    let (y', after, h₃) = >>=-eq-some (after_taken y task) _ h₂ in
    let (v, switches, home', same) =
      Follows-task m t yields y' home task (take_task-IsIdle tid t s s₁ k task taken) after in
    let later =
      loop_on-loop fuel tid c m v (yields_after yields task) (next_idle tid y.state idle s) s' u z
        home' in
    subst (λ r. EndsAs m r u z)
      (sym (loop_on-round fuel tid c t v yields idle s s₁ s' k task ended k' taken gone switches))
      (EndsAs-round m (λ x. loop fuel tid c x (next_idle tid y.state idle s) s') s' u z ended v
        (yields_after yields task) y' _ home' same later h₃)

-- After stop was called, a thread whose main fiber runs the loop of run with the queue to itself
-- works off a queue of fibers, for this thread or for any, of which none is queued twice, none runs
-- or has ended, each runs MainFunc (no fiber with use_caller), and each ends after some number of
-- yields by YieldToReady: the loop breaks, with the scheduler stopping, each queued fiber is in the
-- state TERM, and the main fiber runs again.
pub loop_on_ends :
    (fuel tid c m : ℕ) (t : Thread) (yields : ℕ → ℕ) (s : Scheduler) (plan : List (Bool × ℕ))
    → IsHome m t
    → s.fibers ≡ queue_of tid plan
    → is_distinct plan ≡ true
    → all_live (fibers_of t yields) plan ≡ true
    → IsStopped s
    → work (fibers_of t yields) plan + 2 ≤ fuel
    → (u : Scheduler) × (v : Thread) × (loop_on fuel tid c t yields init s ≡ some (u, v))
      × (is_stopping u ≡ true)
      × (all (λ p. is_term (states_of v p.1)) plan ≡ true)
      × (v.running ≡ some m)
loop_on_ends fuel tid c m t yields s plan home queued distinct live stopped enough =
    let (u, z, runs, d) =
      loop_ends fuel tid c (fibers_of t yields) s plan queued distinct live stopped enough in
    let (v, runs_on, states, runs_main) = loop_on-loop fuel tid c m t yields init s u z home runs in
    (
      u,
      v,
      runs_on,
      d.stopped,
      subst (λ st. all (λ p. is_term (st p.1)) plan ≡ true) (sym states) d.ended,
      runs_main,
    )
