-- ===== src/Scheduler/Dispatch.antt =====
-- The part of a round of Scheduler::run behind its critical section (components/scheduler.cpp).
use web_framework.Base.{
  ℕ, ◌+◌, ◌≡◌, refl, ap, inl, inr, true, ◌||◌, ◌-◌, Bool, false, Option, Option-cases, Bool-cases,
  not, List, [], ◌∷◌, ◌++◌, append-nil, none, some, if◌then◌else◌, arith,
}
use web_framework.Fiber.{State}
use web_framework.Scheduler.{
  Task, Scheduler, may_run, continues, breaks, dispatch, fiber_task, is_ready, is_term, is_except,
  after_callback,
}

-- Every state passes the test before a fiber is run, those of ended fibers too: the two halves are
-- joined by "or".
pub may_run_always : (state : State) → may_run state ≡ true
unfolding may_run
may_run_always _ = ground arith

-- The scheduler with a task taken out.
abbrev pub without : Scheduler → List Task → Scheduler
without s rest = record s { fibers = rest; active = s.active + 1 }

-- The fiber of a task, if it has one, has not ended.
abbrev pub is_alive : (ℕ → State) → Task → Bool
is_alive state t = of_fiber t.fiber
  where
    of_fiber : Option ℕ → Bool
    of_fiber none = true
    of_fiber (some f) = not (is_term (state f) || is_except (state f))

module _ (state back : ℕ → State) (callback_fiber : ℕ) (idle_state : State) where
  pub dispatch_fiber :
      (s : Scheduler) (q : List Task) (t : Task) (f : ℕ)
      → t.fiber ≡ some f
      → (is_term (state f) || is_except (state f)) ≡ false
      → dispatch state back callback_fiber idle_state (without s q) (some t)
        ≡ some (
          record s { fibers = q ++ (if is_ready (back f) then fiber_task f ∷ [] else []) },
          continues,
        )
  unfolding dispatch
  dispatch_fiber s q t f e alive = ground (arith, append-nil q)

  pub dispatch_task :
      (s : Scheduler) (q : List Task) (t : Task)
      → is_alive state t ≡ true
      → (s' : Scheduler) × (dispatch state back callback_fiber idle_state (without s q) (some t)
          ≡ some (s', continues))
        × (s'.active ≡ s.active)
        × (s'.idle ≡ s.idle)
  unfolding dispatch
  dispatch_task s q t alive = elim (Option-cases t.fiber) [
    | inr (f, e) ↦
        let on : (is_term (state f) || is_except (state f)) ≡ false =
          ground (arith, rw e at alive) in
        (
          record s { fibers = q ++ (if is_ready (back f) then fiber_task f ∷ [] else []) },
          dispatch_fiber s q t f e on,
          refl,
          refl,
        )
    | inl e ↦ elim (Option-cases t.callback) [
      | inl e' ↦
          (record s { fibers = q; active = s.active + 1 - 1 }, rw (e, e') refl, ground arith, refl)
      | inr (c, e') ↦
          let out = after_callback (without s q) callback_fiber (back callback_fiber) in
          (out.0, rw (e, e') refl, ground arith, ground arith)
    ]
  ]

  pub dispatch_ended :
      (s : Scheduler) (q : List Task) (t : Task)
      → is_alive state t ≡ false
      → dispatch state back callback_fiber idle_state (without s q) (some t) ≡ none
  unfolding dispatch
  dispatch_ended s q t ended = elim (Option-cases t.fiber) [
    | inl e ↦ let off = rw e at ended in cc
    | inr (f, e) ↦
        let over : (is_term (state f) || is_except (state f)) ≡ true =
          ground (arith, rw e at ended) in
        rw (e, may_run_always (state f), over) refl
  ]

  -- While idle_fiber runs m_idleThreadCount is one more; then it is what it was.
  pub dispatch-none :
      (s : Scheduler)
      → dispatch state back callback_fiber idle_state s none
        ≡ some (s, if is_term idle_state then breaks else continues)
  unfolding dispatch
  dispatch-none s = elim (Bool-cases (is_term idle_state)) [
    | inl ended ↦ rw ended refl
    | inr on ↦
        let counted : s.idle + 1 - 1 ≡ s.idle = omega arith in
        rw on (ap (λ n. some (record s { idle = n }, continues)) counted)
  ]
