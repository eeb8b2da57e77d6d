-- ===== src/Scheduler/Threads/Rounds.antt =====
-- A round of Scheduler::run (components/scheduler.cpp) as steps of one thread.
use web_framework.Base.{
  ℕ, zero, suc, ◌≡◌, ◌⊎◌, Bool, List, [], ◌∷◌, Option, ◌||◌, none, some, get_elem?, set, arith,
  Bool-cases, Option-cases, inl, inr, refl, ap, ◌∙◌, subst, get_elem?-set_known,
}
use web_framework.Fiber.{State}
use web_framework.Scheduler.{
  Task, Scheduler, schedule, take_task, take_picked, pick, Picked, picked, assertion_failed,
  fiber_task, is_ready, is_term, is_except, round, dispatch, after_fiber, after_callback, Ended,
}
use web_framework.Scheduler.Dispatch.{may_run_always, dispatch-none}
use web_framework.Scheduler.Threads.{
  Hand, between, in_task, before_schedule, Pool, hand_after, count_down, Step, takes, comes_back,
  requeues, schedules, sets_auto_stop, sets_stopping, Steps, none_yet, later,
}

set-set : (hs : List Hand) (i : ℕ) (u v : Hand) → set (set hs i u) i v ≡ set hs i v
set-set [] i u v = refl
set-set (h ∷ hs) zero u v = refl
set-set (h ∷ hs) (suc i) u v = ap (◌∷◌ h) (set-set hs i u v)

set_same : (hs : List Hand) (i : ℕ) (h : Hand) → get_elem? hs i ≡ some h → set hs i h ≡ hs
set_same [] i h e = refl
set_same (x ∷ hs) zero h e = cc
set_same (x ∷ hs) (suc i) h e = ap (◌∷◌ x) (set_same hs i h e)

-- The fiber that runs in a round which takes task `t`; `c` is the thread's callback_fiber.
abbrev pub runner : Task → ℕ → ℕ
runner t c = by_kind t.fiber
  where
    by_kind : Option ℕ → ℕ
    by_kind (some f) = f
    by_kind none = c

-- A step of thread `i` itself, where the fiber of a task comes back in its state in `back`.
abbrev pub IsOwn : {tids : ℕ → ℕ} {p q : Pool} → ℕ → ℕ → (ℕ → State) → Step tids p q → Type 0
IsOwn i c back (takes j state at e) = j ≡ i
IsOwn i c back (comes_back j d b {t} at) = (j ≡ i) × (d ≡ c) × (b ≡ back (runner t c))
IsOwn i c back (requeues j at) = j ≡ i
IsOwn i c back (schedules t) = ⊥
IsOwn i c back sets_auto_stop = ⊥
IsOwn i c back sets_stopping = ⊥

abbrev pub AllOwn : {tids : ℕ → ℕ} {p q : Pool} → ℕ → ℕ → (ℕ → State) → Steps tids p q → Type 0
AllOwn i c back none_yet = Unit
AllOwn i c back (later before step) = AllOwn i c back before × IsOwn i c back step

-- How a thread in task `t` gets out of it, where that leaves the scheduler `u`.
abbrev Finishes : (ℕ → State) → Task → ℕ → Scheduler → Scheduler → Type 0
Finishes back t c s u =
    let b = back (runner t c) in
    ((hand_after t c b ≡ between) × (count_down s ≡ u))
    ⊎ ((f : ℕ) × (hand_after t c b ≡ before_schedule f)
        × ((schedule (count_down s) (fiber_task f)).0 ≡ u))

dispatch-Finishes :
    (state back : ℕ → State) (c : ℕ) (idle : State) (s u : Scheduler) (t : Task) (ended : Ended)
    → dispatch state back c idle s (some t) ≡ some (u, ended)
    → Finishes back t c s u
unfolding dispatch after_fiber after_callback
dispatch-Finishes state back c idle s u t ended h = elim (Option-cases t.fiber) [
  | inr (f, e) ↦ elim (Bool-cases (is_term (state f) || is_except (state f))) [
    | inl over ↦ let off = rw (e, may_run_always (state f), over) at h in cc
    | inr on ↦ elim (Bool-cases (is_ready (back f))) [
      | inl r ↦
          let out = rw (e, may_run_always (state f), on, r) at h in rw (e, r) (inr (f, refl, cc))
      | inr r ↦ let out = rw (e, may_run_always (state f), on, r) at h in rw (e, r) (inl (refl, cc))
    ]
  ]
  | inl e ↦ elim (Option-cases t.callback) [
    | inl e' ↦ let out = rw (e, e') at h in rw (e, e') (inl (refl, cc))
    | inr (n, e') ↦ elim (Bool-cases (is_ready (back c))) [
      | inl r ↦ let out = rw (e, e', r) at h in rw (e, e', r) (inr (c, refl, cc))
      | inr r ↦ let out = rw (e, e', r) at h in rw (e, e', r) (inl (refl, ground (arith, out)))
    ]
  ]
]

-- Steps of thread `i` alone.
abbrev pub OwnSteps : (ℕ → ℕ) → ℕ → ℕ → (ℕ → State) → Pool → Pool → Type 0
OwnSteps tids i c back p q = (steps : Steps tids p q) × AllOwn i c back steps

OwnSteps-same :
    {tids : ℕ → ℕ} {i c : ℕ} {back : ℕ → State} {p : Pool} (s u : Scheduler) (hs gs : List Hand)
    → s ≡ u
    → hs ≡ gs
    → OwnSteps tids i c back p (record { scheduler = s; hands = hs })
    → OwnSteps tids i c back p (record { scheduler = u; hands = gs })
OwnSteps-same {tids} {i} {c} {back} {p} s u hs gs e e' steps =
    subst (λ x. OwnSteps tids i c back p (record { scheduler = u; hands = x })) e'
      (subst (λ x. OwnSteps tids i c back p (record { scheduler = x; hands = hs })) e steps)

take_picked-none :
    (s u : Scheduler) (k : Bool) (p : Picked) → take_picked s p ≡ some (u, k, none) → s ≡ u
unfolding take_picked
take_picked-none s u k (picked j none q) e = cc
take_picked-none s u k (picked j (some t) q) e = cc
take_picked-none s u k assertion_failed e = cc

module _ (tids : ℕ → ℕ) (hands : List Hand) (i : ℕ) where
  OwnSteps-Finishes :
      {p : Pool} (t : Task) (c : ℕ) (back : ℕ → State) (s u : Scheduler)
      → get_elem? hands i ≡ some between
      → OwnSteps tids i c back p (record { scheduler = s; hands = set hands i (in_task t) })
      → Finishes back t c s u
      → OwnSteps tids i c back p (record { scheduler = u; hands = hands })
  OwnSteps-Finishes {p} t c back s u at (steps, own) out =
      let b = back (runner t c) in
      let inside = set hands i (in_task t) in
      let outside = set inside i (hand_after t c b) in
      let here = get_elem?-set_known hands i (in_task t) at in
      let same : set inside i between ≡ hands =
        set-set hands i (in_task t) between ∙ set_same hands i between at in
      let gone : OwnSteps tids i c back p (record { scheduler = count_down s; hands = outside }) =
        (later steps (comes_back i c b here), (own, (refl, refl, refl))) in
      elim out [
        | inl (e, e') ↦
            OwnSteps-same (count_down s) u outside hands e' (ap (set inside i) e ∙ same) gone
        | inr (f, e, e') ↦
            let there : get_elem? outside i ≡ some (before_schedule f) =
              get_elem?-set_known inside i (hand_after t c b) here ∙ ap some e in
            OwnSteps-same (schedule (count_down s) (fiber_task f)).0 u (set outside i between) hands
              e' (set-set inside i (hand_after t c b) between ∙ same)
              (later gone.0 (requeues i there), (gone.1, refl))
      ]

  -- A round of run that nothing interrupts and that returns is a sequence of steps, all of the one
  -- thread and none a call of schedule from outside, that leads from between two rounds to between
  -- two rounds, where the fiber that ran comes back in the state that the round has for it: what
  -- holds of all interleavings of the steps holds of the round.
  pub round-OwnSteps :
      (state back : ℕ → State) (c k : ℕ) (idle : State) (s s' : Scheduler) (ended : Ended)
      → get_elem? hands i ≡ some between
      → round (tids i) state back c idle s ≡ some (s', ended, k)
      → OwnSteps tids i c back
          (record { scheduler = s; hands = hands })
          (record { scheduler = s'; hands = hands })
  unfolding round take_task
  round-OwnSteps state back c k idle s s' ended at e =
      elim (Option-cases (take_task (tids i) state s)) [
        | inl none_taken ↦ let off = rw none_taken at e in cc
        | inr ((u, tickle_me, none), taken) ↦
            let same : u ≡ s' = cc (rw (taken, dispatch-none state back c idle u) at e) in
            OwnSteps-same s s' hands hands
              (take_picked-none s u tickle_me (pick (tids i) state s.fibers) taken ∙ same) refl
              (none_yet, tt)
        | inr ((u, tickle_me, some t), taken) ↦
            elim (Option-cases (dispatch state back c idle u (some t))) [
              | inl fails ↦ let off = rw (taken, fails) at e in cc
              | inr ((v, stop), out) ↦
                  let same : v ≡ s' = cc (rw (taken, out) at e) in
                  OwnSteps-same v s' hands hands same refl (
                    OwnSteps-Finishes t c back u v at
                      (later none_yet (takes i state at taken), (tt, refl))
                      (dispatch-Finishes state back c idle u v t stop out))
            ]
      ]
