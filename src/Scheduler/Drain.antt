-- ===== src/Scheduler/Drain.antt =====
-- The loop of Scheduler::run on one thread with fibers that end (components/scheduler.cpp,
-- components/fiber.cpp): a fiber yields by YieldToReady a number of times, and then returns.
pub mod Plan
pub mod Ends
pub mod Switch
pub mod Store
pub mod Follow
use web_framework.Base.{
  ℕ, zero, suc, ◌+◌, ◌-◌, ◌≤◌, ◌<◌, ◌≡◌, ◌≢◌, refl, sym, ap, subst, ◌∙◌, inl, inr, Bool, true,
  false, not, ◌&&◌, ◌||◌, List, [], ◌∷◌, ◌++◌, Option, none, some, all, all-append, is_some,
  is_empty, if◌then◌else◌, ◌==◌, ==_iff, ◌>>=◌, arith, Bool-cases, Option-cases, append-nil,
}
use web_framework.Fiber.{State, init, hold, exec, term, ready, except, is_exec}
use web_framework.Scheduler.{
  Task, Scheduler, schedule, is_foreign, is_running, pick, take_picked, take_task, dispatch, round,
  Ended, continues, breaks, fiber_task, is_stopping, idle_round, is_term, is_except, state_after,
  after_fiber,
}
use web_framework.Scheduler.Run.{next_idle, stopping_empty}

-- The fibers' states, and how often each will yield.
pub record Fibers : Type 0 where
  pub state : ℕ → State
  pub yields : ℕ → ℕ

-- The state in which a fiber comes back from swapIn.
abbrev pub back_of : Fibers → ℕ → State
back_of y f = if y.yields f == 0 then term else ready

abbrev pub update {ℓ} : {A : Type ℓ} → (ℕ → A) → ℕ → A → ℕ → A
update g f a i = if i == f then a else g i

-- The fibers after one of them has run.
abbrev pub resume : Fibers → ℕ → Fibers
resume y f = record {
  state = update y.state f (state_after (back_of y f));
  yields = update y.yields f (y.yields f - 1);
}

-- The fibers after a round; `none` is the assertion "never reach" of a fiber that had ended.
abbrev pub after_taken : Fibers → Option Task → Option Fibers
after_taken y none = some y
after_taken y (some t) = elim t.fiber [
  | none ↦ some y
  | some f ↦ if is_term (y.state f) || is_except (y.state f) then none else some (resume y f)
]

-- The loop of run, round by round, with fuel.
unfoldable pub loop : ℕ → ℕ → ℕ → Fibers → State → Scheduler → Option (Scheduler × Fibers)
unfolding round next_idle take_task
loop zero tid c y idle s = none
loop (suc fuel) tid c y idle s = do
  (s₁, tickle_me, task) ← take_task tid y.state s
  (s', ended, tickles) ← round tid y.state (back_of y) c idle s
  y' ← after_taken y task
  elim ended [
    | breaks ↦ some (s', y')
    | continues ↦ loop fuel tid c y' (next_idle tid y.state idle s) s'
  ]

-- A fiber queued for thread `tid`, or for any thread.
abbrev pub own_task : ℕ → Bool × ℕ → Task
own_task tid (bound, f) = record {
  fiber = some f;
  callback = none;
  thread = if bound then some tid else none;
}

abbrev pub queue_of : ℕ → List (Bool × ℕ) → List Task
queue_of tid [] = []
queue_of tid (p ∷ plan) = own_task tid p ∷ queue_of tid plan

-- A fiber that may be switched to and has not ended.
abbrev pub is_live : State → Bool
is_live s = not (is_exec s) && (not (is_term s) && not (is_except s))

abbrev pub all_live : Fibers → List (Bool × ℕ) → Bool
all_live y plan = all (λ p. is_live (y.state p.1)) plan

abbrev pub is_absent : ℕ → List (Bool × ℕ) → Bool
is_absent f plan = all (λ p. not (p.1 == f)) plan

abbrev pub is_distinct : List (Bool × ℕ) → Bool
is_distinct [] = true
is_distinct (p ∷ plan) = is_absent p.1 plan && is_distinct plan

-- A round for each yield and each end.
abbrev pub work : Fibers → List (Bool × ℕ) → ℕ
work y [] = 0
work y (p ∷ plan) = suc (y.yields p.1) + work y plan

-- stop was called, and no task is active.
pub record IsStopped (s : Scheduler) : Type 0 where
  pub auto : s.auto_stop ≡ true
  pub stop : s.stopping ≡ true
  pub quiet : s.active ≡ 0

idle_round-term : (s : Scheduler) → is_stopping s ≡ true → idle_round s ≡ term
unfolding idle_round
idle_round-term s h = ground arith

take_task-own_task :
    (tid : ℕ) (state : ℕ → State) (s : Scheduler) (p : Bool × ℕ) (rest : List Task)
    → s.fibers ≡ own_task tid p ∷ rest
    → is_live (state p.1) ≡ true
    → take_task tid state s
      ≡ some (record s { fibers = rest; active = s.active + 1 }, false, some (own_task tid p))
unfolding take_task pick take_picked is_running is_foreign
take_task-own_task tid state s p rest e h = rw e (ground arith)

module _ (tid c : ℕ) (y : Fibers) (idle : State) (s : Scheduler) (p : Bool × ℕ) (rest : List Task)
    (e : s.fibers ≡ own_task tid p ∷ rest) (h : is_live (y.state p.1) ≡ true) where
  -- The scheduler after the round that takes the first fiber.
  abbrev pub after_round : Scheduler
  after_round = record s {
    fibers = rest ++ (if y.yields p.1 == 0 then [] else own_task tid (false, p.1) ∷ []);
    active = s.active + 1 - 1;
  }

  dispatch-own_task :
      dispatch y.state
        (back_of y)
        c
        idle
        (record s { fibers = rest; active = s.active + 1 })
        (some (own_task tid p))
      ≡ some (after_round, continues)
  unfolding dispatch
  dispatch-own_task =
      let going : (is_term (y.state p.1) || is_except (y.state p.1)) ≡ false = ground arith in
      elim (Bool-cases (y.yields p.1 == 0)) [
        | inl done ↦ rw (done, going) (ground (arith, append-nil rest))
        | inr more ↦ rw (more, going) (ground arith)
      ]

  next_idle-own_task : next_idle tid y.state idle s ≡ idle
  unfolding next_idle
  next_idle-own_task = rw (take_task-own_task tid y.state s p rest e h) refl

  pub loop-own_task :
      (fuel : ℕ) → loop (suc fuel) tid c y idle s ≡ loop fuel tid c (resume y p.1) idle after_round
  unfolding loop
  loop-own_task fuel =
      let going : (is_term (y.state p.1) || is_except (y.state p.1)) ≡ false = ground arith in
      rw (take_task-own_task tid y.state s p rest e h)
        (rw (dispatch-own_task, going, next_idle-own_task) refl)

next_idle-stopping :
    (tid : ℕ) (state : ℕ → State) (s : Scheduler)
    → is_stopping s ≡ true
    → next_idle tid state init s ≡ term
unfolding next_idle
next_idle-stopping tid state s done = rw (stopping_empty tid state s done) (idle_round-term s done)

-- With an empty queue idle_fiber runs once and the loop ends.
pub loop-empty :
    (tid c fuel : ℕ) (y : Fibers) (s : Scheduler)
    → IsStopped s
    → s.fibers ≡ []
    → loop (suc (suc fuel)) tid c y init s ≡ some (s, y)
unfolding loop is_stopping
loop-empty tid c fuel y s h e =
    let done : is_stopping s ≡ true = ground (arith, h.auto, h.stop, h.quiet) in
    let taken = stopping_empty tid y.state s done in
    let counted : s.idle + 1 - 1 ≡ s.idle = omega arith in
    rw (taken, counted, next_idle-stopping tid y.state s done, taken) refl
