-- ===== src/Scheduler/Run.antt =====
-- The loop of Scheduler::run on one thread, and Scheduler::stop (components/scheduler.cpp).
use web_framework.Base.{
  ℕ, ◌+◌, ◌≡◌, refl, sym, ap, subst, ◌∙◌, inl, inr, Bool, true, false, not, ◌&&◌, ◌||◌, List, [],
  ◌∷◌, Option, none, some, is_empty, is_some, if◌then◌else◌, ◌==◌, ◌>>=◌, arith, Bool-cases,
  Option-cases,
}
use web_framework.Fiber.{State, init}
use web_framework.Scheduler.{
  Task, Scheduler, schedule, pick, take_picked, take_task, dispatch, round, Ended, continues,
  breaks, is_stopping, idle_round, is_term,
}
use web_framework.Scheduler.Dispatch.{dispatch-none}

-- The state of idle_fiber after a round: it runs where there was no task to take.
abbrev idle_after : Scheduler → State → Option Task → State
idle_after s idle none = idle_round s
idle_after s idle (some t) = idle

unfoldable pub next_idle : ℕ → (ℕ → State) → State → Scheduler → State
unfolding take_task idle_round
next_idle tid state idle s = by_taken (take_task tid state s)
  where
    by_taken : Option (Scheduler × Bool × Option Task) → State
    by_taken none = idle
    by_taken (some (s', tickle_me, task)) = idle_after s' idle task

-- Runs of the loop that start with idle_fiber in state `idle`, end by `break`, and leave the
-- scheduler `u`. The states of the fibers may change from round to round. A task may schedule others
-- while it runs, which is never when idle_fiber has ended; and stop sets its flags at any time.
pub data Runs (tid : ℕ) (u : Scheduler) : State → Scheduler → Type 0 where
  last :
      {idle : State} {s : Scheduler} (state back : ℕ → State) (c k : ℕ)
      → round tid state back c idle s ≡ some (u, breaks, k)
      → Runs tid u idle s
  next :
      {idle : State} {s s' : Scheduler} (state back : ℕ → State) (c k : ℕ)
      → round tid state back c idle s ≡ some (s', continues, k)
      → Runs tid u (next_idle tid state idle s) s'
      → Runs tid u idle s
  schedules :
      {idle : State} {s : Scheduler} (t : Task)
      → is_term idle ≡ false
      → Runs tid u idle (schedule s t).0
      → Runs tid u idle s
  stops :
      {idle : State} {s : Scheduler}
      → Runs tid u idle (record s { auto_stop = true; stopping = true })
      → Runs tid u idle s

-- The rest of Scheduler::stop behind its early return. `run_root` is what m_rootFiber->call() does
-- and `join_all` what the threads do until all are joined, each `none` where it does not return;
-- `is_this` says whether GetThis() is this scheduler. `none` is a failed assertion, a root fiber that
-- does not come back, or a join that throws or waits for ever; the number is that of the tickles.
unfoldable pub stop_rest :
    (Scheduler → Option Scheduler)
    → (Scheduler → Option Scheduler)
    → Bool
    → Scheduler
    → Option (Scheduler × ℕ)
unfolding is_stopping
stop_rest run_root join_all is_this s =
    if not (if is_some s.root_thread then is_this else not is_this) then none else (do
      let s₁ = record s { stopping = true }
      s₂ ← if is_some s.root_fiber && not (is_stopping s₁) then run_root s₁ else some s₁
      s₃ ← join_all (record s₂ { threads = 0 })
      some (s₃, s.thread_count + (if is_some s.root_fiber then 1 else 0)))

abbrev is_init : State → Bool
is_init init = true
is_init _ = false

-- Scheduler::stop; `root_state` is the state of m_rootFiber.
unfoldable pub stop :
    (Scheduler → Option Scheduler)
    → (Scheduler → Option Scheduler)
    → State
    → Bool
    → Scheduler
    → Option (Scheduler × ℕ)
unfolding stop_rest
stop run_root join_all root_state is_this s =
    let s₁ = record s { auto_stop = true } in
    let s₂ = record s₁ { stopping = true } in
    if is_some s.root_fiber && (s.thread_count == 0 && (is_term root_state || is_init root_state))
    then (if is_stopping s₂ then some (s₂, 0) else stop_rest run_root join_all is_this s₂)
    else stop_rest run_root join_all is_this s₁

take_picked-pick_empty :
    (tid : ℕ) (state : ℕ → State) (s : Scheduler) (q : List Task)
    → is_empty q ≡ true
    → take_picked s (pick tid state q) ≡ some (s, false, none)
unfolding take_picked pick
take_picked-pick_empty tid state s [] h = refl
take_picked-pick_empty tid state s (t ∷ q) h = cc

dispatch_continues :
    (state back : ℕ → State) (c : ℕ) (idle : State) (s u : Scheduler) (t : Task) (ended : Ended)
    → dispatch state back c idle s (some t) ≡ some (u, ended)
    → ended ≡ continues
unfolding dispatch
dispatch_continues state back c idle s u t ended h = ground arith

-- idle_fiber has ended only where the scheduler is stopping.
abbrev IsSound : State → Scheduler → Type 0
IsSound idle s = is_term idle ≡ true → is_stopping s ≡ true

idle_round-IsSound : (s : Scheduler) → IsSound (idle_round s) s
unfolding idle_round
idle_round-IsSound s h = ground arith

pub stopping_empty :
    (tid : ℕ) (state : ℕ → State) (s : Scheduler)
    → is_stopping s ≡ true
    → take_task tid state s ≡ some (s, false, none)
unfolding take_task is_stopping
stopping_empty tid state s h = take_picked-pick_empty tid state s s.fibers (ground arith)

module _ (tid : ℕ) (state back : ℕ → State) (c k : ℕ) (idle : State) (s s' : Scheduler) where
  last-is_stopping :
      round tid state back c idle s ≡ some (s', breaks, k) → IsSound idle s → is_stopping s' ≡ true
  unfolding round
  last-is_stopping h sound = elim (Bool-cases (is_term idle)) [
    | inl ended ↦
        let e = stopping_empty tid state s (sound ended) in
        let same : s ≡ s' = cc (rw (e, dispatch-none state back c idle s, ended) at h) in
        ap is_stopping (sym same) ∙ sound ended
    | inr goes_on ↦ elim (Option-cases (take_task tid state s)) [
      | inl e ↦ let off = rw e at h in cc
      | inr ((t, tickle_me, none), e) ↦
          let off = rw (e, dispatch-none state back c idle t, goes_on) at h in cc
      | inr ((t, tickle_me, some task), e) ↦
          elim (Option-cases (dispatch state back c idle t (some task))) [
            | inl fails ↦ let off = rw (e, fails) at h in cc
            | inr ((u, ended), d) ↦
                let off = rw (e, d) at h in
                cc (off, dispatch_continues state back c idle t u task ended d)
          ]
    ]
  ]

  next-IsSound :
      round tid state back c idle s ≡ some (s', continues, k)
      → IsSound idle s
      → IsSound (next_idle tid state idle s) s'
  unfolding round next_idle
  next-IsSound h sound = elim (Bool-cases (is_term idle)) [
    | inl ended ↦
        let e = stopping_empty tid state s (sound ended) in
        let off = rw (e, dispatch-none state back c idle s, ended) at h in cc
    | inr goes_on ↦ elim (Option-cases (take_task tid state s)) [
      | inl e ↦ let off = rw e at h in cc
      | inr ((t, tickle_me, none), e) ↦
          let same : t ≡ s' = cc (rw (e, dispatch-none state back c idle t, goes_on) at h) in
          rw e (subst (λ z. IsSound (idle_round t) z) same (idle_round-IsSound t))
      | inr ((t, tickle_me, some task), e) ↦ rw (e, goes_on) (λ over. cc)
    ]
  ]

schedule-IsSound : (idle : State) (s : Scheduler) → is_term idle ≡ false → IsSound idle s
schedule-IsSound idle s h over = cc

-- Setting the flags of stop keeps a scheduler stopping.
flags-is_stopping :
    (s : Scheduler)
    → is_stopping s ≡ true
    → is_stopping (record s { auto_stop = true; stopping = true }) ≡ true
unfolding is_stopping
flags-is_stopping s h = ground arith

Runs-is_stopping :
    {tid : ℕ} {u : Scheduler} {idle : State} {s : Scheduler}
    → Runs tid u idle s
    → IsSound idle s
    → is_stopping u ≡ true
Runs-is_stopping {tid} {u} {idle} {s} (last state back c k h) v =
    last-is_stopping tid state back c k idle s u h v
Runs-is_stopping {tid} {u} {idle} {s} (next {s' = s'} state back c k h more) v =
    Runs-is_stopping more (next-IsSound tid state back c k idle s s' h v)
Runs-is_stopping {tid} {u} {idle} {s} (schedules t off more) v =
    Runs-is_stopping more (schedule-IsSound idle (schedule s t).0 off)
Runs-is_stopping {tid} {u} {idle} {s} (stops more) v =
    Runs-is_stopping more (λ over. flags-is_stopping s (v over))

-- A thread alone with the queue leaves the loop of run only with the work done: stop was called, the
-- queue is empty and no task is active.
pub run_lem :
    {tid : ℕ} {s u : Scheduler}
    → Runs tid u init s
    → (u.auto_stop ≡ true) × (u.stopping ≡ true) × (is_empty u.fibers ≡ true) × (u.active ≡ 0)
unfolding is_stopping
run_lem {tid} {s} {u} runs =
    let e = Runs-is_stopping runs (λ over. cc) in
    (ground arith, ground arith, ground arith, ground arith)

-- The scheduler as stop leaves it for the root fiber's run.
abbrev pub stopped : Scheduler → Scheduler
stopped s = record s { auto_stop = true; stopping = true }
