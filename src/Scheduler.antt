-- ===== src/Scheduler.antt =====
-- Scheduler (components/scheduler.h, components/scheduler.cpp). What holds m_mutex in the source is
-- one operation here. A thread number of -1 is `none`; fibers and callbacks are numbers, and the
-- states of the fibers are a function.
pub mod Pick
pub mod Dispatch
pub mod Round
pub mod Run
pub mod Drain
pub mod Threads
pub mod Locals
mod Tests
mod PoolTests
mod StoreTests
mod LocalTests
use web_framework.Base.{
  ℕ, zero, suc, ◌+◌, ◌-◌, ◌≡◌, Bool, true, false, not, ◌&&◌, ◌||◌, List, [], ◌∷◌, ◌++◌, Option,
  none, some, is_empty, is_some, if◌then◌else◌, ◌==◌, ◌>>=◌,
}
use web_framework.Fiber.{State, init, hold, exec, term, ready, except, is_exec}

-- FiberAndThread
pub record Task : Type 0 where
  pub fiber : Option ℕ
  pub callback : Option ℕ
  pub thread : Option ℕ

-- FiberAndThread::reset
unfoldable pub reset_task : Task
reset_task = record { fiber = none; callback = none; thread = none }

pub record Scheduler : Type 0 where
  pub fibers : List Task
  pub threads : ℕ
  pub thread_ids : List ℕ
  pub thread_count : ℕ
  pub active : ℕ
  pub idle : ℕ
  pub stopping : Bool
  pub auto_stop : Bool
  pub root_thread : Option ℕ
  pub root_fiber : Option ℕ

-- scheduleNoLock: the new queue, and whether a tickle is needed.
unfoldable pub schedule_no_lock : Scheduler → Task → Scheduler × Bool
schedule_no_lock s task =
    let need_tickle = is_empty s.fibers in
    if is_some task.fiber || is_some task.callback
    then (record s { fibers = s.fibers ++ task ∷ [] }, need_tickle)
    else (s, need_tickle)

-- schedule(caller, thread): the scheduler, and how many times `tickle` is called.
unfoldable pub schedule : Scheduler → Task → Scheduler × ℕ
unfolding schedule_no_lock
schedule s task =
    let (s', need_tickle) = schedule_no_lock s task in (s', if need_tickle then 1 else 0)

-- `it->thread != -1 && it->thread != GetThreadId()`
unfoldable pub is_foreign : ℕ → Task → Bool
is_foreign tid task = other task.thread
  where
    other : Option ℕ → Bool
    other none = false
    other (some n) = not (n == tid)

-- `it->fiber && it->fiber->getState() == Fiber::EXEC`
unfoldable pub is_running : (ℕ → State) → Task → Bool
is_running state task = running task.fiber
  where
    running : Option ℕ → Bool
    running none = false
    running (some f) = is_exec (state f)

-- What the loop over m_fibers in run finds: whether to tickle, the task taken and the queue left; or
-- the assertion on an empty task.
pub data Picked : Type 0 where
  picked : Bool → Option Task → List Task → Picked
  assertion_failed : Picked

abbrev pub passed : Bool → Task → Picked → Picked
passed foreign t (picked tickle_me found rest) = picked (foreign || tickle_me) found (t ∷ rest)
passed foreign t assertion_failed = assertion_failed

-- The loop over m_fibers in run.
unfoldable pub pick : ℕ → (ℕ → State) → List Task → Picked
unfolding is_foreign is_running
pick tid state [] = picked false none []
pick tid state (it ∷ rest) =
    let later = pick tid state rest in
    if is_foreign tid it
    then passed true it later
    else if not (is_some it.fiber || is_some it.callback)
    then assertion_failed
    else if is_running state it
    then passed false it later
    else picked false (some it) rest

-- The test of a fiber before it is run: `!= TERM || != EXCEPT`.
abbrev pub is_term : State → Bool
is_term term = true
is_term _ = false

abbrev pub is_except : State → Bool
is_except except = true
is_except _ = false

unfoldable pub may_run : State → Bool
may_run state = not (is_term state) || not (is_except state)

-- What the critical section makes of the loop's result: the task taken counts as active.
unfoldable pub take_picked : Scheduler → Picked → Option (Scheduler × Bool × Option Task)
take_picked s assertion_failed = none
take_picked s (picked tickle_me none rest) = some (s, tickle_me, none)
take_picked s (picked tickle_me (some t) rest) =
    some (record s { fibers = rest; active = s.active + 1 }, tickle_me, some t)

-- The critical section at the start of a round of run.
unfoldable pub take_task : ℕ → (ℕ → State) → Scheduler → Option (Scheduler × Bool × Option Task)
unfolding pick take_picked
take_task tid state s = take_picked s (pick tid state s.fibers)

abbrev is_ready : State → Bool
is_ready ready = true
is_ready _ = false

abbrev fiber_task : ℕ → Task
fiber_task f = record { fiber = some f; callback = none; thread = none }

-- The state that run leaves a fiber in, from the state in which it came back.
unfoldable pub state_after : State → State
state_after back =
    if is_ready back
    then back
    else if not (is_term back) && not (is_except back)
    then hold
    else back

-- What follows swapIn of a task's fiber: `back` is the state in which it comes back.
unfoldable pub after_fiber : Scheduler → ℕ → State → Scheduler
unfolding schedule
after_fiber s f back =
    let s' = record s { active = s.active - 1 } in
    if is_ready back then (schedule s' (fiber_task f)).0 else s'

-- What becomes of callback_fiber after its swapIn: kept and reset for the next callback, or given up.
pub data CallbackFiber : Type 0 where
  kept given_up : CallbackFiber

unfoldable pub after_callback : Scheduler → ℕ → State → Scheduler × CallbackFiber
unfolding schedule
after_callback s f back =
    let s' = record s { active = s.active - 1 } in
    if is_ready back
    then ((schedule s' (fiber_task f)).0, given_up)
    else if is_except back || is_term back
    then (s', kept)
    else (s', given_up)

-- What a round of run ends with: the next round, or `break`.
pub data Ended : Type 0 where
  continues breaks : Ended

-- The part of a round behind the critical section. `back` is the state in which a fiber comes back,
-- `callback_fiber` the fiber that runs a callback, and `idle_state` the state of idle_fiber. `none` is
-- the assertion "never reach": a fiber that has ended goes on behind the swapOut at the end of
-- MainFunc. What other threads do while a fiber runs is left out; idle_fiber runs between the two
-- changes of m_idleThreadCount.
unfoldable pub dispatch :
    (ℕ → State) → (ℕ → State) → ℕ → State → Scheduler → Option Task → Option (Scheduler × Ended)
unfolding after_fiber after_callback may_run
dispatch state back callback_fiber idle_state s none =
    if is_term idle_state
    then some (s, breaks)
    else (let s' = record s { idle = s.idle + 1 } in
        some (record s' { idle = s'.idle - 1 }, continues))
dispatch state back callback_fiber idle_state s (some t) = by_kind t.fiber t.callback
  where
    by_callback : Option ℕ → Option (Scheduler × Ended)
    by_callback none = some (record s { active = s.active - 1 }, continues)
    by_callback (some c) =
        some ((after_callback s callback_fiber (back callback_fiber)).0, continues)

    by_kind : Option ℕ → Option ℕ → Option (Scheduler × Ended)
    by_kind none callback = by_callback callback
    by_kind (some f) callback =
        if may_run (state f)
        then (if is_term (state f) || is_except (state f)
            then none
            else some (after_fiber s f (back f), continues))
        else by_callback callback

-- A round of run, with the number of tickles that the pass over the queue sends.
unfoldable pub round :
    ℕ → (ℕ → State) → (ℕ → State) → ℕ → State → Scheduler → Option (Scheduler × Ended × ℕ)
unfolding take_task dispatch
round tid state back callback_fiber idle_state s = do
  (s', tickle_me, task) ← take_task tid state s
  (s'', ended) ← dispatch state back callback_fiber idle_state s' task
  some (s'', ended, if tickle_me then 1 else 0)

-- stopping()
unfoldable pub is_stopping : Scheduler → Bool
is_stopping s = s.auto_stop && (s.stopping && (is_empty s.fibers && s.active == 0))

-- The loop of idle, one round: it yields to HOLD, or ends and the fiber is TERM.
unfoldable pub idle_round : Scheduler → State
unfolding is_stopping
idle_round s = if not (is_stopping s) then hold else term

-- Scheduler::Scheduler, given the root fiber that it makes; `none` is the assertion thread_num > 0.
unfoldable pub new_scheduler : ℕ → Bool → ℕ → ℕ → Option Scheduler
new_scheduler thread_num use_caller tid root =
    if thread_num == 0
    then none
    else some (record {
      fibers = [];
      threads = 0;
      thread_ids = if use_caller then tid ∷ [] else [];
      thread_count = if use_caller then thread_num - 1 else thread_num;
      active = 0;
      idle = 0;
      stopping = true;
      auto_stop = false;
      root_thread = if use_caller then some tid else none;
      root_fiber = if use_caller then some root else none;
    })

-- Scheduler::~Scheduler, where `is_this` says whether t_scheduler is this scheduler: whether
-- t_scheduler is then set to null; `none` is the assertion m_stopping.
unfoldable pub destroy_scheduler : Bool → Scheduler → Option Bool
destroy_scheduler is_this s = if s.stopping then some is_this else none

-- Scheduler::start; `ids` are the ids that the new threads get. `none` is the assertion that there
-- are no threads yet.
unfoldable pub start : Scheduler → (ℕ → ℕ) → Option Scheduler
start s ids =
    if not s.stopping
    then some s
    else if not (s.threads == 0)
    then none
    else some (record s {
      stopping = false;
      threads = s.thread_count;
      thread_ids = s.thread_ids ++ up_to s.thread_count 0;
    })
  where
    up_to : ℕ → ℕ → List ℕ
    up_to zero i = []
    up_to (suc n) i = ids i ∷ up_to n (suc i)
