-- ===== src/Locking/Calls.antt =====
-- Threads that make any calls on the loggers, the variables, the registry and the scheduler's queue
-- (components/log.cpp, components/config.h, components/config.cpp, components/scheduler.h).
use web_framework.Base.{
  false, ℕ, ◌+◌, ◌≡◌, refl, subst, inl, inr, ◌⊎◌, Bool, true, List, [], ◌∷◌, All, map, all,
  is_empty, if◌then◌else◌, leb, arith, Bool-cases,
}
use web_framework.Log.Level.{Level}
use web_framework.Log.World.{Result, ok, ◌>>=◌, World, logger_at}
use web_framework.Log.Logger.{chain}
use web_framework.Log.Logger.Valid.{IsValid}
use web_framework.Log.Logger.Operations.{IsLoggerIndex}
use web_framework.Thread.Locks.{Worker, Platform, Steps, starting}
use web_framework.Thread.Locks.Order.{Code, skip, ◌then◌, IsAbove, IsAbove-≤, actions}
use web_framework.Thread.Locks.Progress.{CanStep, remaining, never_stuck}
use web_framework.Locking.{Lock, framework, same}
use web_framework.Locking.Logs.{LogCall, log_code, log_call_code, each}
use web_framework.Locking.Logs.Ordered.{
  IsOrdered, IsOrdered-≤, IsServed, each-IsOrdered, log-IsOrdered,
}
use web_framework.Locking.Logs.Every.{IsLogCall, log_call-IsOrdered}
use web_framework.Locking.Settings.{
  Listener, set_value_code, add_listener_code, del_listener_code, get_listener_code, get_value_code,
  to_string_code, Found, lookup_or_create_code, lookup_code, Member, load_code, visit_code,
  schedule_code, take_task_code, stopping_code,
}
use web_framework.Locking.Settings.Ordered.{
  AreListeners, set_value-IsAbove, to_string-IsAbove, lookup_or_create-IsAbove, IsMember,
  load-IsAbove, schedule-IsAbove, take_task-IsAbove, visit-IsAbove,
}

-- The macro LOG_LEVEL with the destructor of LogEventWrap.
unfoldable pub message_code : World → ℕ → Level → Result (Code Lock)
message_code w i level = do
  l ← logger_at w i
  if leb l.level level then log_code chain w level i else ok skip

-- A message on a logger, as the calls write them: the store that it finds, the logger, the level.
pub record Message : Type 0 where
  pub world : World
  pub logger : ℕ
  pub level : Level

abbrev reporting : Message → (Code Lock → Code Lock) → Result (Code Lock)
reporting m f = do r ← message_code m.world m.logger m.level; ok (f r)

-- A listener that makes calls on the loggers, as that of LogIniter does.
abbrev pub logging_listener : List (World × LogCall) → Result Listener
logging_listener calls = do c ← each (λ x. log_call_code x.0 x.1) calls; ok (c, false)

-- A call by code outside the framework, with what it finds.
pub data Call : Type 0 where
  on_logs : World → LogCall → Call
  writes_message : Message → Call
  sets_value : ℕ → Bool → List Listener → Call
  sets_logs : ℕ → List (World × LogCall) → Call
  adds_listener deletes_listener gets_listener gets_value : ℕ → Call
  writes_value : Message → ℕ → Bool → Call
  looks_up : Message → Found → Call
  looks_up_known : Call
  loads : Message → ℕ → List Member → Call
  visits : List (Code Lock) → Call
  schedules takes_task : Message → Bool → Call
  asks_stopping : Call

unfoldable pub call_code : Call → Result (Code Lock)
unfolding message_code
call_code (on_logs w call) = log_call_code w call
call_code (writes_message m) = message_code m.world m.logger m.level
call_code (sets_value v equal listeners) = ok (set_value_code v equal listeners).0
call_code (sets_logs v calls) = do
  l ← logging_listener calls
  ok (set_value_code v false (l ∷ [])).0
call_code (adds_listener v) = ok (add_listener_code v)
call_code (deletes_listener v) = ok (del_listener_code v)
call_code (gets_listener v) = ok (get_listener_code v)
call_code (gets_value v) = ok (get_value_code v)
call_code (writes_value m v fails) = reporting m (λ r. to_string_code r v fails)
call_code (looks_up m found) = reporting m (λ r. lookup_or_create_code r found)
call_code looks_up_known = ok lookup_code
call_code (loads m bad members) = reporting m (λ r. load_code r bad members)
call_code (visits calls) = ok (visit_code calls)
call_code (schedules m need_tickle) = reporting m (λ r. schedule_code r need_tickle)
call_code (takes_task m tickle_me) = reporting m (λ r. take_task_code r tickle_me)
call_code asks_stopping = ok stopping_code

module _ (root : ℕ) where
  -- The message is on a logger of a valid store whose root logger is number `root`.
  abbrev pub IsMessage : Message → Type 0
  IsMessage m = IsServed m.world × (m.world.root ≡ root) × IsLoggerIndex m.world m.logger

  abbrev pub IsLogsCall : World × LogCall → Type 0
  IsLogsCall (w, call) = IsValid w × (w.root ≡ root) × IsLogCall w call

  -- The stores that a call finds are valid, with an appender of the root logger; the listeners that it
  -- runs take only locks that come after the variables', and the callbacks of Visit only locks that
  -- come after the registry's.
  abbrev pub IsOrderly : Call → Type 0
  IsOrderly (on_logs w call) = IsLogsCall (w, call)
  IsOrderly (sets_logs v calls) = All IsLogsCall calls
  IsOrderly (writes_message m) = IsMessage m
  IsOrderly (sets_value v equal listeners) = AreListeners root listeners
  IsOrderly (writes_value m v fails) = IsMessage m
  IsOrderly (looks_up m found) = IsMessage m
  IsOrderly (loads m bad members) = IsMessage m × All (IsMember root) members
  IsOrderly (visits calls) = All (IsAbove (framework root) 1) calls
  IsOrderly (schedules m need_tickle) = IsMessage m
  IsOrderly (takes_task m tickle_me) = IsMessage m
  IsOrderly _ = Unit

  message-IsOrdered :
      (m : Message) → IsMessage m → IsOrdered root 3 (message_code m.world m.logger m.level)
  unfolding message_code
  message-IsOrdered m (served, top, (l, at)) = elim (Bool-cases (leb l.level m.level)) [
    | inr low ↦ (skip, rw at (rw low refl), tt)
    | inl high ↦
        let (c, e, above) =
          subst (λ r. IsOrdered r 3 (log_code chain m.world m.level m.logger)) top
            (IsOrdered-≤ m.world.root (log_code chain m.world m.level m.logger) (omega arith)
              (log-IsOrdered m.world m.level m.logger served (l, at))) in
        (c, rw at (rw high e), above)
  ]

  -- A call that writes a message in some of its branches.
  reporting-IsOrdered :
      (m : Message) (f : Code Lock → Code Lock)
      → IsMessage m
      → ((r : Code Lock) → IsAbove (framework root) 3 r → IsAbove (framework root) 0 (f r))
      → IsOrdered root 0 (reporting m f)
  reporting-IsOrdered m f fits above =
      let (r, e, quiet) = message-IsOrdered m fits in (f r, rw e refl, above r quiet)

  at_least : (n : ℕ) (c : Code Lock) → IsAbove (framework root) n c → IsAbove (framework root) 0 c
  at_least n c above = IsAbove-≤ (framework root) c (omega arith) above

  logs-IsOrdered : (x : World × LogCall) → IsLogsCall x → IsOrdered root 3 (log_call_code x.0 x.1)
  logs-IsOrdered (w, call) (v, top, fits) =
      subst (λ r. IsOrdered r 3 (log_call_code w call)) top (log_call-IsOrdered w call v fits)

  call-IsOrdered : (call : Call) → IsOrderly call → IsOrdered root 0 (call_code call)
  unfolding call_code add_listener_code del_listener_code get_listener_code get_value_code
      lookup_code stopping_code
  call-IsOrdered (on_logs w call) fits =
      IsOrdered-≤ root (log_call_code w call) (omega arith) (logs-IsOrdered (w, call) fits)
  call-IsOrdered (sets_logs v calls) fits =
      let (c, e, above) =
        each-IsOrdered root IsLogsCall 3 (λ x. log_call_code x.0 x.1) calls logs-IsOrdered fits in
      let listens : IsAbove (framework root) 2 c =
        IsAbove-≤ (framework root) c (omega arith) above in
      let code = (set_value_code v false ((c, false) ∷ [])).0 in
      (
        code,
        rw e refl,
        at_least 1 code (set_value-IsAbove root v false ((c, false) ∷ []) (listens, tt)),
      )
  call-IsOrdered (writes_message m) fits =
      IsOrdered-≤ root (message_code m.world m.logger m.level) (omega arith)
        (message-IsOrdered m fits)
  call-IsOrdered (sets_value v equal listeners) fits =
      let c = (set_value_code v equal listeners).0 in
      (c, refl, at_least 1 c (set_value-IsAbove root v equal listeners fits))
  call-IsOrdered (adds_listener v) fits = (add_listener_code v, refl, (omega arith, tt))
  call-IsOrdered (deletes_listener v) fits = (del_listener_code v, refl, (omega arith, tt))
  call-IsOrdered (gets_listener v) fits = (get_listener_code v, refl, (omega arith, tt))
  call-IsOrdered (gets_value v) fits = (get_value_code v, refl, (omega arith, tt))
  call-IsOrdered (writes_value m v fails) fits =
      reporting-IsOrdered m (λ r. to_string_code r v fails) fits
        (λ r quiet. at_least 1 (to_string_code r v fails) (to_string-IsAbove root r quiet v fails))
  call-IsOrdered (looks_up m found) fits =
      reporting-IsOrdered m (λ r. lookup_or_create_code r found) fits
        (λ r quiet. lookup_or_create-IsAbove root r quiet found)
  call-IsOrdered looks_up_known fits = (lookup_code, refl, (omega arith, tt))
  call-IsOrdered (loads m bad members) (fits, known) =
      reporting-IsOrdered m (λ r. load_code r bad members) fits
        (λ r quiet. load-IsAbove root r quiet bad members known)
  call-IsOrdered (visits calls) fits = (visit_code calls, refl, visit-IsAbove root calls fits)
  call-IsOrdered (schedules m need_tickle) fits =
      reporting-IsOrdered m (λ r. schedule_code r need_tickle) fits
        (λ r quiet.
          at_least 2 (schedule_code r need_tickle) (schedule-IsAbove root r quiet need_tickle))
  call-IsOrdered (takes_task m tickle_me) fits =
      reporting-IsOrdered m (λ r. take_task_code r tickle_me) fits
        (λ r quiet.
          at_least 2 (take_task_code r tickle_me) (take_task-IsAbove root r quiet tickle_me))
  call-IsOrdered asks_stopping fits = (stopping_code, refl, (omega arith, tt))

-- What the threads do, each a list of calls.
abbrev pub threads_code : List (List Call) → Result (List (Code Lock))
threads_code [] = ok []
threads_code (calls ∷ rest) = do c ← each call_code calls; cs ← threads_code rest; ok (c ∷ cs)

threads-IsOrdered :
    (root : ℕ) (threads : List (List Call))
    → All (All (IsOrderly root)) threads
    → (cs : List (Code Lock)) × (threads_code threads ≡ ok cs) × All (IsAbove (framework root) 0) cs
threads-IsOrdered root [] fits = ([], refl, tt)
threads-IsOrdered root (calls ∷ rest) (fit, fits) =
    let (c, e, above) =
      each-IsOrdered root (IsOrderly root) 0 call_code calls (call-IsOrdered root) fit in
    let (cs, e', aboves) = threads-IsOrdered root rest fits in
    (c ∷ cs, rw (e, e') refl, (above, aboves))

-- Any number of threads, each making any calls on loggers, variables, the registry and a
-- scheduler's queue, as IsOrderly admits them: each call returns a course of locks to take, and
-- no interleaving of these ends in a deadlock. In every state that is reached, either each
-- thread has made all its calls on locks or some thread's next one returns, and each step makes
-- one of them.
pub calls_never_stuck :
    (p : Platform same) (root : ℕ) (threads : List (List Call))
    → All (All (IsOrderly root)) threads
    → (cs : List (Code Lock)) × (threads_code threads ≡ ok cs)
      × ((n : ℕ) (ws : List (Worker Lock))
          → Steps p (map (λ c. starting (actions c [])) cs) n ws
          → (remaining ws + n ≡ remaining (map (λ c. starting (actions c [])) cs))
            × ((all (λ w. is_empty w.rest) ws ≡ true) ⊎ CanStep (framework root) p ws))
calls_never_stuck p root threads fits =
    let (cs, e, above) = threads-IsOrdered root threads fits in
    (cs, e, λ n ws run. never_stuck (framework root) p cs n ws above run)
