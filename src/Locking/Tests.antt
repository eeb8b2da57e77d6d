-- ===== src/Locking/Tests.antt =====
-- The theorems on the locks of the framework at concrete inputs: the store of Log/Samples.antt, with
-- the root logger 0 and the logger 1 without appenders.
use web_framework.Base.{
  ℕ, ◌+◌, ◌≡◌, ◌≤◌, ◌⊎◌, refl, true, false, List, [], ◌∷◌, some, map, all, is_empty, length,
  get_elem?, arith, All, codes,
}
use web_framework.Log.Level.{info}
use web_framework.Log.World.{ok, environment}
use web_framework.Log.Logger.{log, chain}
use web_framework.Log.Logger.Deliveries.{lines, wrote}
use web_framework.Locking.Logs.Lines.{appenders_in, log_code-lines}
use web_framework.Log.Samples.{dates, event, demo, demo-IsValid, root_logger, net_logger}
use web_framework.Thread.Locks.{Worker, Platform, Steps, none_yet, later, takes, starting}
use web_framework.Thread.Locks.Eager.{eager}
use web_framework.Thread.Locks.Blocked.{after_taking}
use web_framework.Thread.Locks.Order.{Code, skip, actions}
use web_framework.Thread.Locks.Progress.{CanStep, remaining}
use web_framework.Locking.{Lock, manager, same, same_self, framework, guarded}
use web_framework.Locking.Logs.{logs, gets, log_code}
use web_framework.Locking.Logs.Ordered.{IsServed}
use web_framework.Locking.Settings.{Listener, of_this_type, set_value_code, add_listener_code}
use web_framework.Locking.Settings.Listener.{setting, listener_blocks}
use web_framework.Locking.Calls.{
  Message, Call, on_logs, sets_value, sets_logs, looks_up, schedules, IsOrderly, threads_code,
  calls_never_stuck,
}

abbrev platform : Platform same
platform = eager same same_self

demo-IsServed : IsServed demo
demo-IsServed = (demo-IsValid, (root_logger, refl, refl))

-- A listener that gets a logger.
abbrev gets_logger : Listener
gets_logger = (guarded manager skip, false)

abbrev message : Message
message = record { world = demo; logger = 0; level = info }

-- One thread logs on the logger 1, sets the variable 7, and sets the variable 8, whose listener gets
-- a logger; another looks a variable up and schedules a task.
abbrev first_calls : List Call
first_calls =
    on_logs demo (logs 1 info)
    ∷ sets_value 7 false (gets_logger ∷ [])
    ∷ sets_logs 8 ((demo, gets (codes "net")) ∷ [])
    ∷ []

abbrev second_calls : List Call
second_calls = looks_up message of_this_type ∷ schedules message true ∷ []

abbrev threads : List (List Call)
threads = first_calls ∷ second_calls ∷ []

calls_never_stuck_example :
    (cs : List (Code Lock)) × (threads_code threads ≡ ok cs)
    × ((n : ℕ) (ws : List (Worker Lock))
        → Steps platform (map (λ c. starting (actions c [])) cs) n ws
        → (remaining ws + n ≡ remaining (map (λ c. starting (actions c [])) cs))
          × ((all (λ w. is_empty w.rest) ws ≡ true) ⊎ CanStep (framework 0) platform ws))
calls_never_stuck_example = calls_never_stuck platform 0 threads (first_thread, (second_thread, tt))
  where
    first_thread : All (IsOrderly 0) first_calls
    first_thread = (
      (demo-IsValid, refl, (demo-IsServed, (net_logger, refl))),
      (((omega arith, tt), tt), (((demo-IsValid, refl, tt), tt), tt)),
    )

    second_thread : All (IsOrderly 0) second_calls
    second_thread = (
      (demo-IsServed, refl, (root_logger, refl)),
      ((demo-IsServed, refl, (root_logger, refl)), tt),
    )

abbrev setter : Worker Lock
setter = record { held = []; rest = setting 7 false [] [] }

-- The first call of setValue has returned.
abbrev blocked : Worker Lock
blocked = after_taking [] (setting 7 false [] [])

one_step : Steps platform (setter ∷ []) 1 (blocked ∷ [])
unfolding set_value_code actions add_listener_code
one_step = later none_yet (takes 0 refl refl)

listener_blocks_example :
    (w : Worker Lock) × (get_elem? (blocked ∷ []) 0 ≡ some w)
    × (length (setting 7 false [] []) ≤ length w.rest + 1)
listener_blocks_example =
    listener_blocks platform 7 0 false [] [] [] (setter ∷ []) 1 (blocked ∷ []) refl one_step

log_code-lines_example :
    (c : Code Lock) × (log_code chain demo info 1 ≡ ok c)
    × (log chain dates demo 1 info event
        ≡ ok (
            wrote demo (lines (environment dates demo) demo.appenders (appenders_in c) info event)))
log_code-lines_example = log_code-lines dates demo 1 net_logger info event demo-IsServed refl
