-- ===== src/Locking/Settings/Ordered.antt =====
-- The order of the locks in the calls on variables, the registry and the scheduler's queue
-- (components/config.h, components/config.cpp, components/scheduler.h).
use web_framework.Base.{ℕ, zero, suc, ◌≤◌, Bool, true, false, List, [], ◌∷◌, All, none, some, arith}
use web_framework.Thread.Locks.Order.{Code, IsAbove, IsAbove-≤}
use web_framework.Locking.{Lock, framework}
use web_framework.Locking.Settings.{
  Listener, notify_code, write_code, set_value_code, Reading, report_if, from_string_code,
  to_string_code, Found, new_name, bad_name, of_this_type, of_another_type, found_code,
  lookup_or_create_code, lookup_code, Member, unnamed, unknown, known, load_member_code, all_codes,
  load_members_code, reports, load_code, visit_code, schedule_code, take_task_code,
}

module _ (root : ℕ) where
  -- What the listeners do takes only locks that come after the variables'.
  abbrev pub AreListeners : List Listener → Type 0
  AreListeners listeners = All (λ l. IsAbove (framework root) 2 l.0) listeners

  abbrev pub IsReading : Reading → Type 0
  IsReading none = Unit
  IsReading (some (equal, listeners)) = AreListeners listeners

  notify-IsAbove :
      (listeners : List Listener)
      → AreListeners listeners
      → IsAbove (framework root) 2 (notify_code listeners).0
  notify-IsAbove [] fits = tt
  notify-IsAbove ((c, true) ∷ rest) (above, fits) = above
  notify-IsAbove ((c, false) ∷ rest) (above, fits) = (above, notify-IsAbove rest fits)

  write-IsAbove : (v : ℕ) (threw : Bool) → IsAbove (framework root) 1 (write_code v threw)
  write-IsAbove v true = tt
  write-IsAbove v false = (omega arith, tt)

  pub set_value-IsAbove :
      (v : ℕ) (equal : Bool) (listeners : List Listener)
      → AreListeners listeners
      → IsAbove (framework root) 1 (set_value_code v equal listeners).0
  unfolding set_value_code
  set_value-IsAbove v true listeners fits = (omega arith, tt)
  set_value-IsAbove v false listeners fits =
      ((omega arith, notify-IsAbove listeners fits), write-IsAbove v (notify_code listeners).1)

  abbrev pub IsMember : Member → Type 0
  IsMember unnamed = Unit
  IsMember unknown = Unit
  IsMember (known v reading) = IsReading reading

  -- `report` is the message on the log.
  module _ (report : Code Lock) (quiet : IsAbove (framework root) 3 report) where
    report-IsAbove :
        (floor : ℕ) (b : Bool) → floor ≤ 3 → IsAbove (framework root) floor (report_if b report)
    report-IsAbove floor true le = IsAbove-≤ (framework root) report le quiet
    report-IsAbove floor false le = tt

    from_string-IsAbove :
        (v : ℕ) (reading : Reading)
        → IsReading reading
        → IsAbove (framework root) 1 (from_string_code report v reading)
    unfolding from_string_code
    from_string-IsAbove v none fits = report-IsAbove 1 true (omega arith)
    from_string-IsAbove v (some (equal, listeners)) fits = (
      set_value-IsAbove v equal listeners fits,
      report-IsAbove 1 (set_value_code v equal listeners).1 (omega arith),
    )

    pub to_string-IsAbove :
        (v : ℕ) (fails : Bool) → IsAbove (framework root) 1 (to_string_code report v fails)
    unfolding to_string_code
    to_string-IsAbove v fails = ((omega arith, tt), report-IsAbove 1 fails (omega arith))

    found-IsAbove : (found : Found) → IsAbove (framework root) 1 (found_code report found)
    found-IsAbove new_name = tt
    found-IsAbove bad_name = report-IsAbove 1 true (omega arith)
    found-IsAbove of_this_type = report-IsAbove 1 true (omega arith)
    found-IsAbove (of_another_type true v fails) =
        (to_string-IsAbove v fails, report-IsAbove 1 true (omega arith))
    found-IsAbove (of_another_type false v fails) = report-IsAbove 1 true (omega arith)

    pub lookup_or_create-IsAbove :
        (found : Found) → IsAbove (framework root) 0 (lookup_or_create_code report found)
    unfolding lookup_or_create_code
    lookup_or_create-IsAbove found = (omega arith, found-IsAbove found)

    load_member-IsAbove :
        (m : Member) → IsMember m → IsAbove (framework root) 0 (load_member_code report m)
    unfolding load_member_code lookup_code
    load_member-IsAbove unnamed fits = tt
    load_member-IsAbove unknown fits = (omega arith, tt)
    load_member-IsAbove (known v reading) fits = (
      (omega arith, tt),
      IsAbove-≤ (framework root) (from_string_code report v reading) (omega arith)
          (from_string-IsAbove v reading fits),
    )

    load_members-IsAbove :
        (ms : List Member)
        → All IsMember ms
        → IsAbove (framework root) 0 (load_members_code report ms)
    load_members-IsAbove [] fits = tt
    load_members-IsAbove (m ∷ ms) (fit, fits) =
        (load_member-IsAbove m fit, load_members-IsAbove ms fits)

    reports-IsAbove : (n : ℕ) → IsAbove (framework root) 0 (reports n report)
    reports-IsAbove zero = tt
    reports-IsAbove (suc n) = (report-IsAbove 0 true (omega arith), reports-IsAbove n)

    pub load-IsAbove :
        (bad : ℕ) (ms : List Member)
        → All IsMember ms
        → IsAbove (framework root) 0 (load_code report bad ms)
    unfolding load_code
    load-IsAbove bad ms fits = (reports-IsAbove bad, load_members-IsAbove ms fits)

    pub schedule-IsAbove :
        (need_tickle : Bool) → IsAbove (framework root) 2 (schedule_code report need_tickle)
    unfolding schedule_code
    schedule-IsAbove need_tickle = ((omega arith, tt), report-IsAbove 2 need_tickle (omega arith))

    pub take_task-IsAbove :
        (tickle_me : Bool) → IsAbove (framework root) 2 (take_task_code report tickle_me)
    unfolding take_task_code
    take_task-IsAbove tickle_me = ((omega arith, tt), report-IsAbove 2 tickle_me (omega arith))

  all_codes-IsAbove :
      (floor : ℕ) (cs : List (Code Lock))
      → All (IsAbove (framework root) floor) cs
      → IsAbove (framework root) floor (all_codes cs)
  all_codes-IsAbove floor [] fits = tt
  all_codes-IsAbove floor (c ∷ cs) (fit, fits) = (fit, all_codes-IsAbove floor cs fits)

  pub visit-IsAbove :
      (calls : List (Code Lock))
      → All (IsAbove (framework root) 1) calls
      → IsAbove (framework root) 0 (visit_code calls)
  unfolding visit_code
  visit-IsAbove calls fits = (omega arith, all_codes-IsAbove 1 calls fits)
