-- ===== src/Locking/Logs/Every.antt =====
-- The order of the locks in all calls on the loggers (components/log.h, components/log.cpp).
use web_framework.Base.{
  ℕ, ◌≡◌, refl, inl, inr, List, All, Text, some, get_elem?, is_some, arith, Bool-cases,
}
use web_framework.Log.Formatter.RoundTrip.{init_total}
use web_framework.Log.World.{ok, LogAppender, World}
use web_framework.Log.Logger.Valid.{IsReady, IsValid}
use web_framework.Log.Logger.Operations.{IsLoggerIndex}
use web_framework.Thread.Locks.Order.{Code, skip, ◌then◌, IsAbove-≤}
use web_framework.Locking.{Lock, manager, logger, appender, guarded, framework}
use web_framework.Locking.Logs.{
  add_code, share_code, set_pattern_code, appender_yaml_code, logger_yaml_code, sink_code,
  manager_yaml_code, LogCall, logs, adds, removes, clears, reads_formatter, writes_logger,
  sets_pattern, gets, writes_manager, sets_appender_pattern, reads_appender_formatter, reopens,
  writes_appender, sets_level, log_call_code,
}
use web_framework.Locking.Logs.Ordered.{
  IsOrdered, IsOrdered-≤, IsServed, each-IsOrdered, logger-IsAbove, share-IsOrdered, sink-IsAbove,
  appender_yaml-IsOrdered, log-IsOrdered,
}

abbrev pub IsAppenderIndex : World → ℕ → Type 0
IsAppenderIndex w a = (p : LogAppender) × (get_elem? w.appenders a ≡ some p)

-- The manager's names lead to loggers of the store.
abbrev pub AreNamed : World → List (Text × ℕ) → Type 0
AreNamed w ns = All (λ n. IsLoggerIndex w n.1) ns

module _ (w : World) where
  add-IsOrdered : (i a : ℕ) → IsAppenderIndex w a → IsOrdered w.root 4 (add_code w i a)
  unfolding add_code
  add-IsOrdered i a (p, at) = elim (Bool-cases (is_some p.formatter)) [
    | inl own ↦
        let c : Code Lock = guarded (appender a) skip then skip in
        (
          guarded (logger i) c,
          rw at (rw own refl),
          logger-IsAbove w.root i c ((omega arith, tt), tt),
        )
    | inr shared ↦
        let c : Code Lock = guarded (appender a) skip then guarded (appender a) skip in
        (
          guarded (logger i) c,
          rw at (rw shared refl),
          logger-IsAbove w.root i c ((omega arith, tt), (omega arith, tt)),
        )
  ]

  set_pattern-IsOrdered :
      (i : ℕ) (val : Text)
      → IsValid w
      → IsLoggerIndex w i
      → IsOrdered w.root 4 (set_pattern_code w i val)
  unfolding set_pattern_code
  set_pattern-IsOrdered i val v (l, at) =
      let (f, e, kept) = init_total val in
      elim (Bool-cases f.is_error) [
        | inl bad ↦ (skip, rw e (rw bad refl), tt)
        | inr good ↦
            let (c, e', above) =
              each-IsOrdered w.root (IsReady w.appenders) 6 (share_code w) l.appenders
                (share-IsOrdered w.root w) (v.loggers i l at).ready in
            (
              guarded (logger i) c,
              rw e (rw good (rw at (rw e' refl))),
              logger-IsAbove w.root i c above,
            )
      ]

  logger_yaml-IsOrdered :
      (i : ℕ) → IsValid w → IsLoggerIndex w i → IsOrdered w.root 4 (logger_yaml_code w i)
  unfolding logger_yaml_code
  logger_yaml-IsOrdered i v (l, at) =
      let (c, e, above) =
        each-IsOrdered w.root (IsReady w.appenders) 6 (appender_yaml_code w) l.appenders
          (appender_yaml-IsOrdered w.root w) (v.loggers i l at).ready in
      (guarded (logger i) c, rw at (rw e refl), logger-IsAbove w.root i c above)

  manager_yaml-IsOrdered : IsValid w → AreNamed w w.named → IsOrdered w.root 3 (manager_yaml_code w)
  unfolding manager_yaml_code
  manager_yaml-IsOrdered v named =
      let (c, e, above) =
        each-IsOrdered w.root (λ n. IsLoggerIndex w n.1) 4 (λ n. logger_yaml_code w n.1) w.named
          (λ n there. logger_yaml-IsOrdered n.1 v there) named in
      (guarded manager c, rw e refl, (omega arith, above))

  -- The pointers that a call is given are to objects of the store; a call of log needs an appender of
  -- the root logger.
  abbrev pub IsLogCall : LogCall → Type 0
  IsLogCall (logs i level) = IsServed w × IsLoggerIndex w i
  IsLogCall (adds i a) = IsAppenderIndex w a
  IsLogCall (sets_pattern i val) = IsLoggerIndex w i
  IsLogCall (writes_logger i) = IsLoggerIndex w i
  IsLogCall (writes_appender a) = IsAppenderIndex w a
  IsLogCall writes_manager = AreNamed w w.named
  IsLogCall _ = Unit

  one-IsOrdered : (a : ℕ) → IsOrdered w.root 3 (ok (guarded (appender a) skip))
  one-IsOrdered a = (guarded (appender a) skip, refl, (omega arith, tt))

  only-IsOrdered : (i : ℕ) → IsOrdered w.root 4 (ok (guarded (logger i) skip))
  only-IsOrdered i = (guarded (logger i) skip, refl, logger-IsAbove w.root i skip tt)

  appender_yaml_any :
      (a : ℕ) (p : LogAppender)
      → get_elem? w.appenders a ≡ some p
      → IsOrdered w.root 3 (appender_yaml_code w a)
  unfolding appender_yaml_code
  appender_yaml_any a p at =
      let above = sink-IsAbove w.root p.sink a in
      (
        sink_code p.sink a,
        rw at refl,
        IsAbove-≤ (framework w.root) (sink_code p.sink a) (omega arith) above,
      )

  -- Every such call on the loggers of a valid store returns; it takes its locks in one order: the
  -- manager's, a logger's, the root logger's, an appender's.
  pub log_call-IsOrdered :
      (call : LogCall) → IsValid w → IsLogCall call → IsOrdered w.root 3 (log_call_code w call)
  log_call-IsOrdered (logs i level) v (served, at) =
      IsOrdered-≤ w.root (log_call_code w (logs i level)) (omega arith)
        (log-IsOrdered w level i served at)
  log_call-IsOrdered (adds i a) v at =
      IsOrdered-≤ w.root (add_code w i a) (omega arith) (add-IsOrdered i a at)
  log_call-IsOrdered (removes i) v at =
      IsOrdered-≤ w.root (ok (guarded (logger i) skip)) (omega arith) (only-IsOrdered i)
  log_call-IsOrdered (clears i) v at =
      IsOrdered-≤ w.root (ok (guarded (logger i) skip)) (omega arith) (only-IsOrdered i)
  log_call-IsOrdered (reads_formatter i) v at =
      IsOrdered-≤ w.root (ok (guarded (logger i) skip)) (omega arith) (only-IsOrdered i)
  log_call-IsOrdered (writes_logger i) v at =
      IsOrdered-≤ w.root (logger_yaml_code w i) (omega arith) (logger_yaml-IsOrdered i v at)
  log_call-IsOrdered (sets_pattern i val) v at =
      IsOrdered-≤ w.root (set_pattern_code w i val) (omega arith) (set_pattern-IsOrdered i val v at)
  log_call-IsOrdered (gets name) v at = (guarded manager skip, refl, (omega arith, tt))
  log_call-IsOrdered writes_manager v named = manager_yaml-IsOrdered v named
  log_call-IsOrdered (sets_appender_pattern a) v at = one-IsOrdered a
  log_call-IsOrdered (reads_appender_formatter a) v at = one-IsOrdered a
  log_call-IsOrdered (reopens a) v at = one-IsOrdered a
  log_call-IsOrdered (writes_appender a) v (p, at) = appender_yaml_any a p at
  log_call-IsOrdered (sets_level i level) v at = (skip, refl, tt)
