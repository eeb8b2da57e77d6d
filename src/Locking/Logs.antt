-- ===== src/Locking/Logs.antt =====
-- The locks that each call on the loggers takes (components/log.h, components/log.cpp). The guards
-- and the tests are those of the code; what the code reads is read from a store `w`, which is the
-- one that the call finds when it holds the lock.
pub mod Ordered
pub mod Every
pub mod Lines
use web_framework.Base.{
  ℕ, zero, suc, Bool, not, List, [], ◌∷◌, Text, Option, some, none, if◌then◌else◌, leb, is_empty,
  is_some,
}
use web_framework.Log.Level.{Level}
use web_framework.Log.Formatter.{LogFormatter, init}
use web_framework.Log.World.{
  Result, ok, out_of_fuel, ◌>>=◌, deref, Sink, stdout, file, LogAppender, Logger, World, logger_at,
  appender_at,
}
use web_framework.Log.Logger.{chain}
use web_framework.Thread.Locks.Order.{Code, skip, ◌then◌}
use web_framework.Locking.{Lock, manager, logger, appender, guarded}

-- The calls of a loop, one after another.
abbrev pub each {ℓ} : {A : Type ℓ} → (A → Result (Code Lock)) → List A → Result (Code Lock)
each f [] = ok skip
each f (x ∷ xs) = do c ← f x; d ← each f xs; ok (c then d)

-- StdoutLogAppender::log and FileLogAppender::log
unfoldable pub append_code : World → Level → ℕ → Result (Code Lock)
append_code w level a = do
  p ← appender_at w a
  if leb p.level level then (do f ← deref p.formatter; ok (guarded (appender a) skip)) else ok skip

-- Logger::log; `up` is the call of m_root->log.
unfoldable pub log_here_code :
    World → ℕ → Logger → Level → (ℕ → Result (Code Lock)) → Result (Code Lock)
unfolding append_code
log_here_code w i l level up =
    if leb l.level level
    then (do
      c ←
          if not (is_empty l.appenders)
          then each (append_code w level) l.appenders
          else deref l.root >>= up
      ok (guarded (logger i) c))
    else ok skip

unfoldable pub log_code : ℕ → World → Level → ℕ → Result (Code Lock)
unfolding log_here_code
log_code zero w level i = out_of_fuel
log_code (suc f) w level i = do l ← logger_at w i; log_here_code w i l level (log_code f w level)

-- Logger::addAppender: getFormatter of the appender, and setFormatter where it has none.
unfoldable pub add_code : World → ℕ → ℕ → Result (Code Lock)
add_code w i a = do
  p ← appender_at w a
  ok (
      guarded (logger i) (
        guarded (appender a) skip
        then (if is_some p.formatter then skip else guarded (appender a) skip)))

-- The loop of Logger::setFormatter; hasFormatter takes no lock.
unfoldable pub share_code : World → ℕ → Result (Code Lock)
share_code w a = do
  p ← appender_at w a
  ok (if not p.has_formatter then guarded (appender a) skip else skip)

-- Logger::setFormatter(const std::string&)
unfoldable pub set_pattern_code : World → ℕ → Text → Result (Code Lock)
unfolding share_code
set_pattern_code w i val = do
  f ← deref (init val)
  if f.is_error
      then ok skip
      else (do l ← logger_at w i; c ← each (share_code w) l.appenders; ok (guarded (logger i) c))

-- toYamlString of an appender: that of a file takes no lock.
abbrev pub sink_code : Sink → ℕ → Code Lock
sink_code stdout a = guarded (appender a) skip
sink_code (file name) a = skip

unfoldable pub appender_yaml_code : World → ℕ → Result (Code Lock)
appender_yaml_code w a = do p ← appender_at w a; ok (sink_code p.sink a)

-- Logger::toYamlString
unfoldable pub logger_yaml_code : World → ℕ → Result (Code Lock)
unfolding appender_yaml_code
logger_yaml_code w i = do
  l ← logger_at w i
  c ← each (appender_yaml_code w) l.appenders
  ok (guarded (logger i) c)

-- LoggerManager::toYamlString
unfoldable pub manager_yaml_code : World → Result (Code Lock)
unfolding logger_yaml_code
manager_yaml_code w = do c ← each (λ n. logger_yaml_code w n.1) w.named; ok (guarded manager c)

-- The calls that a program makes on loggers and appenders.
pub data LogCall : Type 0 where
  logs : ℕ → Level → LogCall
  adds : ℕ → ℕ → LogCall
  removes clears reads_formatter writes_logger : ℕ → LogCall
  sets_pattern : ℕ → Text → LogCall
  gets : Text → LogCall
  writes_manager : LogCall
  sets_appender_pattern reads_appender_formatter reopens writes_appender : ℕ → LogCall
  sets_level : ℕ → Level → LogCall

abbrev pub log_call_code : World → LogCall → Result (Code Lock)
log_call_code w (logs i level) = log_code chain w level i
log_call_code w (adds i a) = add_code w i a
log_call_code w (removes i) = ok (guarded (logger i) skip)
log_call_code w (clears i) = ok (guarded (logger i) skip)
log_call_code w (reads_formatter i) = ok (guarded (logger i) skip)
log_call_code w (writes_logger i) = logger_yaml_code w i
log_call_code w (sets_pattern i val) = set_pattern_code w i val
log_call_code w (gets name) = ok (guarded manager skip)
log_call_code w writes_manager = manager_yaml_code w
log_call_code w (sets_appender_pattern a) = ok (guarded (appender a) skip)
log_call_code w (reads_appender_formatter a) = ok (guarded (appender a) skip)
log_call_code w (reopens a) = ok (guarded (appender a) skip)
log_call_code w (writes_appender a) = appender_yaml_code w a
log_call_code w (sets_level i level) = ok skip
