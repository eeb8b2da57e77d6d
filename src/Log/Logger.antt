-- ===== src/Log/Logger.antt =====
-- Logger and LoggerManager (components/log.h, components/log.cpp).
pub mod Deliveries
pub mod Valid
pub mod Preserve
pub mod Operations
pub mod Names
use web_framework.Base.{
  ℕ, zero, suc, ◌+◌, ◌≡◌, Bool, true, false, not, List, [], ◌∷◌, ◌++◌, Text, codes, Option, none,
  some, length, get_elem?, set, if◌then◌else◌, lookup, insert, leb, ◌==◌, is_empty, is_some,
}
use web_framework.Log.Level.{Level, debug, info, warn, error, fatal, unkonwn}
use web_framework.Log.Formatter.{LogFormatter, LogEvent, init}
use web_framework.Log.World.{
  Result, ok, null_pointer, out_of_fuel, ◌>>=◌, deref, Sink, stdout, LogAppender, Logger, World,
  logger_at, appender_at, with_logger, with_appender, set_formatter_as, append_log,
}

abbrev pub default_pattern : Text
default_pattern = codes "%d{%Y-%m-%d %H:%M:%S}%T%t%T%N%T%F%T[%p]%T[%c]%T%f:%l%T%m%n"

-- Logger::Logger; m_root is null until LoggerManager::getLogger sets it.
unfoldable pub new_logger : Text → Logger
new_logger name = record {
  name = name;
  level = debug;
  appenders = [];
  formatter = init default_pattern;
  root = none;
}

-- The loop over m_appenders in Logger::log.
unfoldable pub log_each : (Text → ℕ → Text) → World → List ℕ → Level → LogEvent → Result World
unfolding append_log
log_each date_text w [] level event = ok w
log_each date_text w (a ∷ rest) level event = do
  p ← appender_at w a
  w' ← append_log date_text w p level event
  log_each date_text w' rest level event

-- The body of Logger::log; `up` is the call of m_root->log.
unfoldable pub log_here :
    (Text → ℕ → Text) → World → Logger → Level → LogEvent → (ℕ → Result World) → Result World
unfolding log_each
log_here date_text w l level event up =
    if leb l.level level
    then (if not (is_empty l.appenders)
        then log_each date_text w l.appenders level event
        else deref l.root >>= up)
    else ok w

-- Logger::log. The calls of m_root->log go as deep as the chain of m_root pointers.
unfoldable pub log : ℕ → (Text → ℕ → Text) → World → ℕ → Level → LogEvent → Result World
unfolding log_here
log zero date_text w i level event = out_of_fuel
log (suc f) date_text w i level event = do
  l ← logger_at w i
  log_here date_text w l level event (λ r. log f date_text w r level event)

-- The fuel of a call from outside: a logger and its root.
abbrev pub chain : ℕ
chain = 2

-- Logger::debug, Logger::info, Logger::warn, Logger::error and Logger::fatal
unfoldable pub log_debug : (Text → ℕ → Text) → World → ℕ → LogEvent → Result World
unfolding log
log_debug date_text w i event = log chain date_text w i debug event

unfoldable pub log_info : (Text → ℕ → Text) → World → ℕ → LogEvent → Result World
unfolding log
log_info date_text w i event = log chain date_text w i info event

unfoldable pub log_warn : (Text → ℕ → Text) → World → ℕ → LogEvent → Result World
unfolding log
log_warn date_text w i event = log chain date_text w i warn event

unfoldable pub log_error : (Text → ℕ → Text) → World → ℕ → LogEvent → Result World
unfolding log
log_error date_text w i event = log chain date_text w i error event

unfoldable pub log_fatal : (Text → ℕ → Text) → World → ℕ → LogEvent → Result World
unfolding log
log_fatal date_text w i event = log chain date_text w i fatal event

-- The macro LOG_LEVEL with the destructor of LogEventWrap: `event` is the event that it makes.
unfoldable pub log_level : (Text → ℕ → Text) → World → ℕ → LogEvent → Result World
log_level date_text w i event = do
  l ← logger_at w i
  if leb l.level event.level then log chain date_text w event.logger event.level event else ok w

-- Logger::setLevel
unfoldable pub set_level : World → ℕ → Level → Result World
set_level w i level = do l ← logger_at w i; ok (with_logger w i (record l { level = level }))

-- Logger::addAppender
unfoldable pub add_appender : World → ℕ → ℕ → Result World
unfolding set_formatter_as
add_appender w i a = do
  l ← logger_at w i
  p ← appender_at w a
  let p' = if is_some p.formatter then p else set_formatter_as p l.formatter false
  ok (with_logger (with_appender w a p') i (record l { appenders = l.appenders ++ a ∷ [] }))

-- The loop of Logger::delAppender: the first entry that is this appender goes.
unfoldable pub erase_first : ℕ → List ℕ → List ℕ
erase_first a [] = []
erase_first a (b ∷ bs) = if b == a then bs else b ∷ erase_first a bs

-- Logger::delAppender
unfoldable pub del_appender : World → ℕ → ℕ → Result World
unfolding erase_first
del_appender w i a = do
  l ← logger_at w i
  ok (with_logger w i (record l { appenders = erase_first a l.appenders }))

-- Logger::clearAppender
unfoldable pub clear_appender : World → ℕ → Result World
clear_appender w i = do l ← logger_at w i; ok (with_logger w i (record l { appenders = [] }))

-- The loop of Logger::setFormatter over the appenders.
unfoldable pub share_formatter : World → List ℕ → Option LogFormatter → Result World
unfolding set_formatter_as
share_formatter w [] val = ok w
share_formatter w (a ∷ rest) val = do
  p ← appender_at w a
  share_formatter
      (with_appender w a (if not p.has_formatter then set_formatter_as p val false else p)) rest val

-- Logger::setFormatter(LogFormatter::pointer)
unfoldable pub set_formatter : World → ℕ → Option LogFormatter → Result World
unfolding share_formatter
set_formatter w i val = do
  l ← logger_at w i
  share_formatter (with_logger w i (record l { formatter = val })) l.appenders val

-- Logger::setFormatter(const std::string&); the message on std::cout is left out.
unfoldable pub set_pattern : World → ℕ → Text → Result World
unfolding set_formatter
set_pattern w i val = do
  f ← deref (init val)
  if f.is_error then ok w else set_formatter w i (some f)

abbrev pub console : LogAppender
console = record { sink = stdout; level = unkonwn; has_formatter = false; formatter = none }

-- LoggerManager::LoggerManager. `new StdoutLogAppender()` sets its fields to zero.
unfoldable pub new_manager : Result World
unfolding add_appender new_logger
new_manager =
    add_appender
      (record {
        loggers = new_logger (codes "root") ∷ [];
        appenders = console ∷ [];
        output = [];
        named = (codes "root", 0) ∷ [];
        root = 0;
      })
      0 0

-- LoggerManager::getLogger
unfoldable pub get_logger : World → Text → World × ℕ
unfolding new_logger
get_logger w name = elim (lookup name w.named) [
  | some i ↦ (w, i)
  | none ↦ (
    record w {
      loggers = w.loggers ++ record (new_logger name) { root = some w.root } ∷ [];
      named = insert name (length w.loggers) w.named;
    },
    length w.loggers,
  )
]
