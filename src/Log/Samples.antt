-- ===== src/Log/Samples.antt =====
-- A small store of loggers and an event, for the examples.
use web_framework.Base.{
  ℕ, zero, suc, ◌≡◌, refl, subst, false, [], ◌∷◌, Text, codes, none, some, get_elem?, lookup,
  text_eq, arith, inl, inr, Bool-cases, text_eq_iff,
}
use mathlib.Core.Option.{some-injective}
use web_framework.Log.Level.{debug, info, unkonwn}
use web_framework.Log.Stream.{pos}
use web_framework.Log.Formatter.{
  message_item, new_line_item, level_item, string_item, LogEvent, LogFormatter, Environment, format,
}
use web_framework.Log.World.{LogAppender, Logger, World, stdout}
use web_framework.Log.Logger.Valid.{IsLogger, IsValid}

abbrev pub dates : Text → ℕ → Text
dates format time = codes "now"

abbrev pub event : LogEvent
event = record {
  file = codes "main.cpp";
  line = pos 12;
  thread_id = 7;
  thread_name = codes "main";
  elapse = 0;
  fiber_id = 0;
  time = 0;
  content = codes "hello";
  logger = 1;
  level = info;
}

abbrev pub line_formatter : LogFormatter
line_formatter = record {
  items = level_item ∷ string_item (codes " ") ∷ message_item ∷ new_line_item ∷ [];
  pattern = codes "%p %m%n";
  is_error = false;
}

abbrev pub env : Environment
env = record { name_of = λ i. codes "root"; date_text = dates }

-- A root logger with one console appender, and a logger "net" without appenders.
abbrev pub console : LogAppender
console = record {
  sink = stdout;
  level = unkonwn;
  has_formatter = false;
  formatter = some line_formatter;
}

abbrev pub root_logger : Logger
root_logger = record {
  name = codes "root";
  level = debug;
  appenders = 0 ∷ [];
  formatter = some line_formatter;
  root = none;
}

abbrev pub net_logger : Logger
net_logger = record {
  name = codes "net";
  level = info;
  appenders = [];
  formatter = some line_formatter;
  root = some 0;
}

abbrev pub demo : World
demo = record {
  loggers = root_logger ∷ net_logger ∷ [];
  appenders = console ∷ [];
  output = [];
  named = (codes "net", 1) ∷ (codes "root", 0) ∷ [];
  root = 0;
}

root_logger-IsLogger : IsLogger (console ∷ []) 0 0 root_logger
root_logger-IsLogger = record {
  ready = ((console, line_formatter, refl, refl), tt);
  formatted = (line_formatter, refl);
  rooted = refl;
}

net_logger-IsLogger : IsLogger (console ∷ []) 0 1 net_logger
net_logger-IsLogger = record { ready = tt; formatted = (line_formatter, refl); rooted = refl }

pub demo_loggers :
    (i : ℕ) (l : Logger) → get_elem? demo.loggers i ≡ some l → IsLogger demo.appenders demo.root i l
demo_loggers zero l h =
    subst (IsLogger (console ∷ []) 0 0) (some-injective root_logger l h) root_logger-IsLogger
demo_loggers (suc zero) l h =
    subst (IsLogger (console ∷ []) 0 1) (some-injective net_logger l h) net_logger-IsLogger
demo_loggers (suc (suc i)) l h = cc

pub demo_names :
    (name : Text) (i : ℕ)
    → lookup name demo.named ≡ some i
    → (l : Logger) × (get_elem? demo.loggers i ≡ some l) × (l.name ≡ name)
unfolding lookup
demo_names name i h = elim (Bool-cases (text_eq (codes "net") name)) [
  | inl e ↦
      let at : 1 ≡ i = ground arith in
      (net_logger, rw (← at) refl, (text_eq_iff (codes "net") name).0 e)
  | inr e ↦ elim (Bool-cases (text_eq (codes "root") name)) [
    | inl f ↦
        let at : 0 ≡ i = ground arith in
        (root_logger, rw (← at) refl, (text_eq_iff (codes "root") name).0 f)
    | inr f ↦ absurd (ground arith)
  ]
]

pub demo-IsValid : IsValid demo
demo-IsValid = record {
  loggers = demo_loggers;
  root_exists = (root_logger, refl);
  names = demo_names;
}
