-- ===== src/Log/World.antt =====
-- The objects behind the shared pointers of components/log.h: loggers, appenders and the manager.
-- A pointer is an index into the store, and a null pointer is `none`. The mutexes of these classes
-- are not part of the state: each operation here is one critical section of the source, and
-- Locking has the locks.
use web_framework.Base.{
  ℕ, Bool, List, [], ◌∷◌, ◌++◌, Text, Option, none, some, get_elem?, set, if◌then◌else◌, leb,
  is_some,
}
use web_framework.Log.Level.{Level}
use web_framework.Log.Formatter.{LogFormatter, LogEvent, Environment, format, init}

-- A call that returns, or that reads through a null pointer; `out_of_fuel` is the model's own.
pub data Result {ℓ} (A : Type ℓ) : Type ℓ where
  ok : A → Result A
  null_pointer : Result A
  out_of_fuel : Result A

infixl 5 ◌>>=◌
abbrev pub ◌>>=◌ {ℓ κ} : {A : Type ℓ} {B : Type κ} → Result A → (A → Result B) → Result B
ok a >>= f = f a
null_pointer >>= f = null_pointer
out_of_fuel >>= f = out_of_fuel

-- `p->`
abbrev pub deref {ℓ} : {A : Type ℓ} → Option A → Result A
deref none = null_pointer
deref (some a) = ok a

-- StdoutLogAppender, and FileLogAppender with its file name.
pub data Sink : Type 0 where
  stdout : Sink
  file : Text → Sink

pub record LogAppender : Type 0 where
  pub sink : Sink
  pub level : Level
  pub has_formatter : Bool
  pub formatter : Option LogFormatter

pub record Logger : Type 0 where
  pub name : Text
  pub level : Level
  pub appenders : List ℕ
  pub formatter : Option LogFormatter
  pub root : Option ℕ

-- `output` is what was put to each sink's stream, in order; `named` and `root` are the manager's
-- m_loggers and m_root.
pub record World : Type 0 where
  pub loggers : List Logger
  pub appenders : List LogAppender
  pub output : List (Sink × Text)
  pub named : List (Text × ℕ)
  pub root : ℕ

abbrev pub logger_at : World → ℕ → Result Logger
logger_at w i = deref (get_elem? w.loggers i)

abbrev pub appender_at : World → ℕ → Result LogAppender
appender_at w a = deref (get_elem? w.appenders a)

abbrev pub with_logger : World → ℕ → Logger → World
with_logger w i l = record w { loggers = set w.loggers i l }

abbrev pub with_appender : World → ℕ → LogAppender → World
with_appender w a p = record w { appenders = set w.appenders a p }

abbrev name_in : Option Logger → Text
name_in none = []
name_in (some l) = l.name

-- What the format items see; `date_text` stands for localtime_r and strftime.
abbrev pub environment : (Text → ℕ → Text) → World → Environment
environment date_text w = record {
  name_of = λ i. name_in (get_elem? w.loggers i);
  date_text = date_text;
}

-- LogAppender::setFormatter(val, hasFormatter)
unfoldable pub set_formatter_as : LogAppender → Option LogFormatter → Bool → LogAppender
set_formatter_as p val has = record p { formatter = val; has_formatter = has }

-- LogAppender::setFormatter(val)
unfoldable pub set_own_formatter : LogAppender → Option LogFormatter → LogAppender
set_own_formatter p val = record p { formatter = val; has_formatter = is_some val }

-- LogAppender::setFormatter(const std::string&); whether the pattern is in error is not asked.
unfoldable pub set_own_pattern : LogAppender → Text → LogAppender
unfolding set_own_formatter
set_own_pattern p val = set_own_formatter p (init val)

-- StdoutLogAppender::log and FileLogAppender::log: the line goes to the appender's stream. Whether the
-- stream of a file takes it is `write_line` of Log.File.
unfoldable pub append_log :
    (Text → ℕ → Text) → World → LogAppender → Level → LogEvent → Result World
append_log date_text w p level event =
    if leb p.level level
    then (do
      f ← deref p.formatter
      ok (record w {
        output = w.output ++ (p.sink, format (environment date_text w) f level event) ∷ [];
      }))
    else ok w
