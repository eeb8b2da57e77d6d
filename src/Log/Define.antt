-- ===== src/Log/Define.antt =====
-- LogAppenderDefine, LogDefine, and the listener of LogIniter that applies the `logs`
-- configuration (components/log.h, components/log.cpp).
pub mod Apply
pub mod Cast
pub mod Variable
pub mod Redefine
pub mod Succeed
use web_framework.Base.{
  ℕ, suc, ◌≡◌, Bool, true, false, not, ◌&&◌, List, [], ◌∷◌, ◌++◌, Text, codes, Option, none, some,
  length, get_elem?, if◌then◌else◌, ◌==◌, text_eq, text_lt, is_empty, any,
}
use web_framework.Log.Level.{Level, info}
use web_framework.Log.Formatter.{LogFormatter, LogEvent, init}
use web_framework.Log.World.{
  Result, ok, null_pointer, ◌>>=◌, deref, Sink, stdout, file, LogAppender, World, set_own_formatter,
}
use web_framework.Log.Logger.{
  set_level, set_pattern, clear_appender, add_appender, get_logger, log_level,
}

pub record LogAppenderDefine : Type 0 where
  pub type : ℕ
  pub level : Level
  pub format : Text
  pub file : Text

pub record LogDefine : Type 0 where
  pub name : Text
  pub level : Level
  pub format : Text
  pub appenders : List LogAppenderDefine

-- LogAppenderDefine::operator==
unfoldable pub appender_eq : LogAppenderDefine → LogAppenderDefine → Bool
unfolding text_eq
appender_eq a b =
    a.type == b.type && (a.level == b.level && (text_eq a.format b.format && text_eq a.file b.file))

unfoldable pub appenders_eq : List LogAppenderDefine → List LogAppenderDefine → Bool
unfolding appender_eq
appenders_eq [] [] = true
appenders_eq (a ∷ as') (b ∷ bs) = appender_eq a b && appenders_eq as' bs
appenders_eq _ _ = false

-- LogDefine::operator==
unfoldable pub define_eq : LogDefine → LogDefine → Bool
unfolding appenders_eq
define_eq a b =
    text_eq a.name b.name
    && (a.level == b.level && (text_eq a.format b.format && appenders_eq a.appenders b.appenders))

-- LogDefine::operator<
unfoldable pub define_lt : LogDefine → LogDefine → Bool
unfolding text_lt
define_lt a b = text_lt a.name b.name

-- std::set<LogDefine>::find: the element that is neither less nor greater.
unfoldable pub find : LogDefine → List LogDefine → Option LogDefine
unfolding define_lt
find i [] = none
find i (j ∷ rest) = if not (define_lt i j) && not (define_lt j i) then some j else find i rest

-- The appender that the listener makes: of type 1 or 2, else the pointer stays null. The level is
-- written below, before anything reads it.
unfoldable pub make_appender : LogAppenderDefine → Option LogAppender
make_appender d =
    if d.type == 1
    then some (fresh (file d.file))
    else if d.type == 2
    then some (fresh stdout)
    else none
  where
    fresh : Sink → LogAppender
    fresh sink = record { sink = sink; level = 0; has_formatter = false; formatter = none }

-- `if (!appender.format.empty()) …`; a pattern in error is reported and dropped.
unfoldable pub configure : LogAppenderDefine → LogAppender → Result LogAppender
unfolding set_own_formatter
configure d p =
    if is_empty d.format
    then ok p
    else (do f ← deref (init d.format); ok (if f.is_error then p else set_own_formatter p (some f)))

-- One round of the loop over i.appenders.
unfoldable pub attach : World → ℕ → LogAppenderDefine → Result World
unfolding make_appender configure
attach w i d = do
  p ← deref (make_appender d)
  p' ← configure d p
  add_appender (record w { appenders = w.appenders ++ record p' { level = d.level } ∷ [] }) i
      (length w.appenders)

unfoldable pub attach_all : World → ℕ → List LogAppenderDefine → Result World
unfolding attach
attach_all w i [] = ok w
attach_all w i (d ∷ ds) = do w' ← attach w i d; attach_all w' i ds

-- The pointer new_logger: the logger of the name, if the definition is new or has changed; else it
-- stays null.
unfoldable pub choose_logger : World → List LogDefine → LogDefine → World × Option ℕ
unfolding find define_eq
choose_logger w old i = elim (find i old) [
  | none ↦ let (w', n) = get_logger w i.name in (w', some n)
  | some it ↦
      if not (define_eq i it)
      then (let (w', n) = get_logger w i.name in (w', some n))
      else (w, none)
]

-- One round of the loop over new_value, from `new_logger->setLevel` on.
unfoldable pub redefine : World → ℕ → LogDefine → Result World
unfolding attach_all
redefine w n i = do
  w₁ ← set_level w n i.level
  w₂ ← (if not (is_empty i.format) then set_pattern w₁ n i.format else ok w₁)
  w₃ ← clear_appender w₂ n
  attach_all w₃ n i.appenders

unfoldable pub define_one : World → List LogDefine → LogDefine → Result World
unfolding choose_logger redefine
define_one w old i =
    let (w', pointer) = choose_logger w old i in do n ← deref pointer; redefine w' n i

unfoldable pub define_all : World → List LogDefine → List LogDefine → Result World
unfolding define_one
define_all w old [] = ok w
define_all w old (i ∷ rest) = do w' ← define_one w old i; define_all w' old rest

-- The level that silences a logger whose definition is gone.
abbrev pub silent : Level
silent = 100

-- One round of the loop over old_value.
unfoldable pub retire : World → List LogDefine → LogDefine → Result World
unfolding find
retire w new i = elim (find i new) [
  | some it ↦ ok w
  | none ↦ let (w', n) = get_logger w i.name in do w₁ ← set_level w' n silent; clear_appender w₁ n
]

unfoldable pub retire_all : World → List LogDefine → List LogDefine → Result World
unfolding retire
retire_all w new [] = ok w
retire_all w new (i ∷ rest) = do w' ← retire w new i; retire_all w' new rest

-- The listener. Its line goes to the root logger at level INFO; `event` has the other fields.
unfoldable pub on_change :
    (Text → ℕ → Text) → LogEvent → World → List LogDefine → List LogDefine → Result World
unfolding define_all retire_all
on_change date_text event w old new = do
  w₁ ← log_level date_text w w.root (record event { logger = w.root; level = info })
  w₂ ← define_all w₁ old new
  retire_all w₂ new old
