-- ===== src/Log/Logger/Operations.antt =====
-- The calls that a program makes on the loggers (components/log.h, components/log.cpp).
use web_framework.Base.{ℕ, ◌≡◌, refl, inl, inr, Text, some, get_elem?, Bool-cases}
use web_framework.Log.Level.{Level}
use web_framework.Log.Formatter.{LogFormatter}
use web_framework.Log.Formatter.RoundTrip.{init_total}
use web_framework.Log.World.{
  Result, ok, ◌>>=◌, LogAppender, Logger, World, appender_at, with_appender, set_own_formatter,
  set_own_pattern,
}
use web_framework.Log.Logger.{
  set_level, add_appender, del_appender, clear_appender, set_formatter, set_pattern, get_logger,
}
use web_framework.Log.Logger.Valid.{IsValid}
use web_framework.Log.Logger.Preserve.{
  Succeeds, set_level-Succeeds, clear_appender-Succeeds, del_appender-Succeeds,
  add_appender-Succeeds, set_formatter-Succeeds, get_logger-IsValid, with_appender-IsValid,
}

pub data Operation : Type 0 where
  sets_level : ℕ → Level → Operation
  adds removes : ℕ → ℕ → Operation
  clears : ℕ → Operation
  sets_pattern : ℕ → Text → Operation
  sets_formatter : ℕ → LogFormatter → Operation
  sets_appender_formatter : ℕ → LogFormatter → Operation
  sets_appender_pattern : ℕ → Text → Operation
  gets : Text → Operation

abbrev pub perform : World → Operation → Result World
perform w (sets_level i level) = set_level w i level
perform w (adds i a) = add_appender w i a
perform w (removes i a) = del_appender w i a
perform w (clears i) = clear_appender w i
perform w (sets_pattern i val) = set_pattern w i val
perform w (sets_formatter i f) = set_formatter w i (some f)
perform w (sets_appender_formatter a f) = do
  p ← appender_at w a
  ok (with_appender w a (set_own_formatter p (some f)))
perform w (sets_appender_pattern a val) = do
  p ← appender_at w a
  ok (with_appender w a (set_own_pattern p val))
perform w (gets name) = ok (get_logger w name).0

abbrev pub IsLoggerIndex : World → ℕ → Type 0
IsLoggerIndex w i = (l : Logger) × (get_elem? w.loggers i ≡ some l)

abbrev pub IsAppenderIndex : World → ℕ → Type 0
IsAppenderIndex w a = (p : LogAppender) × (get_elem? w.appenders a ≡ some p)

-- The pointers that a call is given are to objects of the store.
abbrev pub IsCall : World → Operation → Type 0
IsCall w (sets_level i level) = IsLoggerIndex w i
IsCall w (adds i a) = IsLoggerIndex w i × IsAppenderIndex w a
IsCall w (removes i a) = IsLoggerIndex w i
IsCall w (clears i) = IsLoggerIndex w i
IsCall w (sets_pattern i val) = IsLoggerIndex w i
IsCall w (sets_formatter i f) = IsLoggerIndex w i
IsCall w (sets_appender_formatter a f) = IsAppenderIndex w a
IsCall w (sets_appender_pattern a val) = IsAppenderIndex w a
IsCall w (gets name) = Unit

pub set_pattern-Succeeds :
    {w : World} (i : ℕ) (val : Text)
    → IsValid w
    → IsLoggerIndex w i
    → Succeeds (set_pattern w i val)
unfolding set_pattern
set_pattern-Succeeds {w} i val v (l, at) =
    let (f, e, _) = init_total val in
    elim (Bool-cases f.is_error) [
      | inl bad ↦ (w, rw e (rw bad), v)
      | inr good ↦
          let (u, r, valid) = set_formatter-Succeeds v i at f in (u, rw e (rw good r), valid)
    ]

-- On a valid store a logger's setLevel, addAppender, delAppender, clearAppender and setFormatter,
-- by a pattern or by a pointer, an appender's setFormatter, by a pattern or by a pointer, and
-- getLogger return, without reading a null pointer, and leave the store valid, if the pointers they
-- are given are to objects of the store.
pub perform-Succeeds :
    {w : World} (op : Operation) → IsValid w → IsCall w op → Succeeds (perform w op)
unfolding set_own_pattern set_own_formatter
perform-Succeeds (sets_level i level) v (l, at) = set_level-Succeeds v i at level
perform-Succeeds (adds i a) v ((l, at), (p, there)) = add_appender-Succeeds v i at a p there
perform-Succeeds (removes i a) v (l, at) = del_appender-Succeeds v i at a
perform-Succeeds (clears i) v (l, at) = clear_appender-Succeeds v i at
perform-Succeeds (sets_pattern i val) v there = set_pattern-Succeeds i val v there
perform-Succeeds (sets_formatter i f) v (l, at) = set_formatter-Succeeds v i at f
perform-Succeeds {w} (sets_appender_formatter a f) v (p, there) =
    let p' = set_own_formatter p (some f) in
    (with_appender w a p', rw there refl, with_appender-IsValid a p' f v refl)
perform-Succeeds {w} (sets_appender_pattern a val) v (p, there) =
    let (f, e, _) = init_total val in
    let p' = set_own_pattern p val in
    (with_appender w a p', rw there refl, with_appender-IsValid a p' f v e)
perform-Succeeds {w} (gets name) v there = (_, refl, get_logger-IsValid w name v)
