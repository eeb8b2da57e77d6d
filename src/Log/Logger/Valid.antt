-- ===== src/Log/Logger/Valid.antt =====
-- The invariant of the loggers' store (components/log.h).
use web_framework.Base.{ℕ, ◌≡◌, List, Text, none, some, get_elem?, All, lookup, ◌==◌, if◌then◌else◌}
use web_framework.Log.Formatter.{LogFormatter}
use web_framework.Log.World.{LogAppender, Logger, World}

-- The appender exists and has a formatter, so that its `log` does not read a null pointer.
abbrev pub IsReady : List LogAppender → ℕ → Type 0
IsReady ps a =
    (p : LogAppender) × (f : LogFormatter) × (get_elem? ps a ≡ some p) × (p.formatter ≡ some f)

-- What holds of one logger: its appenders are ready, it has a formatter, and m_root is null on the
-- root logger and points to it on the others.
pub record IsLogger (ps : List LogAppender) (root i : ℕ) (l : Logger) : Type 0 where
  pub ready : All (IsReady ps) l.appenders
  pub formatted : (f : LogFormatter) × (l.formatter ≡ some f)
  pub rooted : l.root ≡ (if i == root then none else some root)

-- Every logger is such; the root logger exists; and each name of the manager leads to the logger
-- of that name.
pub record IsValid (w : World) : Type 0 where
  pub loggers :
      (i : ℕ) (l : Logger) → get_elem? w.loggers i ≡ some l → IsLogger w.appenders w.root i l
  pub root_exists : (l : Logger) × (get_elem? w.loggers w.root ≡ some l)
  pub names :
      (name : Text) (i : ℕ)
      → lookup name w.named ≡ some i
      → (l : Logger) × (get_elem? w.loggers i ≡ some l) × (l.name ≡ name)
