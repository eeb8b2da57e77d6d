-- ===== src/Log/Logger/Deliveries.antt =====
-- Logger::log (components/log.cpp): the lines of the appenders of a logger, or of the root logger.
use web_framework.Base.{
  ℕ, suc, ◌≡◌, sym, ap, ◌∙◌, inl, inr, true, false, List, [], ◌∷◌, ◌++◌, All, Text, Option, none,
  some, get_elem?, if◌then◌else◌, leb, is_empty, not, ◌&&◌, ◌||◌, arith, append-nil, ==_iff,
  append_assoc, Bool-cases, ◌==◌,
}
use web_framework.Log.Level.{Level}
use web_framework.Log.Formatter.{LogFormatter, LogEvent, Environment, format}
use web_framework.Log.World.{
  Result, ok, null_pointer, ◌>>=◌, deref, Sink, LogAppender, Logger, World, environment, append_log,
}
use web_framework.Log.Logger.{log_each, log_here, log, chain}
use web_framework.Log.Logger.Valid.{IsReady, IsValid}

-- The lines that one appender writes.
abbrev pub line_of :
    Environment → LogAppender → Level → LogEvent → Option LogFormatter → List (Sink × Text)
line_of env p level event none = []
line_of env p level event (some f) =
    if leb p.level level then (p.sink, format env f level event) ∷ [] else []

abbrev pub lines_at : Environment → Level → LogEvent → Option LogAppender → List (Sink × Text)
lines_at env level event none = []
lines_at env level event (some p) = line_of env p level event p.formatter

-- The lines of the appenders of a list, in its order.
abbrev pub lines : Environment → List LogAppender → List ℕ → Level → LogEvent → List (Sink × Text)
lines env ps [] level event = []
lines env ps (a ∷ rest) level event =
    lines_at env level event (get_elem? ps a) ++ lines env ps rest level event

abbrev pub wrote : World → List (Sink × Text) → World
wrote w out = record w { output = w.output ++ out }

module _ (date_text : Text → ℕ → Text) where
  append_log-line_of :
      (w : World) (p : LogAppender) (level : Level) (event : LogEvent) (f : LogFormatter)
      → p.formatter ≡ some f
      → append_log date_text w p level event
        ≡ ok (wrote w (line_of (environment date_text w) p level event p.formatter))
  unfolding append_log
  append_log-line_of w p level event f e = ground (arith, append-nil w.output)

  log_each-lines :
      (w : World) (bs : List ℕ) (level : Level) (event : LogEvent)
      → All (IsReady w.appenders) bs
      → log_each date_text w bs level event
        ≡ ok (wrote w (lines (environment date_text w) w.appenders bs level event))
  unfolding log_each
  log_each-lines w [] level event ready = rw append-nil
  log_each-lines w (a ∷ rest) level event ((p, f, there, e), ready) =
      let out = line_of (environment date_text w) p level event p.formatter in
      rw there (
        ap (λ r. r >>= (λ w'. log_each date_text w' rest level event))
          (append_log-line_of w p level event f e)
        ∙ log_each-lines (wrote w out) rest level event ready
        ∙ ap (λ o. ok (record w { output = o })) (append_assoc w.output out _))

  abbrev written : World → List ℕ → Level → LogEvent → World
  written w bs level event = wrote w (lines (environment date_text w) w.appenders bs level event)

  log-log_here :
      (f : ℕ) (w : World) (i : ℕ) (l : Logger) (level : Level) (event : LogEvent)
      → get_elem? w.loggers i ≡ some l
      → log (suc f) date_text w i level event
        ≡ log_here date_text w l level event (λ r. log f date_text w r level event)
  unfolding log
  log-log_here f w i l level event at =
      ap
        (λ o. deref o >>= λ m.
          log_here date_text w m level event (λ r. log f date_text w r level event))
        at

  -- A logger that has appenders of its own.
  log_here_own :
      (w : World) (l : Logger) (level : Level) (event : LogEvent) (up : ℕ → Result World)
      → All (IsReady w.appenders) l.appenders
      → is_empty l.appenders ≡ false
      → log_here date_text w l level event up
        ≡ ok (if leb l.level level then written w l.appenders level event else w)
  unfolding log_here
  log_here_own w l level event up ready own =
      ground (arith, log_each-lines w l.appenders level event ready)

  -- A logger that hands the event to the root logger.
  log_here_through :
      (w : World) (l : Logger) (level : Level) (event : LogEvent) (up : ℕ → Result World)
      → is_empty l.appenders ≡ true
      → l.root ≡ some w.root
      → log_here date_text w l level event up ≡ (if leb l.level level then up w.root else ok w)
  unfolding log_here
  log_here_through w l level event up own root = ground arith

  -- A logger with no appender is not the root logger, if that has one.
  pub root_pointer :
      (w : World) (i : ℕ) (l r : Logger)
      → IsValid w
      → get_elem? w.loggers i ≡ some l
      → get_elem? w.loggers w.root ≡ some r
      → is_empty l.appenders ≡ true
      → is_empty r.appenders ≡ false
      → l.root ≡ some w.root
  root_pointer w i l r v at top own serves = elim (Bool-cases (i == w.root)) [
    | inr other ↦ (v.loggers i l at).rooted ∙ rw other
    | inl same ↦
        let one : some l ≡ some r = sym at ∙ rw ((==_iff i w.root).0 same) top in ground arith
  ]

  -- On a valid store whose root logger has an appender, a call of `log` returns. Below the
  -- logger's level nothing changes; else one line goes to each serving appender that takes the
  -- level, in order, and nothing else changes. Where the logger has no appender, the root logger's
  -- level counts as well.
  pub log-lines :
      (w : World) (i : ℕ) (l r : Logger) (level : Level) (event : LogEvent)
      → IsValid w
      → get_elem? w.loggers i ≡ some l
      → get_elem? w.loggers w.root ≡ some r
      → is_empty r.appenders ≡ false
      → log chain date_text w i level event
        ≡ ok (
            if leb l.level level && (not (is_empty l.appenders) || leb r.level level)
            then written w (if is_empty l.appenders then r.appenders else l.appenders) level event
            else w)
  log-lines w i l r level event v at top serves = elim (Bool-cases (is_empty l.appenders)) [
    | inr own ↦
        log-log_here 1 w i l level event at
        ∙ log_here_own w l level event _ (v.loggers i l at).ready own
        ∙ ground arith
    | inl through ↦
        let up = root_pointer w i l r v at top through serves in
        let root_log =
          log-log_here 0 w w.root r level event top
          ∙ log_here_own w r level event _ (v.loggers w.root r top).ready serves in
        log-log_here 1 w i l level event at
        ∙ log_here_through w l level event _ through up
        ∙ rw root_log (ground arith)
  ]

  root-none :
      (w : World) (r : Logger) → IsValid w → get_elem? w.loggers w.root ≡ some r → r.root ≡ none
  root-none w r v top = (v.loggers w.root r top).rooted ∙ ground arith

  log_here_null :
      (w : World) (l : Logger) (level : Level) (event : LogEvent) (up : ℕ → Result World)
      → is_empty l.appenders ≡ true
      → l.root ≡ none
      → leb l.level level ≡ true
      → log_here date_text w l level event up ≡ null_pointer
  unfolding log_here
  log_here_null w l level event up own root high = ground arith

  -- Where neither a logger nor the root logger of a valid store has an appender, an event that both
  -- levels admit makes `log` read the null pointer m_root of the root logger.
  pub log-null_pointer :
      (w : World) (i : ℕ) (l r : Logger) (level : Level) (event : LogEvent)
      → IsValid w
      → get_elem? w.loggers i ≡ some l
      → get_elem? w.loggers w.root ≡ some r
      → is_empty l.appenders ≡ true
      → is_empty r.appenders ≡ true
      → leb l.level level ≡ true
      → leb r.level level ≡ true
      → log chain date_text w i level event ≡ null_pointer
  log-null_pointer w i l r level event v at top own serves high admits =
      let root_log =
        log-log_here 0 w w.root r level event top
        ∙ log_here_null w r level event _ serves (root-none w r v top) admits in
      elim (Bool-cases (i == w.root)) [
        | inl same ↦
            let up = (v.loggers i l at).rooted ∙ rw same in
            log-log_here 1 w i l level event at ∙ log_here_null w l level event _ own up high
        | inr other ↦
            let up = (v.loggers i l at).rooted ∙ rw other in
            log-log_here 1 w i l level event at
            ∙ log_here_through w l level event _ own up
            ∙ rw high root_log
      ]
