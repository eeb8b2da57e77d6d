-- ===== src/Locking/Logs/Lines.antt =====
-- The lines of Logger::log and the locks under which they are written (components/log.cpp).
use web_framework.Base.{
  ℕ, ◌≡◌, refl, sym, ap, ◌∙◌, inl, inr, Bool, true, false, not, ◌&&◌, ◌||◌, List, [], ◌∷◌, ◌++◌,
  All, Text, some, get_elem?, if◌then◌else◌, leb, is_empty, arith, Bool-cases, append-nil,
  append_assoc,
}
use web_framework.Log.Level.{Level}
use web_framework.Log.Formatter.{LogEvent, Environment}
use web_framework.Log.World.{Result, ok, Sink, Logger, World, environment}
use web_framework.Log.Logger.{log, chain}
use web_framework.Log.Logger.Valid.{IsReady, IsValid}
use web_framework.Log.Logger.Deliveries.{lines, lines_at, wrote, root_pointer, log-lines}
use web_framework.Thread.Locks.Order.{Code, skip, ◌then◌, within}
use web_framework.Locking.{Lock, appender, logger, guarded}
use web_framework.Locking.Logs.{each, append_code, log_here_code, log_code}
use web_framework.Locking.Logs.Ordered.{IsServed, log_code-log_here_code}

-- The appenders whose locks are taken, in order.
abbrev pub appenders_in : Code Lock → List ℕ
appenders_in skip = []
appenders_in (c then d) = appenders_in c ++ appenders_in d
appenders_in (within (appender a) m c) = a ∷ appenders_in c
appenders_in (within l m c) = appenders_in c

module _ (env : Environment) (w : World) (level : Level) (event : LogEvent) where
  abbrev lines_of : List ℕ → List (Sink × Text)
  lines_of bs = lines env w.appenders bs level event

  lines-append : (xs ys : List ℕ) → lines_of (xs ++ ys) ≡ lines_of xs ++ lines_of ys
  lines-append [] ys = refl
  lines-append (x ∷ xs) ys =
      ap (λ z. lines_at env level event (get_elem? w.appenders x) ++ z) (lines-append xs ys)
      ∙ sym (
          append_assoc (lines_at env level event (get_elem? w.appenders x)) (lines_of xs)
            (lines_of ys))

  -- The call returns, and `bs` have the lines of the appenders whose locks it takes.
  abbrev Covers : List ℕ → Result (Code Lock) → Type 0
  Covers bs r = (c : Code Lock) × (r ≡ ok c) × (lines_of (appenders_in c) ≡ lines_of bs)

  append-Covers : (a : ℕ) → IsReady w.appenders a → Covers (a ∷ []) (append_code w level a)
  unfolding append_code
  append-Covers a (p, f, at, e) = elim (Bool-cases (leb p.level level)) [
    | inl high ↦ (guarded (appender a) skip, rw at (rw high (rw e refl)), refl)
    | inr low ↦ (skip, rw at (rw low refl), rw at (rw e (rw low refl)))
  ]

  each-Covers :
      (bs : List ℕ) → All (IsReady w.appenders) bs → Covers bs (each (append_code w level) bs)
  each-Covers [] ready = (skip, refl, refl)
  each-Covers (a ∷ bs) (here, ready) =
      let (c, e, same) = append-Covers a here in
      let (d, e', same') = each-Covers bs ready in
      (
        c then d,
        rw (e, e') refl,
        lines-append (appenders_in c) (appenders_in d)
            ∙ ap (λ z. z ++ lines_of (appenders_in d)) same
            ∙ ap (λ z. lines_of (a ∷ []) ++ z) same'
            ∙ sym (lines-append (a ∷ []) bs),
      )

  -- The appenders that serve an event, by the levels of a logger and of the root logger.
  abbrev serving : Logger → Logger → List ℕ
  serving l r =
      if leb l.level level && (not (is_empty l.appenders) || leb r.level level)
      then (if is_empty l.appenders then r.appenders else l.appenders)
      else []

  own-Covers :
      (i : ℕ) (l : Logger) (up : ℕ → Result (Code Lock))
      → All (IsReady w.appenders) l.appenders
      → is_empty l.appenders ≡ false
      → Covers (if leb l.level level then l.appenders else []) (log_here_code w i l level up)
  unfolding log_here_code
  own-Covers i l up ready own = elim (Bool-cases (leb l.level level)) [
    | inr low ↦ (skip, rw low refl, rw low refl)
    | inl high ↦
        let (c, e, same) = each-Covers l.appenders ready in
        (guarded (logger i) c, rw high (rw own (rw e refl)), rw high same)
  ]

  through-Covers :
      (i : ℕ) (l : Logger) (up : ℕ → Result (Code Lock)) (bs : List ℕ)
      → is_empty l.appenders ≡ true
      → l.root ≡ some w.root
      → Covers bs (up w.root)
      → Covers (if leb l.level level then bs else []) (log_here_code w i l level up)
  unfolding log_here_code
  through-Covers i l up bs own root (c, e, same) = elim (Bool-cases (leb l.level level)) [
    | inr low ↦ (skip, rw low refl, rw low refl)
    | inl high ↦ (guarded (logger i) c, rw high (rw own (rw root (rw e refl))), rw high same)
  ]

  log_code-Covers :
      (date_text : Text → ℕ → Text) (i : ℕ) (l r : Logger)
      → IsValid w
      → get_elem? w.loggers i ≡ some l
      → get_elem? w.loggers w.root ≡ some r
      → is_empty r.appenders ≡ false
      → Covers (serving l r) (log_code chain w level i)
  log_code-Covers date_text i l r v at top serves = elim (Bool-cases (is_empty l.appenders)) [
    | inr own ↦
        let (c, e, same) = own-Covers i l (log_code 1 w level) (v.loggers i l at).ready own in
        (c, log_code-log_here_code 1 w i l level at ∙ e, same ∙ ap lines_of (ground arith))
    | inl through ↦
        let up = root_pointer date_text w i l r v at top through serves in
        let (c, e, same) =
          own-Covers w.root r (log_code 0 w level) (v.loggers w.root r top).ready serves in
        let root_log = log_code-log_here_code 0 w w.root r level top ∙ e in
        let (d, e', same') =
          through-Covers i l (log_code 1 w level) (if leb r.level level then r.appenders else [])
            through up (c, root_log, same) in
        (d, log_code-log_here_code 1 w i l level at ∙ e', same' ∙ ap lines_of (ground arith))
  ]

  wrote_lines :
      (bs : List ℕ) (b : Bool)
      → wrote w (lines_of (if b then bs else [])) ≡ (if b then wrote w (lines_of bs) else w)
  wrote_lines bs true = refl
  wrote_lines bs false = ap (λ o. record w { output = o }) (append-nil w.output)

-- On a valid store whose root logger has an appender, a call of Logger::log returns, and what it
-- writes are the lines of the appenders whose locks it takes, in the order in which it takes
-- them.
pub log_code-lines :
    (date_text : Text → ℕ → Text) (w : World) (i : ℕ) (l : Logger) (level : Level)
    (event : LogEvent)
    → IsServed w
    → get_elem? w.loggers i ≡ some l
    → (c : Code Lock) × (log_code chain w level i ≡ ok c)
      × (log chain date_text w i level event
          ≡ ok (wrote w (lines (environment date_text w) w.appenders (appenders_in c) level event)))
log_code-lines date_text w i l level event (v, (r, top, serves)) at =
    let env = environment date_text w in
    let (c, e, same) = log_code-Covers env w level event date_text i l r v at top serves in
    let b = leb l.level level && (not (is_empty l.appenders) || leb r.level level) in
    let bs = if is_empty l.appenders then r.appenders else l.appenders in
    (
      c,
      e,
      log-lines date_text w i l r level event v at top serves
          ∙ ap ok (sym (wrote_lines env w level event bs b) ∙ ap (wrote w) (sym same)),
    )
