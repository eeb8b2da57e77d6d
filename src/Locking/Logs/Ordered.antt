-- ===== src/Locking/Logs/Ordered.antt =====
-- The order of the locks in the calls on the loggers (components/log.h, components/log.cpp).
use web_framework.Base.{
  ℕ, suc, ◌≡◌, ◌≤◌, refl, sym, ap, ◌∙◌, inl, inr, true, false, List, [], ◌∷◌, All, some, get_elem?,
  if◌then◌else◌, leb, is_empty, arith, Bool-cases, ==_iff, ◌==◌,
}
use web_framework.Log.Level.{Level}
use web_framework.Log.World.{Result, ok, ◌>>=◌, deref, Sink, stdout, file, Logger, World}
use web_framework.Log.Logger.Valid.{IsReady, IsLogger, IsValid}
use web_framework.Log.Logger.Operations.{IsLoggerIndex}
use web_framework.Log.Logger.{chain}
use web_framework.Thread.Locks.Order.{Code, skip, ◌then◌, IsAbove, IsAbove-≤}
use web_framework.Locking.{Lock, logger, appender, guarded, framework, rank}
use web_framework.Locking.Logs.{
  each, append_code, log_here_code, log_code, share_code, sink_code, appender_yaml_code,
}

module _ (root : ℕ) where
  -- The call returns, and takes its locks in order, each of rank `floor` at least.
  abbrev pub IsOrdered : ℕ → Result (Code Lock) → Type 0
  IsOrdered floor r = (c : Code Lock) × (r ≡ ok c) × IsAbove (framework root) floor c

  pub IsOrdered-≤ : {r s : ℕ} (m : Result (Code Lock)) → r ≤ s → IsOrdered s m → IsOrdered r m
  IsOrdered-≤ m le (c, e, above) = (c, e, IsAbove-≤ (framework root) c le above)

  pub each-IsOrdered {ℓ κ} :
      {A : Type ℓ} (P : A → Type κ) (floor : ℕ) (f : A → Result (Code Lock)) (xs : List A)
      → ((x : A) → P x → IsOrdered floor (f x))
      → All P xs
      → IsOrdered floor (each f xs)
  each-IsOrdered P floor f [] h hold = (skip, refl, tt)
  each-IsOrdered P floor f (x ∷ xs) h (p, hold) =
      let (c, e, above) = h x p in
      let (d, e', above') = each-IsOrdered P floor f xs h hold in
      (c then d, rw (e, e') refl, (above, above'))

  pub logger-IsAbove :
      (i : ℕ) (c : Code Lock)
      → IsAbove (framework root) 6 c
      → IsAbove (framework root) 4 (guarded (logger i) c)
  logger-IsAbove i c above =
      let low : 4 ≤ rank root (logger i) = ground arith in
      let high : suc (rank root (logger i)) ≤ 6 = ground arith in
      (low, IsAbove-≤ (framework root) c high above)

  other-IsAbove :
      (i : ℕ) (c : Code Lock)
      → (i == root) ≡ false
      → IsAbove (framework root) 5 c
      → IsAbove (framework root) 4 (guarded (logger i) c)
  other-IsAbove i c other above =
      let low : 4 ≤ rank root (logger i) = ground arith in
      let high : suc (rank root (logger i)) ≤ 5 = ground arith in
      (low, IsAbove-≤ (framework root) c high above)

  root-IsAbove :
      (c : Code Lock)
      → IsAbove (framework root) 6 c
      → IsAbove (framework root) 5 (guarded (logger root) c)
  root-IsAbove c above =
      let low : 5 ≤ rank root (logger root) = ground arith in
      let high : suc (rank root (logger root)) ≤ 6 = ground arith in
      (low, IsAbove-≤ (framework root) c high above)

  append-IsOrdered :
      (w : World) (level : Level) (a : ℕ)
      → IsReady w.appenders a
      → IsOrdered 6 (append_code w level a)
  unfolding append_code
  append-IsOrdered w level a (p, f, at, e) = elim (Bool-cases (leb p.level level)) [
    | inl high ↦ (guarded (appender a) skip, rw at (rw high (rw e refl)), (omega arith, tt))
    | inr low ↦ (skip, rw at (rw low refl), tt)
  ]

  pub share-IsOrdered : (w : World) (a : ℕ) → IsReady w.appenders a → IsOrdered 6 (share_code w a)
  unfolding share_code
  share-IsOrdered w a (p, f, at, e) = elim (Bool-cases p.has_formatter) [
    | inl own ↦ (skip, rw at (rw own refl), tt)
    | inr none_own ↦ (guarded (appender a) skip, rw at (rw none_own refl), (omega arith, tt))
  ]

  pub sink-IsAbove : (s : Sink) (a : ℕ) → IsAbove (framework root) 6 (sink_code s a)
  sink-IsAbove stdout a = (omega arith, tt)
  sink-IsAbove (file name) a = tt

  pub appender_yaml-IsOrdered :
      (w : World) (a : ℕ) → IsReady w.appenders a → IsOrdered 6 (appender_yaml_code w a)
  unfolding appender_yaml_code
  appender_yaml-IsOrdered w a (p, f, at, e) =
      (sink_code p.sink a, rw at refl, sink-IsAbove p.sink a)

-- The store is valid, and its root logger has an appender.
abbrev pub IsServed : World → Type 0
IsServed w =
    IsValid w
    × ((r : Logger) × (get_elem? w.loggers w.root ≡ some r) × (is_empty r.appenders ≡ false))

-- A logger that has appenders of its own; `above` puts the lock of the logger in front.
own-IsOrdered :
    (w : World) (i floor : ℕ) (l : Logger) (level : Level) (up : ℕ → Result (Code Lock))
    → All (IsReady w.appenders) l.appenders
    → is_empty l.appenders ≡ false
    → ((c : Code Lock)
        → IsAbove (framework w.root) 6 c
        → IsAbove (framework w.root) floor (guarded (logger i) c))
    → IsOrdered w.root floor (log_here_code w i l level up)
unfolding log_here_code
own-IsOrdered w i floor l level up ready own above = elim (Bool-cases (leb l.level level)) [
  | inr low ↦ (skip, rw low refl, tt)
  | inl high ↦
      let (c, e, on) =
        each-IsOrdered w.root (IsReady w.appenders) 6 (append_code w level) l.appenders
          (append-IsOrdered w.root w level) ready in
      (guarded (logger i) c, rw high (rw own (rw e refl)), above c on)
]

pub log_code-log_here_code :
    (f : ℕ) (w : World) (i : ℕ) (l : Logger) (level : Level)
    → get_elem? w.loggers i ≡ some l
    → log_code (suc f) w level i ≡ log_here_code w i l level (log_code f w level)
unfolding log_code
log_code-log_here_code f w i l level at =
    ap (λ o. deref o >>= λ m. log_here_code w i m level (log_code f w level)) at

root_log-IsOrdered :
    (w : World) (level : Level) → IsServed w → IsOrdered w.root 5 (log_code 1 w level w.root)
root_log-IsOrdered w level (v, (r, top, serves)) =
    let (c, e, above) =
      own-IsOrdered w w.root 5 r level (log_code 0 w level) (v.loggers w.root r top).ready serves
        (root-IsAbove w.root) in
    (c, log_code-log_here_code 0 w w.root r level top ∙ e, above)

-- A logger that hands the event to the root logger.
through-IsOrdered :
    (w : World) (i : ℕ) (l : Logger) (level : Level) (up : ℕ → Result (Code Lock))
    → is_empty l.appenders ≡ true
    → l.root ≡ some w.root
    → (i == w.root) ≡ false
    → IsOrdered w.root 5 (up w.root)
    → IsOrdered w.root 4 (log_here_code w i l level up)
unfolding log_here_code
through-IsOrdered w i l level up own to_root other (c, e, above) =
    elim (Bool-cases (leb l.level level)) [
      | inr low ↦ (skip, rw low refl, tt)
      | inl high ↦ (
        guarded (logger i) c,
        rw high (rw own (rw to_root (rw e refl))),
        other-IsAbove w.root i c other above,
      )
    ]

pub log-IsOrdered :
    (w : World) (level : Level) (i : ℕ)
    → IsServed w
    → IsLoggerIndex w i
    → IsOrdered w.root 4 (log_code chain w level i)
log-IsOrdered w level i (v, (r, top, serves)) (l, at) =
    let (c, e, above) = here in (c, log_code-log_here_code 1 w i l level at ∙ e, above)
  where
    fits : IsLogger w.appenders w.root i l
    fits = v.loggers i l at

    here : IsOrdered w.root 4 (log_here_code w i l level (log_code 1 w level))
    here = elim (Bool-cases (is_empty l.appenders)) [
      | inr own ↦ own-IsOrdered w i 4 l level _ fits.ready own (logger-IsAbove w.root i)
      | inl through ↦ elim (Bool-cases (i == w.root)) [
        | inr other ↦
            through-IsOrdered w i l level _ through (fits.rooted ∙ rw other) other
              (root_log-IsOrdered w level (v, (r, top, serves)))
        | inl same ↦
            let one : some l ≡ some r = sym at ∙ rw ((==_iff i w.root).0 same) top in
            absurd (ground arith)
      ]
    ]
