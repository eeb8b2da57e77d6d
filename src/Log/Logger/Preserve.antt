-- ===== src/Log/Logger/Preserve.antt =====
-- The operations on a logger (components/log.cpp) on a valid store, one by one.
use web_framework.Base.{
  ℕ, ◌<◌, ◌≡◌, refl, inl, inr, subst, Bool, true, false, not, List, [], ◌∷◌, ◌++◌, All, Text,
  Option, none, some, length, get_elem?, set, lookup, lookup-insert_cases, get_elem?-set_known,
  get_elem?-set_cases, get_elem?-set_read, get_elem?-append_some, get_elem?-append_cases,
  get_elem?-append_length, get_elem?-some_lt, ◌==◌, if◌then◌else◌, arith, Option-cases, Bool-cases,
  is_some,
}
use web_framework.Log.Level.{Level}
use web_framework.Log.Formatter.{LogFormatter}
use web_framework.Log.Formatter.RoundTrip.{init_total}
use web_framework.Log.World.{
  Result, ok, LogAppender, Logger, World, with_logger, with_appender, set_formatter_as,
}
use web_framework.Log.Logger.{
  set_level, add_appender, erase_first, del_appender, clear_appender, share_formatter,
  set_formatter, new_logger, default_pattern, get_logger,
}
use web_framework.Log.Logger.Valid.{IsReady, IsLogger, IsValid}

-- A result that is returned and valid.
abbrev pub Succeeds : Result World → Type 0
Succeeds r = (w : World) × (r ≡ ok w) × IsValid w

-- Appender `a` stays ready whatever is written over appenders, if it is ready itself.
set-IsReady :
    (ps : List LogAppender) (a b : ℕ) (p : LogAppender) (f : LogFormatter)
    → p.formatter ≡ some f
    → IsReady ps b
    → IsReady (set ps a p) b
set-IsReady ps a b p f e (q, g, at, h) = elim (get_elem?-set_read ps a b p at) [
  | inl (_, new) ↦ (p, f, new, e)
  | inr old ↦ (q, g, old, h)
]

All-set :
    (ps : List LogAppender) (a : ℕ) (p : LogAppender) (f : LogFormatter) (bs : List ℕ)
    → p.formatter ≡ some f
    → All (IsReady ps) bs
    → All (IsReady (set ps a p)) bs
All-set ps a p f [] e h = tt
All-set ps a p f (b ∷ bs) e h = (set-IsReady ps a b p f e h.0, All-set ps a p f bs e h.1)

-- A logger may be replaced by one of the same name that is as it should be.
with_logger-IsValid :
    {w : World} (i : ℕ) (l l' : Logger)
    → IsValid w
    → get_elem? w.loggers i ≡ some l
    → l'.name ≡ l.name
    → IsLogger w.appenders w.root i l'
    → IsValid (with_logger w i l')
with_logger-IsValid {w} i l l' v at same fine = record {
  loggers = λ j m h. elim (get_elem?-set_cases w.loggers i j l' h) [
    | inl (e, f) ↦
        subst (λ k. IsLogger w.appenders w.root k m) e
          (subst (IsLogger w.appenders w.root i) f fine)
    | inr old ↦ v.loggers j m old
  ];
  root_exists =
      let (r, h) = v.root_exists in
      elim (get_elem?-set_read w.loggers i w.root l' h) [
        | inl (_, new) ↦ (l', new)
        | inr old ↦ (r, old)
      ];
  names = λ name j h.
      let (m, found, named) = v.names name j h in
      elim (get_elem?-set_read w.loggers i j l' found) [
        | inl (e, new) ↦ (l', new, ground (arith, rw (← e) at found))
        | inr old ↦ (m, old, named)
      ];
}

-- The appender that `addAppender` leaves has a formatter: its own, or the logger's.
completed :
    (p : LogAppender) (val : Option LogFormatter) (g : LogFormatter)
    → val ≡ some g
    → (o : Option LogFormatter) → p.formatter ≡ o
    → (f : LogFormatter) × ((if is_some o then p else set_formatter_as p val false).formatter
        ≡ some f)
unfolding set_formatter_as
completed p val g e none h = (g, e)
completed p val g e (some f) h = (f, h)

-- So has the appender that `setFormatter` leaves.
shared :
    (p : LogAppender) (val f : LogFormatter)
    → p.formatter ≡ some f
    → (own : Bool)
    → (g : LogFormatter) × ((if not own then set_formatter_as p (some val) false else p).formatter
        ≡ some g)
unfolding set_formatter_as
shared p val f e true = (f, e)
shared p val f e false = (val, refl)

-- An appender may be replaced by one with a formatter.
pub with_appender-IsValid :
    {w : World} (a : ℕ) (p : LogAppender) (f : LogFormatter)
    → IsValid w
    → p.formatter ≡ some f
    → IsValid (with_appender w a p)
with_appender-IsValid {w} a p f v e = record {
  loggers = λ j m h.
      let fine = v.loggers j m h in
      record {
        ready = All-set w.appenders a p f m.appenders e fine.ready;
        formatted = fine.formatted;
        rooted = fine.rooted;
      };
  root_exists = v.root_exists;
  names = v.names;
}

module _ {w : World} (v : IsValid w) (i : ℕ) {l : Logger}
    (at : get_elem? w.loggers i ≡ some l) where
  fine : IsLogger w.appenders w.root i l
  fine = v.loggers i l at

  -- A logger may be given another level, other ready appenders and another formatter.
  changed-IsValid :
      (level : Level) (bs : List ℕ) (val : Option LogFormatter) (f : LogFormatter)
      → All (IsReady w.appenders) bs
      → val ≡ some f
      → IsValid (with_logger w i (record l { level = level; appenders = bs; formatter = val }))
  changed-IsValid level bs val f ready e =
      with_logger-IsValid i l _ v at refl
        (record { ready = ready; formatted = (f, e); rooted = fine.rooted })

  pub set_level-Succeeds : (level : Level) → Succeeds (set_level w i level)
  unfolding set_level
  set_level-Succeeds level =
      let (f, e) = fine.formatted in
      (_, rw at, changed-IsValid level l.appenders l.formatter f fine.ready e)

  pub clear_appender-Succeeds : Succeeds (clear_appender w i)
  unfolding clear_appender
  clear_appender-Succeeds =
      let (f, e) = fine.formatted in (_, rw at, changed-IsValid l.level [] l.formatter f tt e)

erase_first-All : (P : ℕ → Type 0) (a : ℕ) (bs : List ℕ) → All P bs → All P (erase_first a bs)
unfolding erase_first
erase_first-All P a [] h = tt
erase_first-All P a (b ∷ bs) h = elim (Bool-cases (b == a)) [
  | inl e ↦ rw e h.1
  | inr e ↦ rw e (h.0, erase_first-All P a bs h.1)
]

All-concat : (P : ℕ → Type 0) (a : ℕ) (bs : List ℕ) → All P bs → P a → All P (bs ++ a ∷ [])
All-concat P a [] h p = (p, tt)
All-concat P a (b ∷ bs) h p = (h.0, All-concat P a bs h.1 p)

module _ {w : World} (v : IsValid w) (i : ℕ) {l : Logger}
    (at : get_elem? w.loggers i ≡ some l) where
  pub del_appender-Succeeds : (a : ℕ) → Succeeds (del_appender w i a)
  unfolding del_appender
  del_appender-Succeeds a =
      let fine = v.loggers i l at in
      let (f, e) = fine.formatted in
      let kept = erase_first-All (IsReady w.appenders) a l.appenders fine.ready in
      (_, rw at, changed-IsValid v i at l.level _ l.formatter f kept e)

  pub add_appender-Succeeds :
      (a : ℕ) (p : LogAppender) → get_elem? w.appenders a ≡ some p → Succeeds (add_appender w i a)
  unfolding add_appender
  add_appender-Succeeds a p there =
      let (g, h) = (v.loggers i l at).formatted in
      let (f, e) = completed p l.formatter g h p.formatter refl in
      let p' = if is_some p.formatter then p else set_formatter_as p l.formatter false in
      let v' = with_appender-IsValid a p' f v e in
      let old = v'.loggers i l at in
      let ready =
        All-concat (IsReady (set w.appenders a p')) a l.appenders old.ready
          (p', f, get_elem?-set_known w.appenders a p' there, e) in
      (_, rw (at, there), changed-IsValid v' i at l.level _ l.formatter g ready h)

share_formatter-Succeeds :
    {w : World} (bs : List ℕ) (val : LogFormatter)
    → IsValid w
    → All (IsReady w.appenders) bs
    → Succeeds (share_formatter w bs (some val))
unfolding share_formatter
share_formatter-Succeeds {w} [] val v ready = (w, refl, v)
share_formatter-Succeeds {w} (b ∷ bs) val v ((p, f, there, e), ready) =
    let (g, h) = shared p val f e p.has_formatter in
    let p' = if not p.has_formatter then set_formatter_as p (some val) false else p in
    let (u, r, valid) =
      share_formatter-Succeeds bs val (with_appender-IsValid b p' g v h)
        (All-set w.appenders b p' g bs h ready) in
    (u, rw there r, valid)

pub set_formatter-Succeeds :
    {w : World} (v : IsValid w) (i : ℕ) {l : Logger}
    → get_elem? w.loggers i ≡ some l
    → (val : LogFormatter) → Succeeds (set_formatter w i (some val))
unfolding set_formatter
set_formatter-Succeeds v i {l} at val =
    let fine = v.loggers i l at in
    let v' = changed-IsValid v i at l.level l.appenders (some val) val fine.ready refl in
    let (u, r, valid) = share_formatter-Succeeds l.appenders val v' fine.ready in
    (u, rw at r, valid)

new_logger-IsLogger :
    (ps : List LogAppender) (name : Text) (root i : ℕ)
    → root < i
    → IsLogger ps root i (record (new_logger name) { root = some root })
unfolding new_logger
new_logger-IsLogger ps name root i lt =
    let (f, e, _) = init_total default_pattern in
    record { ready = tt; formatted = (f, e); rooted = ground arith }

pub get_logger-IsValid : (w : World) (name : Text) → IsValid w → IsValid (get_logger w name).0
unfolding get_logger
get_logger-IsValid w name v = elim (Option-cases (lookup name w.named)) [
  | inr (i, e) ↦ rw (e, get_logger) v
  | inl e ↦
      let made = record (new_logger name) { root = some w.root } in
      let (r, there) = v.root_exists in
      rw (e, get_logger)
        (record {
          loggers = λ j m h. elim (get_elem?-append_cases w.loggers j made h) [
            | inl old ↦ v.loggers j m old
            | inr (at, new) ↦ subst (IsLogger w.appenders w.root j) new (
                new_logger-IsLogger w.appenders name w.root j
                  (omega (arith, get_elem?-some_lt w.loggers w.root there)))
          ];
          root_exists = (r, get_elem?-append_some w.loggers _ w.root there);
          names = λ k j h. elim (lookup-insert_cases name k (length w.loggers) j w.named h) [
            | inl (same, at) ↦ (
              made,
              rw (← at) (get_elem?-append_length w.loggers made []),
              unfold new_logger in same,
            )
            | inr old ↦
                let (m, found, named) = v.names k j old in
                (m, get_elem?-append_some w.loggers _ j found, named)
          ];
        })
]
