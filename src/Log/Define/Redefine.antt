-- ===== src/Log/Define/Redefine.antt =====
-- What the listener of LogIniter does to one logger: level, format and appenders
-- (components/log.cpp), on a valid store.
use web_framework.Base.{
  ℕ, ◌≡◌, refl, sym, subst, ap, ◌∙◌, inl, inr, Bool, true, false, not, ◌||◌, List, [], ◌∷◌, ◌++◌,
  All, all, Text, Option, some, length, get_elem?, get_elem?-set_known, get_elem?-append_some,
  get_elem?-append_length, is_empty, is_some, if◌then◌else◌, ◌==◌, arith, Option-cases, Bool-cases,
}
use web_framework.Log.Level.{Level}
use web_framework.Log.Formatter.{LogFormatter}
use web_framework.Log.Formatter.RoundTrip.{init_total}
use web_framework.Log.World.{
  Result, ok, null_pointer, out_of_fuel, LogAppender, Logger, World, with_logger, appender_at,
  set_own_formatter,
}
use web_framework.Log.Logger.{
  set_level, set_pattern, set_formatter, share_formatter, clear_appender, add_appender,
}
use web_framework.Log.Logger.Valid.{IsReady, IsValid}
use web_framework.Log.Logger.Preserve.{
  set_level-Succeeds, clear_appender-Succeeds, add_appender-Succeeds,
}
use web_framework.Log.Logger.Operations.{IsLoggerIndex, set_pattern-Succeeds}
use web_framework.Log.Define.{
  LogAppenderDefine, LogDefine, make_appender, configure, attach, attach_all, redefine,
}
use web_framework.Log.Define.Apply.{>>=-ok}

-- A call that returns a valid store, in which logger `n` still exists.
abbrev pub SucceedsAt : ℕ → Result World → Type 0
SucceedsAt n r = (w : World) × (r ≡ ok w) × IsValid w × IsLoggerIndex w n

abbrev value_of : World → Result World → World
value_of w (ok u) = u
value_of w null_pointer = w
value_of w out_of_fuel = w

-- Logger `n` still exists where a logger was replaced.
replaced :
    (w u : World) (n : ℕ) (m : Logger)
    → IsLoggerIndex w n
    → ok (with_logger w n m) ≡ ok u
    → IsLoggerIndex u n
replaced w u n m (l, at) h =
    subst (λ z. IsLoggerIndex z n) (ap (value_of w) h) (m, get_elem?-set_known w.loggers n m at)

pub set_level-SucceedsAt :
    {w : World} (n : ℕ) (level : Level)
    → IsValid w
    → IsLoggerIndex w n
    → SucceedsAt n (set_level w n level)
unfolding set_level
set_level-SucceedsAt {w} n level v (l, at) =
    let (u, r, valid) = set_level-Succeeds v n at level in
    (u, r, valid, replaced w u n _ (l, at) (rw at at r))

pub clear_appender-SucceedsAt :
    {w : World} (n : ℕ) → IsValid w → IsLoggerIndex w n → SucceedsAt n (clear_appender w n)
unfolding clear_appender
clear_appender-SucceedsAt {w} n v (l, at) =
    let (u, r, valid) = clear_appender-Succeeds v n at in
    (u, r, valid, replaced w u n _ (l, at) (rw at at r))

add_appender-SucceedsAt :
    {w : World} (n a : ℕ) (p : LogAppender)
    → IsValid w
    → IsLoggerIndex w n
    → get_elem? w.appenders a ≡ some p
    → SucceedsAt n (add_appender w n a)
unfolding add_appender
add_appender-SucceedsAt {w} n a p v (l, at) there =
    let (u, r, valid) = add_appender-Succeeds v n at a p there in
    (u, r, valid, replaced _ u n _ (l, at) (rw (at, there) at r))

share_formatter-loggers :
    (bs : List ℕ) (val : Option LogFormatter) (w u : World)
    → share_formatter w bs val ≡ ok u
    → u.loggers ≡ w.loggers
unfolding share_formatter
share_formatter-loggers [] val w u h = ap (λ r. (value_of w r).loggers) (sym h)
share_formatter-loggers (b ∷ bs) val w u h =
    let (p, later, _) = >>=-ok (appender_at w b) h in share_formatter-loggers bs val _ u later

set_pattern-SucceedsAt :
    {w : World} (n : ℕ) (val : Text)
    → IsValid w
    → IsLoggerIndex w n
    → SucceedsAt n (set_pattern w n val)
unfolding set_pattern set_formatter
set_pattern-SucceedsAt {w} n val v (l, at) =
    let (u, r, valid) = set_pattern-Succeeds n val v (l, at) in
    let (f, e, _) = init_total val in
    elim (Bool-cases f.is_error) [
      | inl bad ↦
          (u, r, valid, subst (λ z. IsLoggerIndex z n) (ap (value_of w) (rw (e, bad) at r)) (l, at))
      | inr good ↦
          let kept = share_formatter-loggers l.appenders (some f) _ u (rw (e, good, at) at r) in
          (u, r, valid, (_, ap (λ ls. get_elem? ls n) kept ∙ get_elem?-set_known w.loggers n _ at))
    ]

-- An appender whose type stands for a class.
abbrev pub is_known_type : LogAppenderDefine → Bool
is_known_type d = d.type == 1 || d.type == 2

make_appender-is_some :
    (d : LogAppenderDefine) → is_known_type d ≡ true → is_some (make_appender d) ≡ true
unfolding make_appender
make_appender-is_some d h = ground arith

make_appender_known :
    (d : LogAppenderDefine)
    → is_known_type d ≡ true
    → (p : LogAppender) × (make_appender d ≡ some p)
make_appender_known d h = elim (Option-cases (make_appender d)) [
  | inl e ↦ let off : false ≡ true = ap is_some (sym e) ∙ make_appender-is_some d h in cc
  | inr made ↦ made
]

configure_total :
    (d : LogAppenderDefine) (p : LogAppender) → (q : LogAppender) × (configure d p ≡ ok q)
unfolding configure
configure_total d p = elim (Bool-cases (is_empty d.format)) [
  | inl e ↦ (p, rw e refl)
  | inr e ↦
      let (f, made, _) = init_total d.format in
      (if f.is_error then p else set_own_formatter p (some f), rw (e, made) refl)
]

All-append_right :
    (ps : List LogAppender) (p : LogAppender) (bs : List ℕ)
    → All (IsReady ps) bs
    → All (IsReady (ps ++ p ∷ [])) bs
All-append_right ps p [] h = tt
All-append_right ps p (b ∷ bs) ((q, f, at, e), h) =
    ((q, f, get_elem?-append_some ps _ b at, e), All-append_right ps p bs h)

-- A new appender in the store, not yet given to a logger.
more_appenders-IsValid :
    (w : World) (p : LogAppender)
    → IsValid w
    → IsValid (record w { appenders = w.appenders ++ p ∷ [] })
more_appenders-IsValid w p v = record {
  loggers = λ i l h.
      let fine = v.loggers i l h in
      record {
        ready = All-append_right w.appenders p l.appenders fine.ready;
        formatted = fine.formatted;
        rooted = fine.rooted;
      };
  root_exists = v.root_exists;
  names = v.names;
}

attach-SucceedsAt :
    {w : World} (n : ℕ) (d : LogAppenderDefine)
    → IsValid w
    → IsLoggerIndex w n
    → is_known_type d ≡ true
    → SucceedsAt n (attach w n d)
unfolding attach
attach-SucceedsAt {w} n d v there known =
    let (p, made) = make_appender_known d known in
    let (q, configured) = configure_total d p in
    let new = record q { level = d.level } in
    let (u, r, valid, kept) =
      add_appender-SucceedsAt n (length w.appenders) new (more_appenders-IsValid w new v) there
        (get_elem?-append_length w.appenders new []) in
    (u, rw (made, configured) r, valid, kept)

attach_all-SucceedsAt :
    (ds : List LogAppenderDefine) {w : World} (n : ℕ)
    → IsValid w
    → IsLoggerIndex w n
    → all is_known_type ds ≡ true
    → SucceedsAt n (attach_all w n ds)
unfolding attach_all
attach_all-SucceedsAt [] {w} n v there known = (w, refl, v, there)
attach_all-SucceedsAt (d ∷ ds) n v there known =
    let (u, r, v', there') = attach-SucceedsAt n d v there (ground arith) in
    let (u', r', valid, kept) = attach_all-SucceedsAt ds n v' there' (ground arith) in
    (u', rw r r', valid, kept)

set_format-SucceedsAt :
    {w : World} (n : ℕ) (val : Text)
    → IsValid w
    → IsLoggerIndex w n
    → SucceedsAt n (if not (is_empty val) then set_pattern w n val else ok w)
set_format-SucceedsAt {w} n val v there = elim (Bool-cases (is_empty val)) [
  | inl e ↦ (w, rw e refl, v, there)
  | inr e ↦
      let (u, r, valid, kept) = set_pattern-SucceedsAt n val v there in (u, rw e r, valid, kept)
]

pub redefine-SucceedsAt :
    {w : World} (n : ℕ) (i : LogDefine)
    → IsValid w
    → IsLoggerIndex w n
    → all is_known_type i.appenders ≡ true
    → SucceedsAt n (redefine w n i)
unfolding redefine
redefine-SucceedsAt n i v there known =
    let (u₁, r₁, v₁, t₁) = set_level-SucceedsAt n i.level v there in
    let (u₂, r₂, v₂, t₂) = set_format-SucceedsAt n i.format v₁ t₁ in
    let (u₃, r₃, v₃, t₃) = clear_appender-SucceedsAt n v₂ t₂ in
    let (u₄, r₄, valid, kept) = attach_all-SucceedsAt i.appenders n v₃ t₃ known in
    (u₄, rw (r₁, r₂, r₃) r₄, valid, kept)
