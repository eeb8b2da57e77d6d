-- ===== src/Log/Define/Succeed.antt =====
-- The listener of LogIniter (components/log.cpp) on definitions that are new or changed.
use web_framework.Base.{
  ℕ, ◌≡◌, refl, sym, ap, ◌∙◌, inl, inr, Bool, true, false, not, ◌&&◌, List, [], ◌∷◌, all, Text,
  some, get_elem?, is_empty, leb, arith, Option-cases, Bool-cases,
}
use web_framework.Log.Level.{info}
use web_framework.Log.Formatter.{LogEvent}
use web_framework.Log.World.{Logger, World, environment}
use web_framework.Log.Logger.{get_logger, log_level}
use web_framework.Log.Logger.Valid.{IsValid}
use web_framework.Log.Logger.Preserve.{Succeeds, get_logger-IsValid}
use web_framework.Log.Logger.Operations.{IsLoggerIndex}
use web_framework.Log.Logger.Names.{get_logger_lem}
use web_framework.Log.Logger.Deliveries.{log-lines, lines, wrote}
use web_framework.Log.Define.{
  LogDefine, define_eq, find, choose_logger, define_one, define_all, silent, retire, retire_all,
  on_change,
}
use web_framework.Log.Define.Apply.{is_same, is_unchanged}
use web_framework.Log.Define.Redefine.{
  is_known_type, set_level-SucceedsAt, clear_appender-SucceedsAt, redefine-SucceedsAt,
}

choose_logger_changed :
    (w : World) (old : List LogDefine) (i : LogDefine)
    → is_unchanged old i ≡ false
    → choose_logger w old i ≡ ((get_logger w i.name).0, some (get_logger w i.name).1)
unfolding choose_logger
choose_logger_changed w old i h = elim (Option-cases (find i old)) [
  | inl e ↦ rw (e, choose_logger) refl
  | inr (it, e) ↦
      let other : define_eq i it ≡ false = ap (is_same i) (sym e) ∙ h in
      rw (e, choose_logger) (rw other refl)
]

IsLoggerIndex-get_logger :
    (w : World) (name : Text)
    → IsValid w
    → IsLoggerIndex (get_logger w name).0 (get_logger w name).1
IsLoggerIndex-get_logger w name v = let ((l, at, _), _, _) = get_logger_lem w name v in (l, at)

-- A definition that is new or differs from the old one of its name, with known appenders only.
abbrev pub is_applicable : List LogDefine → LogDefine → Bool
is_applicable old i = not (is_unchanged old i) && all is_known_type i.appenders

define_one-Succeeds :
    (w : World) (old : List LogDefine) (i : LogDefine)
    → IsValid w
    → is_applicable old i ≡ true
    → Succeeds (define_one w old i)
unfolding define_one
define_one-Succeeds w old i v h =
    let (w', n) = get_logger w i.name in
    let (u, r, valid, _) =
      redefine-SucceedsAt n i (get_logger-IsValid w i.name v) (IsLoggerIndex-get_logger w i.name v)
        (ground arith) in
    (u, rw (choose_logger_changed w old i (ground arith)) r, valid)

define_all-Succeeds :
    (new old : List LogDefine) (w : World)
    → IsValid w
    → all (is_applicable old) new ≡ true
    → Succeeds (define_all w old new)
unfolding define_all
define_all-Succeeds [] old w v h = (w, refl, v)
define_all-Succeeds (i ∷ rest) old w v h =
    let (u, r, v') = define_one-Succeeds w old i v (ground arith) in
    let (u', r', v'') = define_all-Succeeds rest old u v' (ground arith) in (u', rw r r', v'')

retire-Succeeds :
    (w : World) (new : List LogDefine) (i : LogDefine) → IsValid w → Succeeds (retire w new i)
unfolding retire
retire-Succeeds w new i v = elim (Option-cases (find i new)) [
  | inr (it, e) ↦ (w, rw (e, retire) refl, v)
  | inl e ↦
      let (w', n) = get_logger w i.name in
      let (u, r, v₁, there) =
        set_level-SucceedsAt n silent (get_logger-IsValid w i.name v)
          (IsLoggerIndex-get_logger w i.name v) in
      let (u', r', v₂, _) = clear_appender-SucceedsAt n v₁ there in
      (u', rw (e, retire) (rw r r'), v₂)
]

retire_all-Succeeds :
    (old new : List LogDefine) (w : World) → IsValid w → Succeeds (retire_all w new old)
unfolding retire_all
retire_all-Succeeds [] new w v = (w, refl, v)
retire_all-Succeeds (i ∷ rest) new w v =
    let (u, r, v') = retire-Succeeds w new i v in
    let (u', r', v'') = retire_all-Succeeds rest new u v' in (u', rw r r', v'')

log_level-Succeeds :
    (date_text : Text → ℕ → Text) (w : World) (event : LogEvent) (r : Logger)
    → IsValid w
    → get_elem? w.loggers w.root ≡ some r
    → is_empty r.appenders ≡ false
    → Succeeds (log_level date_text w w.root (record event { logger = w.root }))
unfolding log_level
log_level-Succeeds date_text w event r v top serves =
    let own = record event { logger = w.root } in
    elim (Bool-cases (leb r.level event.level)) [
      | inr low ↦ (w, rw (top, low) refl, v)
      | inl high ↦
          let line = log-lines date_text w w.root r r event.level own v top top serves in
          (
            wrote w (lines (environment date_text w) w.appenders r.appenders event.level own),
            rw (top, high) (line ∙ rw (high, serves) refl),
            record { loggers = v.loggers; root_exists = v.root_exists; names = v.names },
          )
    ]

-- On a valid store whose root logger has an appender, the listener returns and leaves a valid store,
-- if every new definition is new or differs from the old one of its name and has appenders of the
-- known types only; whatever stood in the old definitions, and whatever the format patterns are.
pub on_change-Succeeds :
    (date_text : Text → ℕ → Text) (event : LogEvent) (w : World) (r : Logger)
    (old new : List LogDefine)
    → IsValid w
    → get_elem? w.loggers w.root ≡ some r
    → is_empty r.appenders ≡ false
    → all (is_applicable old) new ≡ true
    → Succeeds (on_change date_text event w old new)
unfolding on_change
on_change-Succeeds date_text event w r old new v top serves h =
    let (w₁, r₁, v₁) =
      log_level-Succeeds date_text w (record event { level = info }) r v top serves in
    let (w₂, r₂, v₂) = define_all-Succeeds new old w₁ v₁ h in
    let (w₃, r₃, v₃) = retire_all-Succeeds old new w₂ v₂ in (w₃, rw (r₁, r₂) r₃, v₃)
