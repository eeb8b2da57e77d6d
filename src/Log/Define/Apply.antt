-- ===== src/Log/Define/Apply.antt =====
-- The listener of LogIniter (components/log.cpp) on definitions that have not changed.
use web_framework.Base.{
  ◌≡◌, ◌≢◌, refl, sym, ◌∙◌, ap, inl, inr, Bool, true, false, List, [], ◌∷◌, Text, ℕ, Option, none,
  some, any, arith, Option-cases, Bool-cases,
}
use web_framework.Log.Formatter.{LogEvent}
use web_framework.Log.World.{Result, ok, null_pointer, out_of_fuel, ◌>>=◌, World}
use web_framework.Log.Logger.{log_level}
use web_framework.Log.Define.{
  LogDefine, define_eq, find, choose_logger, define_one, define_all, on_change,
}

abbrev pub is_same : LogDefine → Option LogDefine → Bool
is_same i none = false
is_same i (some it) = define_eq i it

-- The set of old definitions has an equal one of this name.
abbrev pub is_unchanged : List LogDefine → LogDefine → Bool
is_unchanged old i = is_same i (find i old)

-- A sequence that returns went on from a call that returned.
pub >>=-ok {ℓ κ} :
    {S : Type ℓ} {T : Type κ} (call : Result S) {rest : S → Result T} {end : T}
    → (call >>= rest) ≡ ok end
    → (s : S) × (rest s ≡ ok end) × (call ≡ ok s)
>>=-ok null_pointer returns = cc
>>=-ok out_of_fuel returns = cc
>>=-ok (ok s) returns = (s, returns, refl)

choose_logger_unchanged :
    (w : World) (old : List LogDefine) (i : LogDefine)
    → is_unchanged old i ≡ true
    → (choose_logger w old i).1 ≡ none
unfolding choose_logger
choose_logger_unchanged w old i h = elim (Option-cases (find i old)) [
  | inl e ↦ let off : false ≡ true = ap (is_same i) (sym e) ∙ h in cc
  | inr (it, e) ↦
      let same : define_eq i it ≡ true = ap (is_same i) (sym e) ∙ h in
      rw (e, choose_logger) (rw same)
]

define_one_unchanged :
    (w : World) (old : List LogDefine) (i : LogDefine)
    → is_unchanged old i ≡ true
    → define_one w old i ≡ null_pointer
unfolding define_one
define_one_unchanged w old i h = rw (choose_logger_unchanged w old i h)

define_all_unchanged :
    (w u : World) (old new : List LogDefine)
    → any (is_unchanged old) new ≡ true
    → define_all w old new ≢ ok u
unfolding define_all
define_all_unchanged w u old [] h r = cc
define_all_unchanged w u old (i ∷ rest) h r =
    let (w', later, first) = >>=-ok (define_one w old i) r in
    elim (Bool-cases (is_unchanged old i)) [
      | inl same ↦ cc (define_one_unchanged w old i same)
      | inr other ↦ define_all_unchanged w' u old rest (ground arith) later
    ]

-- The listener never returns if one of the new definitions stood unchanged among the old ones: it
-- writes the level through the null pointer new_logger.
pub on_change_unchanged :
    (date_text : Text → ℕ → Text) (event : LogEvent) (w u : World) (old new : List LogDefine)
    → any (is_unchanged old) new ≡ true
    → on_change date_text event w old new ≢ ok u
unfolding on_change
on_change_unchanged date_text event w u old new h r =
    let (w₁, then_defined, logged) = >>=-ok (log_level date_text w w.root _) r in
    let (w₂, retired, defined) = >>=-ok (define_all w₁ old new) then_defined in
    define_all_unchanged w₁ w₂ old new h defined
