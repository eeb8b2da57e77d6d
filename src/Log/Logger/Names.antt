-- ===== src/Log/Logger/Names.antt =====
-- LoggerManager::getLogger (components/log.cpp) and the names of loggers.
use web_framework.Base.{
  ℕ, ◌≡◌, refl, ◌∙◌, inl, inr, false, [], Text, some, length, get_elem?, lookup, lookup-insert,
  get_elem?-append_length, text_eq, text_eq_refl, Option-cases,
}
use web_framework.Log.World.{Logger, World}
use web_framework.Log.Logger.{new_logger, get_logger}
use web_framework.Log.Logger.Valid.{IsValid}

lookup-get_logger :
    (w : World) (name : Text) → lookup name (get_logger w name).0.named ≡ some (get_logger w name).1
unfolding get_logger
lookup-get_logger w name = elim (Option-cases (lookup name w.named)) [
  | inr (i, e) ↦ rw (e, get_logger) e
  | inl e ↦
      rw (e, get_logger)
        (lookup-insert name name (length w.loggers) w.named ∙ rw (text_eq_refl name))
]

found :
    (w : World) (name : Text) (i : ℕ) → lookup name w.named ≡ some i → get_logger w name ≡ (w, i)
unfolding get_logger
found w name i e = rw (e, get_logger)

lookup-get_logger_other :
    (w : World) (name other : Text)
    → text_eq name other ≡ false
    → lookup other (get_logger w name).0.named ≡ lookup other w.named
unfolding get_logger
lookup-get_logger_other w name other ne = elim (Option-cases (lookup name w.named)) [
  | inr (i, e) ↦ rw (e, get_logger) refl
  | inl e ↦ rw (e, get_logger) (lookup-insert name other (length w.loggers) w.named ∙ rw ne)
]

named-get_logger :
    (w : World) (name : Text)
    → IsValid w
    → (l : Logger) × (get_elem? (get_logger w name).0.loggers (get_logger w name).1 ≡ some l)
      × (l.name ≡ name)
unfolding get_logger
named-get_logger w name v = elim (Option-cases (lookup name w.named)) [
  | inr (i, e) ↦ rw (e, get_logger) (v.names name i e)
  | inl e ↦
      rw (e, get_logger)
        (
          record (new_logger name) { root = some w.root },
          get_elem?-append_length w.loggers _ [],
          unfold new_logger in refl,
        )
]

-- getLogger returns a logger of the name asked for; asked again, it returns the same pointer and
-- changes nothing; and the loggers of other names are found, or missing, as before.
pub get_logger_lem :
    (w : World) (name : Text)
    → IsValid w
    → let (w', i) = get_logger w name in
      ((l : Logger) × (get_elem? w'.loggers i ≡ some l) × (l.name ≡ name))
      × (get_logger w' name ≡ (w', i))
      × ((other : Text) → text_eq name other ≡ false → lookup other w'.named ≡ lookup other w.named)
get_logger_lem w name v = (
  named-get_logger w name v,
  found (get_logger w name).0 name (get_logger w name).1 (lookup-get_logger w name),
  lookup-get_logger_other w name,
)
