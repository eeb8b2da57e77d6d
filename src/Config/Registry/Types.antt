-- ===== src/Config/Registry/Types.antt =====
-- The types of the variables that Config::Lookup hands out (components/config.h).
use web_framework.Base.{
  ℕ, ◌≡◌, ◌≢◌, refl, ap, ◌∙◌, inl, inr, false, Option, none, some, Text, get_elem?, get_elem?-lt,
  get_elem?-append_length, lookup-insert, text_eq_refl, lookup, [], sym, if◌then◌else◌, length,
  arith, Option-cases, Bool-cases, ==_iff, ◌==◌,
}
use mathlib.Core.Option.{some-injective}
use web_framework.Config.Member.{is_key}
use web_framework.Config.Registry.{
  Datas, Lookup, pointer, null_pointer, invalid_argument, or_null, pointer_cast, lookup_or_create,
}
use web_framework.Config.Registry.Laws.{IsRegistry}

module _ {B : Type 0} (type_of : B → ℕ) where
  -- The object that a pointer leads to is of type `t`.
  abbrev pub IsOfType : ℕ → Datas B → ℕ → Type 0
  IsOfType t d i = (b : B) × (get_elem? d.objects i ≡ some b) × (type_of b ≡ t)

  pointer_cast-at :
      (t : ℕ) (d : Datas B) (i : ℕ) (b : B)
      → get_elem? d.objects i ≡ some b
      → pointer_cast type_of t d i ≡ (if type_of b == t then some i else none)
  unfolding pointer_cast
  pointer_cast-at t d i b at = rw (at, pointer_cast) refl

  pointer_cast-IsOfType :
      (t : ℕ) (d : Datas B) (i j : ℕ) (b : B)
      → get_elem? d.objects i ≡ some b
      → pointer_cast type_of t d i ≡ some j
      → (i ≡ j) × (type_of b ≡ t)
  pointer_cast-IsOfType t d i j b at e =
      let cast = sym (pointer_cast-at t d i b at) ∙ e in
      elim (Bool-cases (type_of b == t)) [
        | inl same ↦
            let chosen : some i ≡ some j = rw same at cast in
            (some-injective i j chosen, (==_iff (type_of b) t).0 same)
        | inr other ↦ absurd (ground arith)
      ]

  pointer_cast-none :
      (t : ℕ) (d : Datas B) (i : ℕ) (b : B)
      → get_elem? d.objects i ≡ some b
      → pointer_cast type_of t d i ≡ none
      → type_of b ≢ t
  pointer_cast-none t d i b at e same =
      let cast = sym (pointer_cast-at t d i b at) ∙ e in absurd (ground arith)

  -- What each result of Lookup says of the registry: `p` is what it leaves and gives.
  abbrev pub IsAnswer : ℕ → Datas B → Text → Datas B × Lookup → Type 0
  IsAnswer t d name (d', pointer i) = (lookup name d'.names ≡ some i) × IsOfType t d' i
  IsAnswer t d name (d', null_pointer) =
      (i : ℕ) × (b : B) × (lookup name d.names ≡ some i)
      × (get_elem? d.objects i ≡ some b)
      × (type_of b ≢ t)
      × (d' ≡ d)
  IsAnswer t d name (d', invalid_argument) =
      (lookup name d.names ≡ none) × (is_key name ≡ false) × (d' ≡ d)

  found-IsAnswer :
      (t : ℕ) (d : Datas B) (name : Text) (i : ℕ) (b : B) (o : Option ℕ)
      → lookup name d.names ≡ some i
      → get_elem? d.objects i ≡ some b
      → pointer_cast type_of t d i ≡ o
      → IsAnswer t d name (d, or_null o)
  found-IsAnswer t d name i b none here at e =
      (i, b, here, at, pointer_cast-none t d i b at e, refl)
  found-IsAnswer t d name i b (some j) here at e =
      let (same, typed) = pointer_cast-IsOfType t d i j b at e in
      (here ∙ ap some same, (b, sym (ap (get_elem? d.objects) same) ∙ at, typed))

  -- On a well-formed registry, Lookup gives a pointer only to a variable of the type asked for,
  -- and of the name asked for; the null pointer only where the name is that of a variable of
  -- another type, and it throws std::invalid_argument only for a new name that is not made of
  -- key characters; in these two cases nothing changes.
  pub lookup_or_create-types :
      (t : ℕ) (d : Datas B) (name : Text) (config : B)
      → IsRegistry d
      → type_of config ≡ t
      → IsAnswer t d name (lookup_or_create type_of t d name config)
  unfolding lookup_or_create
  lookup_or_create-types t d name config v typed = elim (Option-cases (lookup name d.names)) [
    | inl free ↦ elim (Bool-cases (is_key name)) [
      | inl key ↦
          rw (free, lookup_or_create)
            (rw key (
              lookup-insert name name (length d.objects) d.names ∙ rw (text_eq_refl name),
              (config, get_elem?-append_length d.objects config [], typed),
            ))
      | inr bad ↦ rw (free, lookup_or_create) (rw bad (free, bad, refl))
    ]
    | inr (i, here) ↦ elim (Option-cases (get_elem? d.objects i)) [
      | inr (b, at) ↦ rw (here, lookup_or_create) (found-IsAnswer t d name i b _ here at refl)
      | inl missing ↦ absurd (get_elem?-lt d.objects i (v.exists name i here) missing)
    ]
  ]
