-- ===== src/Config/Registry/Laws.antt =====
-- The registry of configuration variables (components/config.h, components/config.cpp): its names,
-- its pointers, and what loading changes.
use web_framework.Base.{
  ℕ, ◌<◌, ◌≡◌, ◌≢◌, refl, sym, subst, ap, ◌∙◌, inl, inr, true, List, [], ◌∷◌, ◌++◌, map, Text,
  Option, none, some, length, length-append, get_elem?, lookup, insert, lookup-insert,
  lookup-insert_cases, get_elem?-append_length, get_elem?-set_ne, text_eq_refl, is_empty, to_lower,
  arith, Option-cases, Bool-cases, All,
}
use web_framework.Config.Member.{
  Node, is_key, list_all_member, In, first, later, to_lower-list_all_member,
}
use web_framework.Config.Registry.{
  Datas, Lookup, pointer, or_null, pointer_cast, lookup_or_create, lookup_typed, assign_object,
  load_member, load_members, load_from_yaml,
}

-- Every registered name is made of key characters, its object exists, and no two names share one.
pub record IsRegistry {B : Type 0} (d : Datas B) : Type 0 where
  pub valid : (name : Text) (i : ℕ) → lookup name d.names ≡ some i → is_key name ≡ true
  pub exists : (name : Text) (i : ℕ) → lookup name d.names ≡ some i → i < length d.objects
  pub distinct :
      (name other : Text) (i : ℕ)
      → lookup name d.names ≡ some i
      → lookup other d.names ≡ some i
      → name ≡ other

module _ {B : Type 0} (type_of : B → ℕ) where
  -- The registry with a new name and object.
  abbrev added : Datas B → Text → B → Datas B
  added d name config = record {
    names = insert name (length d.objects) d.names;
    objects = d.objects ++ config ∷ [];
  }

  added-IsRegistry :
      (d : Datas B) (name : Text) (config : B)
      → IsRegistry d
      → lookup name d.names ≡ none
      → is_key name ≡ true
      → IsRegistry (added d name config)
  added-IsRegistry d name config v free key = record {
    valid = λ k i h. elim (lookup-insert_cases name k (length d.objects) i d.names h) [
      | inl (same, _) ↦ subst (λ t. is_key t ≡ true) same key
      | inr old ↦ v.valid k i old
    ];
    exists = λ k i h.
        let longer = length-append d.objects (config ∷ []) in
        elim (lookup-insert_cases name k (length d.objects) i d.names h) [
          | inl (_, at) ↦ omega (arith, longer)
          | inr old ↦ omega (arith, longer, v.exists k i old)
        ];
    distinct = λ k j i h g. elim (lookup-insert_cases name k (length d.objects) i d.names h) [
      | inl (same, at) ↦ elim (lookup-insert_cases name j (length d.objects) i d.names g) [
        | inl (same', _) ↦ sym same ∙ same'
        | inr old ↦ absurd (omega (arith, v.exists j i old))
      ]
      | inr here ↦ elim (lookup-insert_cases name j (length d.objects) i d.names g) [
        | inl (_, at) ↦ absurd (omega (arith, v.exists k i here))
        | inr old ↦ v.distinct k j i here old
      ]
    ];
  }

  -- Lookup keeps the registry well formed: no invalid name enters, and no two names share a variable.
  pub lookup_or_create-IsRegistry :
      (t : ℕ) (d : Datas B) (name : Text) (config : B)
      → IsRegistry d
      → IsRegistry (lookup_or_create type_of t d name config).0
  unfolding lookup_or_create
  lookup_or_create-IsRegistry t d name config v = elim (Option-cases (lookup name d.names)) [
    | inr (i, e) ↦ rw (e, lookup_or_create) v
    | inl free ↦ elim (Bool-cases (is_key name)) [
      | inl key ↦ rw (free, lookup_or_create) (rw key (added-IsRegistry d name config v free key))
      | inr bad ↦ rw (free, lookup_or_create) (rw bad v)
    ]
  ]

  or_null-pointer : (o : Option ℕ) (i : ℕ) → or_null o ≡ pointer i → o ≡ some i
  or_null-pointer none i h = cc
  or_null-pointer (some j) i h = cc

  pointer_cast-some : (t : ℕ) (d : Datas B) (j i : ℕ) → pointer_cast type_of t d j ≡ some i → j ≡ i
  unfolding pointer_cast
  pointer_cast-some t d j i h = ground arith

  -- A pointer to a variable of type `t` that the name leads to.
  abbrev Finds : ℕ → Text → ℕ → Datas B × Lookup → Type 0
  Finds t name i p =
      p.1 ≡ pointer i → (lookup name p.0.names ≡ some i) × (pointer_cast type_of t p.0 i ≡ some i)

  Finds-old :
      (t : ℕ) (d : Datas B) (name : Text) (j i : ℕ)
      → lookup name d.names ≡ some j
      → Finds t name i (d, or_null (pointer_cast type_of t d j))
  Finds-old t d name j i e r =
      let cast = or_null-pointer _ i r in
      let same = pointer_cast-some t d j i cast in
      (e ∙ ap some same, subst (λ k. pointer_cast type_of t d k ≡ some i) same cast)

  Finds-new :
      (t : ℕ) (d : Datas B) (name : Text) (config : B) (i : ℕ)
      → type_of config ≡ t
      → Finds t name i (added d name config, pointer (length d.objects))
  unfolding pointer_cast
  Finds-new t d name config i typed r =
      let at : length d.objects ≡ i = cc in
      rw (← at) (
        lookup-insert name name (length d.objects) d.names ∙ rw (text_eq_refl name),
        rw (get_elem?-append_length d.objects config [], pointer_cast) (ground arith),
      )

  looked_up :
      (t : ℕ) (d : Datas B) (name : Text) (config : B) (i : ℕ)
      → type_of config ≡ t
      → Finds t name i (lookup_or_create type_of t d name config)
  unfolding lookup_or_create
  looked_up t d name config i typed = elim (Option-cases (lookup name d.names)) [
    | inr (j, e) ↦ rw (e, lookup_or_create) (Finds-old t d name j i e)
    | inl free ↦ elim (Bool-cases (is_key name)) [
      | inl key ↦ rw (free, lookup_or_create) (rw key (Finds-new t d name config i typed))
      | inr bad ↦ rw (free, lookup_or_create) (rw bad (λ r. cc))
    ]
  ]

  lookup_typed_known :
      (t : ℕ) (d : Datas B) (name : Text) (i : ℕ)
      → lookup name d.names ≡ some i
      → pointer_cast type_of t d i ≡ some i
      → lookup_typed type_of t d name ≡ some i
  unfolding lookup_typed
  lookup_typed_known t d name i here at = rw (here, lookup_typed) at

  lookup_or_create_known :
      (t : ℕ) (d : Datas B) (name : Text) (config : B) (i : ℕ)
      → lookup name d.names ≡ some i
      → pointer_cast type_of t d i ≡ some i
      → lookup_or_create type_of t d name config ≡ (d, pointer i)
  unfolding lookup_or_create
  lookup_or_create_known t d name config i here at =
      rw (here, lookup_or_create) (ap (λ o. (d, or_null o)) at)

  -- A variable that Lookup gives is found again, by both forms of Lookup with the same type, at the
  -- same pointer and with no change; the new default is dropped.
  pub lookup_or_create_again :
      (t : ℕ) (d : Datas B) (name : Text) (config config' : B) (i : ℕ)
      → type_of config ≡ t
      → let (d', r) = lookup_or_create type_of t d name config in
        r ≡ pointer i
        → (lookup_typed type_of t d' name ≡ some i)
          × (lookup_or_create type_of t d' name config' ≡ (d', pointer i))
  lookup_or_create_again t d name config config' i typed r =
      let (here, at) = looked_up t d name config i typed r in
      (lookup_typed_known t _ name i here at, lookup_or_create_known t _ name config' i here at)

-- No two names lead to one object.
abbrev AreDistinct : List (Text × ℕ) → Type 0
AreDistinct names =
    (name other : Text) (i : ℕ)
    → lookup name names ≡ some i
    → lookup other names ≡ some i
    → name ≡ other

module _ {B S : Type 0} (dump : Node → Text) (from_string : B → Text → S → B × S) where
  assign_object-other :
      (j i : ℕ) (t : Text) (objects : List B) (s : S)
      → j ≢ i
      → get_elem? (assign_object dump from_string j t objects s).0 i ≡ get_elem? objects i
  unfolding assign_object
  assign_object-other j i t objects s ne = elim (Option-cases (get_elem? objects j)) [
    | inl e ↦ rw (e, assign_object)
    | inr (b, e) ↦ rw (e, assign_object) (get_elem?-set_ne objects (from_string b t s).0 ne)
  ]

  -- The names are kept, and so is object `i`.
  abbrev Keeps : Datas B → ℕ → Datas B × S → Type 0
  Keeps d i p = (p.0.names ≡ d.names) × (get_elem? p.0.objects i ≡ get_elem? d.objects i)

  load_member-Keeps :
      (key : Text) (node : Node) (d : Datas B) (s : S) (name : Text) (i : ℕ)
      → AreDistinct d.names
      → lookup name d.names ≡ some i
      → map to_lower key ≢ name
      → Keeps d i (load_member dump from_string (key, node) d s)
  unfolding load_member
  load_member-Keeps key node d s name i distinct at other = elim (Bool-cases (is_empty key)) [
    | inl e ↦ rw e (refl, refl)
    | inr e ↦ elim (Option-cases (lookup (map to_lower key) d.names)) [
      | inl missing ↦ rw e (rw (missing, load_member) (refl, refl))
      | inr (j, found) ↦
          rw (e, found, load_member)
            (
              refl,
              assign_object-other j i _ d.objects s
                  λ same. other (distinct _ name i (found ∙ ap some same) at),
            )
    ]
  ]

  load_members-Keeps :
      (ms : List (Text × Node)) (d : Datas B) (s : S) (name : Text) (i : ℕ)
      → AreDistinct d.names
      → lookup name d.names ≡ some i
      → All (λ m. map to_lower m.0 ≢ name) ms
      → Keeps d i (load_members dump from_string ms d s)
  unfolding load_members
  load_members-Keeps [] d s name i distinct at h = (refl, refl)
  load_members-Keeps ((key, node) ∷ rest) d s name i distinct at h =
      let (names, object) = load_member-Keeps key node d s name i distinct at h.0 in
      let (d', s') = load_member dump from_string (key, node) d s in
      let (names', object') =
        load_members-Keeps rest d' s' name i (subst AreDistinct (sym names) distinct)
          (subst (λ m. lookup name m ≡ some i) (sym names) at) h.1 in
      (names' ∙ names, object' ∙ object)

  unlisted :
      (ms : List (Text × Node)) (name : Text)
      → ((m : Text × Node) → In m ms → (map to_lower m.0 ≡ m.0) × (m.0 ≢ name))
      → All (λ m. map to_lower m.0 ≢ name) ms
  unlisted [] name h = tt
  unlisted (m ∷ ms) name h =
      let (low, other) = h m first in
      (λ e. other (sym low ∙ e), unlisted ms name (λ n i. h n (later i)))

  -- Loading a document registers nothing, and leaves every variable alone whose name is not among
  -- the keys that ListAllMember lists for the document.
  pub load_from_yaml_other :
      (root : Node) (d : Datas B) (s : S) (name : Text) (i : ℕ)
      → IsRegistry d
      → lookup name d.names ≡ some i
      → ((m : Text × Node) → In m (list_all_member [] root) → m.0 ≢ name)
      → let d' = (load_from_yaml dump from_string root d s).0 in
        (d'.names ≡ d.names) × (get_elem? d'.objects i ≡ get_elem? d.objects i)
  unfolding load_from_yaml
  load_from_yaml_other root d s name i v at other =
      load_members-Keeps (list_all_member [] root) d s name i v.distinct at (
        unlisted (list_all_member [] root) name
          λ m listed. (to_lower-list_all_member m.0 m.1 [] root listed, other m listed))
