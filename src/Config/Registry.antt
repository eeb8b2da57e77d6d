-- ===== src/Config/Registry.antt =====
-- Config (components/config.h, components/config.cpp). The registry holds base pointers: the object
-- type B and its virtual functions are parameters, with the number of its dynamic type. A pointer is
-- an index into `objects`.
pub mod Laws
pub mod Visit
pub mod Types
use web_framework.Base.{
  ℕ, suc, ◌≡◌, Bool, true, false, not, List, [], ◌∷◌, ◌++◌, map, Text, Option, none, some, length,
  get_elem?, set, lookup, insert, ◌==◌, if◌then◌else◌, is_empty, to_lower,
}
use web_framework.Config.Member.{Node, null, scalar, sequence, mapping, is_key, list_all_member}

-- GetDatas(); the order of the map is not looked at.
pub record Datas (B : Type 0) : Type 0 where
  pub names : List (Text × ℕ)
  pub objects : List B

-- What Lookup gives: a pointer, null for a variable of another type, or std::invalid_argument.
pub data Lookup : Type 0 where
  pointer : ℕ → Lookup
  null_pointer : Lookup
  invalid_argument : Lookup

-- LookupBase
unfoldable pub lookup_base : {B : Type 0} → Datas B → Text → Option ℕ
lookup_base d name = lookup name d.names

abbrev pub or_null : Option ℕ → Lookup
or_null none = null_pointer
or_null (some i) = pointer i

module _ {B : Type 0} (type_of : B → ℕ) where
  -- std::dynamic_pointer_cast<ConfigVar<T>>
  unfoldable pub pointer_cast : ℕ → Datas B → ℕ → Option ℕ
  pointer_cast t d i = elim (get_elem? d.objects i) [
    | none ↦ none
    | some b ↦ if type_of b == t then some i else none
  ]

  -- Lookup<T>(name, default_value, description); `config` is the object that `new` makes. The
  -- messages on the log are left out.
  unfoldable pub lookup_or_create : ℕ → Datas B → Text → B → Datas B × Lookup
  unfolding pointer_cast
  lookup_or_create t d name config = elim (lookup name d.names) [
    | some i ↦ (d, or_null (pointer_cast t d i))
    | none ↦ if not (is_key name) then (d, invalid_argument) else (
      record { names = insert name (length d.objects) d.names; objects = d.objects ++ config ∷ [] },
      pointer (length d.objects),
    )
  ]

  -- Lookup<T>(name)
  unfoldable pub lookup_typed : ℕ → Datas B → Text → Option ℕ
  unfolding pointer_cast
  lookup_typed t d name = elim (lookup name d.names) [ none ↦ none | some i ↦ pointer_cast t d i ]

-- `dump` is yaml-cpp's operator<<; `from_string` is the virtual function, on the object and the
-- rest of the program's state.
module _ {B S : Type 0} (dump : Node → Text) (from_string : B → Text → S → B × S) where
  -- The text handed to fromString.
  unfoldable pub text_of : Node → Text
  text_of (scalar t) = t
  text_of null = dump null
  text_of (sequence xs) = dump (sequence xs)
  text_of (mapping es) = dump (mapping es)

  unfoldable pub assign_object : ℕ → Text → List B → S → List B × S
  assign_object i t objects s = elim (get_elem? objects i) [
    | none ↦ (objects, s)
    | some b ↦ let (b', s') = from_string b t s in (set objects i b', s')
  ]

  -- One round of the loop of LoadFromYaml.
  unfoldable pub load_member : Text × Node → Datas B → S → Datas B × S
  unfolding text_of assign_object lookup_base
  load_member (key, node) d s =
      if is_empty key then (d, s) else elim (lookup_base d (map to_lower key)) [
        | none ↦ (d, s)
        | some i ↦
            let (objects, s') = assign_object i (text_of node) d.objects s in
            (record d { objects = objects }, s')
      ]

  unfoldable pub load_members : List (Text × Node) → Datas B → S → Datas B × S
  unfolding load_member
  load_members [] d s = (d, s)
  load_members (m ∷ rest) d s = let (d', s') = load_member m d s in load_members rest d' s'

  -- LoadFromYaml
  unfoldable pub load_from_yaml : Node → Datas B → S → Datas B × S
  unfolding load_members
  load_from_yaml root d s = load_members (list_all_member [] root) d s

-- The loop of Visit; the callback may change the program's state.
abbrev pub visit_names {ℓ} : {S : Type ℓ} → (ℕ → S → S) → List (Text × ℕ) → S → S
visit_names callback [] s = s
visit_names callback ((name, i) ∷ rest) s = visit_names callback rest (callback i s)

-- Visit
unfoldable pub visit {ℓ} : {B : Type 0} {S : Type ℓ} → (ℕ → S → S) → Datas B → S → S
visit callback d s = visit_names callback d.names s
