-- ===== src/Config/Cast/HashSets.antt =====
-- The LexicalCast templates for std::unordered_set (components/config.h). A
-- container is the list of its elements as they were inserted; `visit` is the order in which a
-- range-for meets them, which the C++ standard leaves open.
use mathlib.Core.Quot
use mathlib.Core.Quot.{Quot}
use web_framework.Base.{
  ◌≡◌, sym, ap, ◌∙◌, inl, inr, Bool, true, ◌||◌, List, [], ◌∷◌, ◌++◌, any, any-append, Text, Option,
  some, if◌then◌else◌, ◌>>=◌, >>=-eq-some, arith, Bool-cases,
}
use web_framework.Config.Member.{Node, Entries}
use web_framework.Config.Cast.{push_all, cast_all, vector_from_string, vector_to_string}
use web_framework.Config.Cast.RoundTrip.{IsPlain, vector_from_string-vector_to_string}

module _ {ℓ} {A : Type ℓ} (eq : A → A → Bool) where
  -- insert, which keeps an equal element that is there.
  unfoldable pub hash_insert : List A → A → List A
  hash_insert xs a = if any (eq a) xs then xs else xs ++ a ∷ []

  unfoldable pub hash_inserts : List A → List A → List A
  unfolding hash_insert
  hash_inserts ret [] = ret
  hash_inserts ret (x ∷ xs) = hash_inserts (hash_insert ret x) xs

  -- The same elements, in any order.
  abbrev pub SameElements : List A → List A → Type ℓ
  SameElements xs ys = (a : A) → any (eq a) xs ≡ any (eq a) ys

  -- The container as its users see it.
  abbrev pub HashSet : Type ℓ
  HashSet = Quot SameElements

  abbrev pub hash_set : List A → HashSet
  hash_set xs = Quot.mk xs

  -- What is equal has the same equals.
  abbrev pub IsEquality : Type ℓ
  IsEquality = (a b c : A) → eq b c ≡ true → eq a b ≡ eq a c

  any_equal :
      (a x : A) (xs : List A)
      → IsEquality
      → any (eq x) xs ≡ true
      → (eq a x || any (eq a) xs) ≡ any (eq a) xs
  any_equal a x [] law h = cc
  any_equal a x (z ∷ xs) law h = elim (Bool-cases (eq x z)) [
    | inl same ↦ rw (law a x z same) (ground arith)
    | inr other ↦ ground (arith, any_equal a x xs law (ground arith))
  ]

  any-hash_insert :
      (a x : A) (xs : List A)
      → IsEquality
      → any (eq a) (hash_insert xs x) ≡ (eq a x || any (eq a) xs)
  unfolding hash_insert
  any-hash_insert a x xs law = elim (Bool-cases (any (eq x) xs)) [
    | inl there ↦ rw there (sym (any_equal a x xs law there))
    | inr new ↦ rw new (ground (arith, any-append (eq a) xs (x ∷ [])))
  ]

  any-hash_inserts :
      (a : A) (xs ret : List A)
      → IsEquality
      → any (eq a) (hash_inserts ret xs) ≡ (any (eq a) ret || any (eq a) xs)
  unfolding hash_inserts
  any-hash_inserts a [] ret law = ground arith
  any-hash_inserts a (x ∷ xs) ret law =
      any-hash_inserts a xs (hash_insert ret x) law ∙ ground (arith, any-hash_insert a x ret law)

module _ (load : Text → Option Node) (dump : Node → Text) (at_index : Entries → List Text) where
  -- LexicalCast<std::string, std::unordered_set<T>>
  unfoldable pub hash_set_from_string {ℓ} :
      {A : Type ℓ} → (A → A → Bool) → (Text → Option A) → Text → Option (List A)
  unfolding vector_from_string hash_inserts
  hash_set_from_string eq from text = do
    xs ← vector_from_string load dump at_index from text
    some (hash_inserts eq [] xs)

  -- LexicalCast<std::unordered_set<T>, std::string>
  unfoldable pub hash_set_to_string {ℓ} :
      {A : Type ℓ} → (List A → List A) → (A → Option Text) → List A → Option Text
  unfolding vector_to_string
  hash_set_to_string visit to xs = vector_to_string load dump at_index to (visit xs)

-- A hashed set of which every element has a plain text reads back from its own text as the same set,
-- whatever the order in which its elements are visited, if yaml-cpp reads the document back that it
-- wrote.
pub hash_set_from_string-hash_set_to_string {ℓ} :
    {A : Type ℓ} (load : Text → Option Node) (dump : Node → Text) (at_index : Entries → List Text)
    (eq : A → A → Bool) (visit : List A → List A) (to : A → Option Text) (from : Text → Option A)
    (xs : List A) (texts : List Text)
    → IsEquality eq
    → SameElements eq (visit xs) xs
    → IsPlain load dump at_index to from
    → cast_all to (visit xs) ≡ some texts
    → load (dump (push_all texts)) ≡ some (push_all texts)
    → (do
      t ← hash_set_to_string load dump at_index visit to xs
      ys ← hash_set_from_string load dump at_index eq from t
      some (hash_set eq ys))
      ≡ some (hash_set eq xs)
unfolding hash_set_from_string hash_set_to_string vector_to_string
hash_set_from_string-hash_set_to_string load dump at_index eq visit to from xs texts law visits
      plain h back =
    let read : (vector_to_string load dump at_index to (visit xs)
          >>= vector_from_string load dump at_index from)
        ≡ some (visit xs) =
      vector_from_string-vector_to_string load dump at_index to from (visit xs) texts plain h
        back in
    let (t, written, loaded) =
      >>=-eq-some (vector_to_string load dump at_index to (visit xs)) _ read in
    rw (written, loaded)
      (ap some (Quot.sound (λ a. any-hash_inserts eq a (visit xs) [] law ∙ visits a)))
