-- ===== src/Config/Cast/RoundTrip.antt =====
-- The casts of vectors, lists and sets (components/config.h), there and back.
use web_framework.Base.{
  ◌≡◌, refl, ap, ◌∙◌, Bool, List, [], ◌∷◌, map, Text, Option, some, ◌>>=◌, >>=-eq-some,
}
use web_framework.Config.Member.{Node, scalar, Entries}
use web_framework.Config.Cast.{
  scalars, push_all, cast_all, item_texts, node_texts, vector_from_string, vector_to_string,
  set_from_string,
}
use web_framework.Config.Cast.Ascending.{IsAscending, IsBelow-nil, insert_elements-append}

-- As many elements as texts.
cast_all-const {ℓ κ λ'} :
    {A : Type ℓ} {B : Type κ} {C : Type λ'} (cast : A → Option B) (c : C) (xs : List A)
    (ys : List B)
    → cast_all cast xs ≡ some ys
    → map (λ y. c) ys ≡ map (λ x. c) xs
unfolding cast_all
cast_all-const cast c [] ys h = let same : ys ≡ [] = cc h in rw same refl
cast_all-const cast c (x ∷ xs) ys h =
    let (y, first, h₂) = >>=-eq-some (cast x) _ h in
    let (zs, later, h₃) = >>=-eq-some (cast_all cast xs) _ h₂ in
    let same : ys ≡ y ∷ zs = cc h₃ in rw (same, cast_all-const cast c xs zs later) refl

module _ (load : Text → Option Node) (dump : Node → Text) (at_index : Entries → List Text) where
  node_texts-push_all :
      (ts : List Text) → node_texts load dump at_index (push_all ts) ≡ map (λ t. dump (scalar t)) ts
  unfolding node_texts
  node_texts-push_all [] = refl
  node_texts-push_all (t ∷ ts) = ap (λ us. dump (scalar t) ∷ us) (go ts)
    where
      go :
          (ts : List Text)
          → item_texts load dump at_index (scalars ts) ≡ map (λ t. dump (scalar t)) ts
      go [] = refl
      go (t ∷ ts) = ap (λ us. dump (scalar t) ∷ us) (go ts)

  -- What holds of an element's text: it is written as a plain scalar, and reads back.
  abbrev pub IsPlain {ℓ} : {A : Type ℓ} → (A → Option Text) → (Text → Option A) → Type ℓ
  IsPlain {A} to from =
      (a : A) (t : Text) → to a ≡ some t → (dump (scalar t) ≡ t) × (from t ≡ some a)

  cast_all_back {ℓ} :
      {A : Type ℓ} (to : A → Option Text) (from : Text → Option A) (xs : List A) (texts : List Text)
      → IsPlain to from
      → cast_all to xs ≡ some texts
      → cast_all from (map (λ t. dump (scalar t)) texts) ≡ some xs
  unfolding cast_all
  cast_all_back to from [] texts plain h = let same : texts ≡ [] = cc h in rw same refl
  cast_all_back to from (x ∷ xs) texts plain h =
      let (t, first, h₂) = >>=-eq-some (to x) _ h in
      let (ts, later, h₃) = >>=-eq-some (cast_all to xs) _ h₂ in
      let same : texts ≡ t ∷ ts = cc h₃ in
      let (written, read) = plain x t first in
      rw (same, written, read, cast_all_back to from xs ts plain later) refl

  -- A vector or list of which every element has a plain text reads back from its own text, if yaml-cpp
  -- reads the document back that it wrote.
  pub vector_from_string-vector_to_string {ℓ} :
      {A : Type ℓ} (to : A → Option Text) (from : Text → Option A) (xs : List A) (texts : List Text)
      → IsPlain to from
      → cast_all to xs ≡ some texts
      → load (dump (push_all texts)) ≡ some (push_all texts)
      → (vector_to_string load dump at_index to xs >>= vector_from_string load dump at_index from)
        ≡ some xs
  unfolding vector_from_string vector_to_string
  vector_from_string-vector_to_string to from xs texts plain h back =
      rw (h, back, node_texts-push_all texts) (cast_all_back to from xs texts plain h)

  cast_all_empty {ℓ} :
      {A : Type ℓ} (from : Text → Option A) (texts : List Text)
      → ((t : Text) → load (dump (scalar t)) ≡ some (scalar t))
      → cast_all (vector_from_string load dump at_index from) (map (λ t. dump (scalar t)) texts)
        ≡ some (map (λ t. []) texts)
  unfolding cast_all vector_from_string
  cast_all_empty from [] back = refl
  cast_all_empty from (t ∷ ts) back = rw (back t, cast_all_empty from ts back) refl

  -- A vector of vectors is not read back: the inner vectors are written as texts inside scalars, which
  -- have no elements, so that each comes back empty. yaml-cpp is taken to read back what it writes.
  pub nested_vector_lost {ℓ} :
      {A : Type ℓ} (to : A → Option Text) (from : Text → Option A) (xs : List (List A))
      (texts : List Text)
      → cast_all (vector_to_string load dump at_index to) xs ≡ some texts
      → load (dump (push_all texts)) ≡ some (push_all texts)
      → ((t : Text) → load (dump (scalar t)) ≡ some (scalar t))
      → (vector_to_string load dump at_index (vector_to_string load dump at_index to) xs
          >>= vector_from_string load dump at_index (vector_from_string load dump at_index from))
        ≡ some (map (λ x. []) xs)
  unfolding vector_from_string vector_to_string
  nested_vector_lost to from xs texts h back scalar_back =
      rw (h, back, node_texts-push_all texts)
        (cast_all_empty from texts scalar_back
          ∙ ap some (cast_all-const (vector_to_string load dump at_index to) [] xs texts h))

  -- A set of which every element has a plain text reads back from its own text, with its elements in
  -- the same order, if yaml-cpp reads the document back that it wrote.
  pub set_from_string-vector_to_string {ℓ} :
      {A : Type ℓ} (lt : A → A → Bool) (to : A → Option Text) (from : Text → Option A) (xs : List A)
      (texts : List Text)
      → IsAscending lt xs
      → IsPlain to from
      → cast_all to xs ≡ some texts
      → load (dump (push_all texts)) ≡ some (push_all texts)
      → (vector_to_string load dump at_index to xs >>= set_from_string load dump at_index lt from)
        ≡ some xs
  unfolding set_from_string vector_from_string vector_to_string
  set_from_string-vector_to_string lt to from xs texts ordered plain h back =
      rw (h, back, node_texts-push_all texts, cast_all_back to from xs texts plain h)
        (ap some (insert_elements-append lt xs [] (IsBelow-nil lt xs) ordered))
