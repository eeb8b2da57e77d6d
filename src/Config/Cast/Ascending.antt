-- ===== src/Config/Cast/Ascending.antt =====
-- The insertion of elements that are in the order of a std::set (components/config.h).
use web_framework.Base.{
  ◌≡◌, refl, sym, ◌∙◌, Bool, true, not, ◌&&◌, List, [], ◌∷◌, ◌++◌, all, all-append, append_assoc,
  append-nil, arith,
}
use web_framework.Config.Cast.{insert_element, insert_elements}

module _ {ℓ} {A : Type ℓ} (lt : A → A → Bool) where
  abbrev pub precedes : A → A → Bool
  precedes x y = lt x y && not (lt y x)

  -- Each element is less than all behind it, as in the order of a std::set.
  abbrev pub IsAscending : List A → Type 0
  IsAscending [] = Unit
  IsAscending (x ∷ xs) = (all (precedes x) xs ≡ true) × IsAscending xs

  abbrev pub IsBelow : List A → List A → Type 0
  IsBelow ret [] = Unit
  IsBelow ret (x ∷ xs) = (all (λ y. precedes y x) ret ≡ true) × IsBelow ret xs

  insert_element_last :
      (x : A) (ret : List A)
      → all (λ y. precedes y x) ret ≡ true
      → insert_element lt x ret ≡ ret ++ x ∷ []
  unfolding insert_element
  insert_element_last x [] h = refl
  insert_element_last x (y ∷ ys) h = ground (arith, insert_element_last x ys)

  IsBelow-append :
      (x : A) (ret xs : List A)
      → IsBelow ret xs
      → all (precedes x) xs ≡ true
      → IsBelow (ret ++ x ∷ []) xs
  IsBelow-append x ret [] below h = tt
  IsBelow-append x ret (z ∷ zs) below h = (
    ground (arith, all-append (λ y. precedes y z) ret (x ∷ []), below.0),
    IsBelow-append x ret zs below.1 (ground arith),
  )

  pub insert_elements-append :
      (xs ret : List A) → IsBelow ret xs → IsAscending xs → insert_elements lt ret xs ≡ ret ++ xs
  unfolding insert_elements
  insert_elements-append [] ret below h = sym (append-nil ret)
  insert_elements-append (x ∷ xs) ret below h = rw (insert_element_last x ret below.0) (
      insert_elements-append xs (ret ++ x ∷ []) (IsBelow-append x ret xs below.1 h.0) h.1
      ∙ append_assoc ret (x ∷ []) xs)

  pub IsBelow-nil : (xs : List A) → IsBelow [] xs
  IsBelow-nil [] = tt
  IsBelow-nil (x ∷ xs) = (refl, IsBelow-nil xs)
