-- ===== src/Base/Maps.antt =====
-- std::map with texts for keys: an association list in key order.
use Prim.Native.Nat.{ℕ}
use mathlib.Core.Path.{◌≡◌, refl, sym, ◌∙◌}
use mathlib.Core.Logic.{◌⊎◌}
use mathlib.Core.List.{List, [], ◌∷◌}
use mathlib.Core.Option.{Option, none, some}
use native.Mathlib.Omega.{arith}
use web_framework.Base.Tests.{if◌then◌else◌}
use web_framework.Base.Texts.{Text, text_eq, text_eq_iff, text_lt}

module _ {ℓ} {V : Type ℓ} where
  unfoldable pub lookup : Text → List (Text × V) → Option V
  lookup k [] = none
  lookup k ((j, v) ∷ m) = if text_eq j k then some v else lookup k m

  -- `m[k] = v`
  unfoldable pub insert : Text → V → List (Text × V) → List (Text × V)
  insert k v [] = (k, v) ∷ []
  insert k v ((j, w) ∷ m) =
      if text_eq j k
      then (k, v) ∷ m
      else if text_lt k j
      then (k, v) ∷ (j, w) ∷ m
      else (j, w) ∷ insert k v m

  pub lookup-insert :
      (k j : Text) (v : V) (m : List (Text × V))
      → lookup j (insert k v m) ≡ (if text_eq k j then some v else lookup j m)
  unfolding lookup insert
  lookup-insert k j v [] = refl
  lookup-insert k j v ((i, w) ∷ m) =
      ground (arith, text_eq_iff k j, text_eq_iff i k, text_eq_iff i j, lookup-insert k j v m)

-- A name found after a write is the one written, or was there before.
pub lookup-insert_cases :
    (name k : Text) (n i : ℕ) (m : List (Text × ℕ))
    → lookup k (insert name n m) ≡ some i
    → ((name ≡ k) × (n ≡ i)) ⊎ (lookup k m ≡ some i)
lookup-insert_cases name k n i m h =
    let read = sym (lookup-insert name k n m) ∙ h in ground (arith, read, text_eq_iff name k)
