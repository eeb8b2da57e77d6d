-- ===== src/Config/Cast/HashMaps.antt =====
-- The LexicalCast templates for std::unordered_map (components/config.h), on entries as they were
-- inserted; `visit` is the order in which a range-for meets them.
use mathlib.Core.Quot
use mathlib.Core.Quot.{Quot}
use web_framework.Base.{
  ◌≡◌, refl, sym, ap, ◌∙◌, Bool, true, false, not, List, [], ◌∷◌, ◌++◌, any, any-append, all, Text,
  Option, some, text_eq, text_eq_iff, lookup, ◌>>=◌, append-nil, append_assoc, arith,
}
use web_framework.Config.Member.{Node, Items, end}
use web_framework.Config.Yaml.{Yaml, Reloads}
use web_framework.Config.Cast.Maps.{
  pairs, map_node, cast_pairs, map_to_string, IsKeyed, is_other, entries_of, Stored,
  put_values-add_all, cast_pairs-entries_of, pairs-map_node, lacks_all-end,
}
use web_framework.Config.Cast.HashSets.{hash_insert, hash_inserts}

module _ {A : Type 0} where
  abbrev pub same_key : Text × A → Text × A → Bool
  same_key p q = text_eq p.0 q.0

  -- No key of these entries is among the others.
  abbrev are_new : List (Text × A) → List (Text × A) → Bool
  are_new ret m = all (λ p. not (any (same_key p) ret)) m

  are_new-nil : (m : List (Text × A)) → are_new [] m ≡ true
  are_new-nil [] = refl
  are_new-nil (p ∷ m) = are_new-nil m

  are_new-append :
      (p : Text × A) (ret m : List (Text × A))
      → are_new ret m ≡ true
      → all (is_other p.0) m ≡ true
      → are_new (ret ++ p ∷ []) m ≡ true
  are_new-append p ret [] h g = refl
  are_new-append p ret (q ∷ m) h g = ground (
    arith,
    any-append (same_key q) ret (p ∷ []),
    text_eq_iff q.0 p.0,
    text_eq_iff p.0 q.0,
    are_new-append p ret m,
  )

  hash_inserts-append :
      (m ret : List (Text × A))
      → IsKeyed m
      → are_new ret m ≡ true
      → hash_inserts same_key ret m ≡ ret ++ m
  unfolding hash_inserts hash_insert
  hash_inserts-append [] ret keyed new = sym (append-nil ret)
  hash_inserts-append ((k, a) ∷ m) ret keyed new =
      let here : any (same_key (k, a)) ret ≡ false = ground arith in
      rw here (
        hash_inserts-append m (ret ++ (k, a) ∷ []) keyed.1
          (are_new-append (k, a) ret m (ground arith) keyed.0)
        ∙ append_assoc ret ((k, a) ∷ []) m)

  -- A hashed map as its users see it: what is found at each key.
  abbrev pub SameValues : List (Text × A) → List (Text × A) → Type 0
  SameValues m n = (k : Text) → lookup k m ≡ lookup k n

  abbrev pub hash_map : List (Text × A) → Quot SameValues
  hash_map m = Quot.mk m

module _ (y : Yaml) where
  -- LexicalCast<std::string, std::unordered_map<std::string, T>>
  unfoldable pub hash_map_from_string :
      {A : Type 0}
      → (Items → Option (List (Text × Node)))
      → (Text → Option A)
      → Text
      → Option (List (Text × A))
  unfolding pairs cast_pairs hash_inserts
  hash_map_from_string on_sequence from text = do
    node ← y.load text
    ps ← pairs on_sequence node
    read ← cast_pairs y from ps
    some (hash_inserts same_key [] read)

  -- LexicalCast<std::unordered_map<std::string, T>, std::string>
  unfoldable pub hash_map_to_string :
      {A : Type 0}
      → (List (Text × A) → List (Text × A))
      → (A → Option Text)
      → List (Text × A)
      → Option Text
  unfolding map_to_string
  hash_map_to_string visit to m = map_to_string y to (visit m)

-- A hashed map reads back from its own text as the same map, whatever the order in which its entries
-- are visited, if each value reads back from its document and yaml-cpp reads back the whole document
-- as it wrote it.
pub hash_map_from_string-hash_map_to_string :
    {A : Type 0} (y : Yaml) (on_sequence : Items → Option (List (Text × Node)))
    (visit : List (Text × A) → List (Text × A)) (to : A → Option Text) (from : Text → Option A)
    (m : List (Text × A)) (ns : List Node)
    → IsKeyed (visit m)
    → SameValues (visit m) m
    → Stored y to from (visit m) ns
    → Reloads y (map_node (entries_of (visit m) ns))
    → (do
      t ← hash_map_to_string y visit to m
      read ← hash_map_from_string y on_sequence from t
      some (hash_map read))
      ≡ some (hash_map m)
unfolding hash_map_from_string hash_map_to_string map_to_string
hash_map_from_string-hash_map_to_string y on_sequence visit to from m ns keyed visits stored whole =
    rw
      (
        put_values-add_all y to from (visit m) ns end stored keyed (lacks_all-end (visit m)),
        whole,
        pairs-map_node on_sequence (entries_of (visit m) ns),
        cast_pairs-entries_of y to from (visit m) ns stored,
        hash_inserts-append (visit m) [] keyed (are_new-nil (visit m)),
      )
      (ap some (Quot.sound visits))
