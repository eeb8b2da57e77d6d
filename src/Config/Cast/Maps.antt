-- ===== src/Config/Cast/Maps.antt =====
-- The LexicalCast templates for std::map (components/config.h). `on_sequence` is what reading first
-- and second of each entry gives where the document is a sequence.
use web_framework.Base.{
  ◌≡◌, refl, sym, ap, ◌∙◌, Bool, true, false, not, ◌&&◌, List, [], ◌∷◌, ◌++◌, all, Text, Option,
  some, text_eq, text_eq_iff, text_lt, ◌>>=◌, arith,
}
use web_framework.Config.Member.{Node, null, scalar, sequence, mapping, Items, Entries, end, entry}
use web_framework.Config.Yaml.{Yaml, Reloads, put_entry}
use web_framework.Config.Cast.{insert_elements}
use web_framework.Config.Cast.Ascending.{precedes, IsAscending, IsBelow-nil, insert_elements-append}

unfoldable pub entry_list : Entries → List (Text × Node)
entry_list end = []
entry_list (entry k n es) = (k, n) ∷ entry_list es

-- What the iteration over a node meets: first.Scalar() and second.
unfoldable pub pairs : (Items → Option (List (Text × Node))) → Node → Option (List (Text × Node))
unfolding entry_list
pairs on_sequence null = some []
pairs on_sequence (scalar t) = some []
pairs on_sequence (sequence xs) = on_sequence xs
pairs on_sequence (mapping es) = some (entry_list es)

-- The order of the keys.
abbrev pub key_lt {ℓ} : {A : Type ℓ} → Text × A → Text × A → Bool
key_lt p q = text_lt p.0 q.0

-- A node with entries put into it is a map; with none it stays null.
abbrev pub map_node : Entries → Node
map_node end = null
map_node (entry k n es) = mapping (entry k n es)

module _ (y : Yaml) where
  unfoldable pub cast_pairs {ℓ} :
      {A : Type ℓ} → (Text → Option A) → List (Text × Node) → Option (List (Text × A))
  cast_pairs from [] = some []
  cast_pairs from ((k, n) ∷ ps) = do
    a ← from (y.dump n)
    rest ← cast_pairs from ps
    some ((k, a) ∷ rest)

  -- LexicalCast<std::string, std::map<std::string, T>>; insert keeps the first value of a key.
  unfoldable pub map_from_string {ℓ} :
      {A : Type ℓ}
      → (Items → Option (List (Text × Node)))
      → (Text → Option A)
      → Text
      → Option (List (Text × A))
  unfolding pairs cast_pairs insert_elements
  map_from_string on_sequence from text = do
    node ← y.load text
    ps ← pairs on_sequence node
    read ← cast_pairs from ps
    some (insert_elements key_lt [] read)

  -- The loop that sets node[i.first] to the document of the value's text.
  unfoldable pub put_values {ℓ} :
      {A : Type ℓ} → (A → Option Text) → List (Text × A) → Entries → Option Entries
  unfolding put_entry
  put_values to [] es = some es
  put_values to ((k, a) ∷ rest) es = do
    t ← to a
    n ← y.load t
    put_values to rest (put_entry k n es)

  -- LexicalCast<std::map<std::string, T>, std::string>
  unfoldable pub map_to_string {ℓ} :
      {A : Type ℓ} → (A → Option Text) → List (Text × A) → Option Text
  unfolding put_values
  map_to_string to m = do es ← put_values to m end; some (y.dump (map_node es))

-- The entry is behind all others where its key is new.
abbrev snoc : Entries → Text → Node → Entries
snoc end k n = entry k n end
snoc (entry j m es) k n = entry j m (snoc es k n)

abbrev pub lacks : Text → Entries → Bool
lacks k end = true
lacks k (entry j m es) = not (text_eq j k) && lacks k es

put_entry-snoc :
    (k : Text) (n : Node) (es : Entries) → lacks k es ≡ true → put_entry k n es ≡ snoc es k n
unfolding put_entry
put_entry-snoc k n end h = refl
put_entry-snoc k n (entry j m es) h = ground (arith, put_entry-snoc k n es)

entry_list-snoc :
    (es : Entries) (k : Text) (n : Node) → entry_list (snoc es k n) ≡ entry_list es ++ (k, n) ∷ []
unfolding entry_list
entry_list-snoc end k n = refl
entry_list-snoc (entry j m es) k n = rw (entry_list-snoc es k n)

abbrev pub add_all : Entries → Entries → Entries
add_all end fs = fs
add_all (entry k n es) fs = entry k n (add_all es fs)

add_all-snoc :
    (es fs : Entries) (k : Text) (n : Node) → add_all (snoc es k n) fs ≡ add_all es (entry k n fs)
add_all-snoc end fs k n = refl
add_all-snoc (entry j m es) fs k n = rw (add_all-snoc es fs k n)

add_all-end : (es : Entries) → add_all es end ≡ es
add_all-end end = refl
add_all-end (entry k n es) = rw (add_all-end es)

lacks-snoc :
    (es : Entries) (k j : Text) (n : Node)
    → lacks j (snoc es k n) ≡ (lacks j es && not (text_eq k j))
lacks-snoc end k j n = ground arith
lacks-snoc (entry i m es) k j n = ground (arith, lacks-snoc es k j n)

text_lt_irrefl : (t : Text) → text_lt t t ≡ false
unfolding text_lt
text_lt_irrefl [] = refl
text_lt_irrefl (c ∷ t) = ground (arith, text_lt_irrefl t)

text_lt_ne : (a b : Text) → text_lt a b ≡ true → text_eq a b ≡ false
text_lt_ne a b h = ground (arith, text_eq_iff a b, text_lt_irrefl a)

module _ {A : Type 0} where
  abbrev pub is_other : Text → Text × A → Bool
  is_other k p = not (text_eq k p.0)

  -- No key stands twice.
  abbrev pub IsKeyed : List (Text × A) → Type 0
  IsKeyed [] = Unit
  IsKeyed ((k, a) ∷ m) = (all (is_other k) m ≡ true) × IsKeyed m

  is_other-all :
      (k : Text) (a : A) (m : List (Text × A))
      → all (precedes key_lt (k, a)) m ≡ true
      → all (is_other k) m ≡ true
  is_other-all k a [] h = refl
  is_other-all k a ((j, b) ∷ m) h = ground (arith, text_lt_ne k j, is_other-all k a m)

  IsAscending-IsKeyed : (m : List (Text × A)) → IsAscending key_lt m → IsKeyed m
  IsAscending-IsKeyed [] h = tt
  IsAscending-IsKeyed ((k, a) ∷ m) h = (is_other-all k a m h.0, IsAscending-IsKeyed m h.1)

  -- The keys of a map are not among these entries.
  abbrev pub lacks_all : Entries → List (Text × A) → Bool
  lacks_all es m = all (λ p. lacks p.0 es) m

  pub lacks_all-end : (m : List (Text × A)) → lacks_all end m ≡ true
  lacks_all-end [] = refl
  lacks_all-end (p ∷ m) = lacks_all-end m

  lacks_all-snoc :
      (es : Entries) (k : Text) (a : A) (n : Node) (m : List (Text × A))
      → lacks_all es m ≡ true
      → all (is_other k) m ≡ true
      → lacks_all (snoc es k n) m ≡ true
  lacks_all-snoc es k a n [] h g = refl
  lacks_all-snoc es k a n ((j, b) ∷ m) h g =
      ground (arith, lacks-snoc es k j n, lacks_all-snoc es k a n m)

  -- The entries of a map whose values are the documents `ns`.
  abbrev pub entries_of : List (Text × A) → List Node → Entries
  entries_of ((k, a) ∷ m) (n ∷ ns) = entry k n (entries_of m ns)
  entries_of _ _ = end

  -- Each value has a text, the text reads as its document, and the document's text as the value.
  abbrev pub Stored :
      Yaml → (A → Option Text) → (Text → Option A) → List (Text × A) → List Node → Type 0
  Stored y to from [] [] = Unit
  Stored y to from ((k, a) ∷ m) (n ∷ ns) =
      ((t : Text) × (to a ≡ some t) × (y.load t ≡ some n))
      × (from (y.dump n) ≡ some a)
      × Stored y to from m ns
  Stored y to from _ _ = ⊥

  pub put_values-add_all :
      (y : Yaml) (to : A → Option Text) (from : Text → Option A) (m : List (Text × A))
      (ns : List Node) (es : Entries)
      → Stored y to from m ns
      → IsKeyed m
      → lacks_all es m ≡ true
      → put_values y to m es ≡ some (add_all es (entries_of m ns))
  unfolding put_values
  put_values-add_all y to from [] [] es stored ordered new = ap some (sym (add_all-end es))
  put_values-add_all y to from [] (n ∷ ns) es stored ordered new = absurd stored
  put_values-add_all y to from ((k, a) ∷ m) [] es stored ordered new = absurd stored
  put_values-add_all y to from ((k, a) ∷ m) (n ∷ ns) es ((t, written, loaded), _, stored) ordered
        new =
      rw (written, loaded, put_entry-snoc k n es (ground arith))
        (put_values-add_all y to from m ns (snoc es k n) stored ordered.1
            (lacks_all-snoc es k a n m (ground arith) ordered.0)
          ∙ ap some (add_all-snoc es (entries_of m ns) k n))

  pub cast_pairs-entries_of :
      (y : Yaml) (to : A → Option Text) (from : Text → Option A) (m : List (Text × A))
      (ns : List Node)
      → Stored y to from m ns
      → cast_pairs y from (entry_list (entries_of m ns)) ≡ some m
  unfolding cast_pairs entry_list
  cast_pairs-entries_of y to from [] [] stored = refl
  cast_pairs-entries_of y to from [] (n ∷ ns) stored = absurd stored
  cast_pairs-entries_of y to from ((k, a) ∷ m) [] stored = absurd stored
  cast_pairs-entries_of y to from ((k, a) ∷ m) (n ∷ ns) (_, read, stored) =
      rw (read, cast_pairs-entries_of y to from m ns stored) refl

pub pairs-map_node :
    (on_sequence : Items → Option (List (Text × Node))) (es : Entries)
    → pairs on_sequence (map_node es) ≡ some (entry_list es)
unfolding pairs
pairs-map_node on_sequence end = refl
pairs-map_node on_sequence (entry k n es) = refl

-- A map reads back from its own text, with its keys in order, if each value reads back from its
-- document and yaml-cpp reads back the whole document as it wrote it: nested containers included, as
-- a value is stored as a document.
pub map_from_string-map_to_string :
    {A : Type 0} (y : Yaml) (on_sequence : Items → Option (List (Text × Node)))
    (to : A → Option Text) (from : Text → Option A) (m : List (Text × A)) (ns : List Node)
    → IsAscending key_lt m
    → Stored y to from m ns
    → Reloads y (map_node (entries_of m ns))
    → (map_to_string y to m >>= map_from_string y on_sequence from) ≡ some m
unfolding map_to_string map_from_string
map_from_string-map_to_string y on_sequence to from m ns ordered stored whole =
    rw
      (
        put_values-add_all y to from m ns end stored (IsAscending-IsKeyed m ordered)
            (lacks_all-end m),
        whole,
        pairs-map_node on_sequence (entries_of m ns),
        cast_pairs-entries_of y to from m ns stored,
      )
      (ap some (insert_elements-append key_lt m [] (IsBelow-nil key_lt m) ordered))
