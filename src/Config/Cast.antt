-- ===== src/Config/Cast.antt =====
-- The LexicalCast templates for vectors, lists and sets (components/config.h). YAML::Load, operator<<
-- of a node and the cast of an element are parameters; a cast that throws is `none`. `at_index` is
-- what node[i], printed, gives for each i below the size of a map.
pub mod Ascending
pub mod RoundTrip
pub mod Maps
pub mod HashSets
pub mod HashMaps
use web_framework.Base.{
  ◌≡◌, refl, sym, ap, ◌∙◌, Bool, true, not, ◌&&◌, List, [], ◌∷◌, ◌++◌, map, all, all-append, Text,
  Option, some, if◌then◌else◌, ◌>>=◌, >>=-eq-some, append_assoc, append-nil, arith,
}
use web_framework.Config.Member.{Node, null, scalar, sequence, mapping, Items, nil, item, Entries}

-- node.push_back of each text in turn: a node that gets none stays null.
abbrev pub scalars : List Text → Items
scalars [] = nil
scalars (t ∷ ts) = item (scalar t) (scalars ts)

abbrev pub push_all : List Text → Node
push_all [] = null
push_all (t ∷ ts) = sequence (scalars (t ∷ ts))

-- A cast of each element, which ends at the first that throws.
unfoldable pub cast_all {ℓ κ} :
    {A : Type ℓ} {B : Type κ} → (A → Option B) → List A → Option (List B)
cast_all cast [] = some []
cast_all cast (a ∷ as') = do b ← cast a; bs ← cast_all cast as'; some (b ∷ bs)

module _ {ℓ} {A : Type ℓ} (lt : A → A → Bool) where
  -- std::set::insert, on the elements in order.
  unfoldable pub insert_element : A → List A → List A
  insert_element x [] = x ∷ []
  insert_element x (y ∷ ys) =
      if lt x y then x ∷ y ∷ ys else if lt y x then y ∷ insert_element x ys else y ∷ ys

  unfoldable pub insert_elements : List A → List A → List A
  unfolding insert_element
  insert_elements ret [] = ret
  insert_elements ret (x ∷ xs) = insert_elements (insert_element x ret) xs

module _ (load : Text → Option Node) (dump : Node → Text) (at_index : Entries → List Text) where
  unfoldable pub item_texts : Items → List Text
  item_texts nil = []
  item_texts (item node xs) = dump node ∷ item_texts xs

  -- The texts of node[i] for i below node.size().
  unfoldable pub node_texts : Node → List Text
  unfolding item_texts
  node_texts null = []
  node_texts (scalar t) = []
  node_texts (sequence xs) = item_texts xs
  node_texts (mapping es) = at_index es

  -- LexicalCast<std::string, std::vector<T>>, and the same for std::list.
  unfoldable pub vector_from_string {ℓ} : {A : Type ℓ} → (Text → Option A) → Text → Option (List A)
  unfolding node_texts cast_all
  vector_from_string from text = do node ← load text; cast_all from (node_texts node)

  -- LexicalCast<std::vector<T>, std::string>, and the same for std::list and std::set.
  unfoldable pub vector_to_string {ℓ} : {A : Type ℓ} → (A → Option Text) → List A → Option Text
  unfolding cast_all
  vector_to_string to xs = do texts ← cast_all to xs; some (dump (push_all texts))

  -- LexicalCast<std::string, std::set<T>>
  unfoldable pub set_from_string {ℓ} :
      {A : Type ℓ} → (A → A → Bool) → (Text → Option A) → Text → Option (List A)
  unfolding vector_from_string insert_elements
  set_from_string lt from text = do
    xs ← vector_from_string from text
    some (insert_elements lt [] xs)
