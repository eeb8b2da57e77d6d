-- ===== src/Config/Yaml.antt =====
-- What the code asks of yaml-cpp beyond the tree of Config.Member: reading and writing a document,
-- node[key], as<std::string>() and the building of a node by node[key] = value and push_back.
pub mod Sample
use web_framework.Base.{
  ◌≡◌, refl, List, [], ◌∷◌, ◌++◌, Text, Option, none, some, if◌then◌else◌, text_eq, text_eq_iff,
  ◌>>=◌, arith,
}
use web_framework.Config.Member.{
  Node, null, scalar, sequence, mapping, Items, nil, item, Entries, end, entry,
}

-- The value of the first entry of a key.
unfoldable pub find_entry : Text → Entries → Option Node
unfolding text_eq
find_entry key end = none
find_entry key (entry k node es) = if text_eq k key then some node else find_entry key es

-- yaml-cpp, as far as the documentation says: `none` is an exception. node[key] gives an undefined
-- node, here `some none`, where a map has no such key and where the node is null. `map_elements` are
-- the nodes node[i] of a map, for each i below its size.
pub record Yaml : Type 0 where
  pub load : Text → Option Node
  pub dump : Node → Text
  pub subscript : Node → Text → Option (Option Node)
  pub as_string : Node → Option Text
  pub map_elements : Entries → List Node
  pub subscript_mapping :
      (es : Entries) (key : Text) → subscript (mapping es) key ≡ some (find_entry key es)
  pub subscript_null : (key : Text) → subscript null key ≡ some none
  pub as_string_scalar : (t : Text) → as_string (scalar t) ≡ some t

-- A document that yaml-cpp reads back as it was written.
abbrev pub Reloads : Yaml → Node → Type 0
Reloads y node = y.load (y.dump node) ≡ some node

unfoldable pub item_list : Items → List Node
item_list nil = []
item_list (item node xs) = node ∷ item_list xs

-- node[i] for i below node.size().
unfoldable pub elements : Yaml → Node → List Node
unfolding item_list
elements y null = []
elements y (scalar t) = []
elements y (sequence xs) = item_list xs
elements y (mapping es) = y.map_elements es

-- as<std::string>() on a node that may be undefined, which throws.
abbrev pub defined_string : Yaml → Option Node → Option Text
defined_string y none = none
defined_string y (some node) = y.as_string node

-- node[key].as<std::string>()
unfoldable pub string_at : Yaml → Node → Text → Option Text
string_at y node key = do found ← y.subscript node key; defined_string y found

abbrev pub or_default : Yaml → Text → Option Node → Option Text
or_default y default none = some default
or_default y default (some node) = y.as_string node

-- node[key].IsDefined() ? node[key].as<std::string>() : default
unfoldable pub string_or : Yaml → Node → Text → Text → Option Text
string_or y node key default = do found ← y.subscript node key; or_default y default found

-- node[key] = value
unfoldable pub put_entry : Text → Node → Entries → Entries
unfolding text_eq
put_entry key node end = entry key node end
put_entry key node (entry k n es) =
    if text_eq k key then entry k node es else entry k n (put_entry key node es)

unfoldable pub push_item : Items → Node → Items
push_item nil node = item node nil
push_item (item n xs) node = item n (push_item xs node)

-- push_back on a node that is a sequence or not there yet.
abbrev pub pushed : Option Node → Node → Node
pushed (some (sequence xs)) node = sequence (push_item xs node)
pushed _ node = sequence (item node nil)

-- node[key].push_back(value)
unfoldable pub push_entry : Text → Node → Entries → Entries
unfolding put_entry find_entry push_item
push_entry key node es = put_entry key (pushed (find_entry key es) node) es

pub find_entry-put_entry :
    (key k : Text) (node : Node) (es : Entries)
    → find_entry k (put_entry key node es) ≡ (if text_eq key k then some node else find_entry k es)
unfolding find_entry put_entry
find_entry-put_entry key k node end = refl
find_entry-put_entry key k node (entry j n es) = ground (
  arith,
  text_eq_iff key k,
  text_eq_iff j k,
  text_eq_iff j key,
  find_entry-put_entry key k node es,
)

pub item_list-push_item :
    (xs : Items) (node : Node) → item_list (push_item xs node) ≡ item_list xs ++ node ∷ []
unfolding item_list push_item
item_list-push_item nil node = refl
item_list-push_item (item n xs) node = rw (item_list-push_item xs node)

module _ (y : Yaml) where
  pub string_at-mapping :
      (es : Entries) (key : Text)
      → string_at y (mapping es) key ≡ defined_string y (find_entry key es)
  unfolding string_at
  string_at-mapping es key = rw (y.subscript_mapping es key)

  pub string_or-mapping :
      (es : Entries) (key default : Text)
      → string_or y (mapping es) key default ≡ or_default y default (find_entry key es)
  unfolding string_or
  string_or-mapping es key default = rw (y.subscript_mapping es key)

  pub string_at-null : (key : Text) → string_at y null key ≡ none
  unfolding string_at
  string_at-null key = rw (y.subscript_null key)

  pub string_or-null : (key default : Text) → string_or y null key default ≡ some default
  unfolding string_or
  string_or-null key default = rw (y.subscript_null key)
