-- ===== src/Log/Define/Cast/Read.antt =====
-- How the casts of a definition read levels, formats and appenders from a node (components/log.cpp).
use web_framework.Base.{
  ◌≡◌, refl, sym, ap, ◌∙◌, inl, inr, false, not, ◌&&◌, List, [], ◌∷◌, ◌++◌, Text, codes, Option,
  none, some, if◌then◌else◌, ◌==◌, leb, is_empty, text_eq, ◌>>=◌, Bool-cases, append_assoc,
  append-nil, arith,
}
use web_framework.Log.Level.{
  Level, unkonwn, debug, fatal, to_string, from_string, from_string-to_string,
}
use web_framework.Log.Define.Cast.{
  read_level, read_appenders, appender_nodes, read_named, put_level,
}
use web_framework.Config.Member.{Node, scalar, sequence, mapping, Items, nil, item, Entries}
use web_framework.Config.Yaml.{
  Yaml, find_entry, item_list, elements, or_default, push_item, pushed, find_entry-put_entry,
  item_list-push_item, string_or-mapping,
}

abbrev pub level_node : Level → Option Node
level_node l = if l == unkonwn then none else some (scalar (to_string l))

abbrev pub listed : Items → Option Node
listed nil = none
listed (item n xs) = some (sequence (item n xs))

pub appender_nodes-listed : (y : Yaml) (xs : Items) → appender_nodes y (listed xs) ≡ item_list xs
unfolding elements
appender_nodes-listed y nil = refl
appender_nodes-listed y (item n xs) = refl

-- A level as FromString reads back what ToString writes.
abbrev pub readable : Level → Level
readable l = if leb debug l && leb l fatal then l else unkonwn

abbrev pub format_node : Text → Option Node
format_node format = if not (is_empty format) then some (scalar format) else none

abbrev pub push_items : Items → List Node → Items
push_items xs [] = xs
push_items xs (n ∷ ns) = push_items (push_item xs n) ns

pub pushed-listed : (xs : Items) (n : Node) → some (pushed (listed xs) n) ≡ listed (push_item xs n)
unfolding push_item
pushed-listed nil n = refl
pushed-listed (item m xs) n = refl

pub item_list-push_items :
    (xs : Items) (ns : List Node) → item_list (push_items xs ns) ≡ item_list xs ++ ns
item_list-push_items xs [] = sym (append-nil (item_list xs))
item_list-push_items xs (n ∷ ns) =
    item_list-push_items (push_item xs n) ns
    ∙ rw (item_list-push_item xs n) (append_assoc (item_list xs) (n ∷ []) ns)

pub find_entry-put_level :
    (l : Level) (es : Entries)
    → find_entry (codes "level") (put_level l es)
      ≡ (if l == unkonwn then find_entry (codes "level") es else level_node l)
unfolding put_level text_eq
find_entry-put_level l es = elim (Bool-cases (l == unkonwn)) [
  | inl e ↦ rw e refl
  | inr e ↦ rw (e, find_entry-put_entry) refl
]

pub find_entry-put_level_other :
    (key : Text) (l : Level) (es : Entries)
    → text_eq (codes "level") key ≡ false
    → find_entry key (put_level l es) ≡ find_entry key es
unfolding put_level
find_entry-put_level_other key l es h = elim (Bool-cases (l == unkonwn)) [
  | inl e ↦ rw e refl
  | inr e ↦ rw (e, find_entry-put_entry) (rw h)
]

module _ (y : Yaml) where
  level_node-read :
      (l : Level)
      → (or_default y [] (level_node l) >>= λ t. some (from_string t)) ≡ some (readable l)
  level_node-read l = elim (Bool-cases (l == unkonwn)) [
    | inl e ↦ rw e (unfold from_string text_eq in ground arith)
    | inr e ↦ rw (e, y.as_string_scalar) (ap some (from_string-to_string l))
  ]

  pub read_level-mapping :
      (es : Entries) (l : Level)
      → find_entry (codes "level") es ≡ level_node l
      → read_level y (mapping es) ≡ some (readable l)
  unfolding read_level
  read_level-mapping es l h =
      ap (λ o. o >>= λ t. some (from_string t))
        (string_or-mapping y es (codes "level") [] ∙ ap (or_default y []) h)
      ∙ level_node-read l

  pub format_node-read : (format : Text) → or_default y [] (format_node format) ≡ some format
  format_node-read [] = refl
  format_node-read (c ∷ cs) = y.as_string_scalar (c ∷ cs)

  pub read_level-to_string :
      (es : Entries) (l : Level)
      → find_entry (codes "level") es ≡ some (scalar (to_string l))
      → read_level y (mapping es) ≡ some (readable l)
  unfolding read_level
  read_level-to_string es l h =
      ap (λ o. o >>= λ t. some (from_string t))
        (string_or-mapping y es (codes "level") []
          ∙ ap (or_default y []) h
          ∙ y.as_string_scalar (to_string l))
      ∙ ap some (from_string-to_string l)

  -- A node with these entries is read as a definition.
  pub read_named-mapping :
      (es : Entries) (name format : Text) (level : Level) (ns : List Node)
      → read_level y (mapping es) ≡ some level
      → or_default y [] (find_entry (codes "format") es) ≡ some format
      → appender_nodes y (find_entry (codes "appenders") es) ≡ ns
      → read_named y (mapping es) (some (scalar name)) ≡ (do
        appenders ← read_appenders y ns
        some (record { name = name; level = level; format = format; appenders = appenders }))
  unfolding read_named
  read_named-mapping es name format level ns h k m =
      let own_format = string_or-mapping y es (codes "format") [] ∙ k in
      rw (y.as_string_scalar name, h, own_format, y.subscript_mapping, m) refl
