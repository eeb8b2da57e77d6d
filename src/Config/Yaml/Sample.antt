-- ===== src/Config/Yaml/Sample.antt =====
-- A stand-in for yaml-cpp for the examples: documents are written as tagged numbers, and read back.
use web_framework.Base.{
  ℕ, zero, suc, ◌+◌, refl, [], ◌∷◌, ◌++◌, Text, Option, none, some, length, if◌then◌else◌, ◌==◌,
  ◌>>=◌,
}
use web_framework.Config.Member.{
  Node, null, scalar, sequence, mapping, Items, nil, item, Entries, end, entry,
}
use web_framework.Config.Yaml.{Yaml, find_entry}

abbrev sized : Text → Text
sized t = length t ∷ t

unfoldable mutual
  pub encode : Node → Text
  encode null = 0 ∷ []
  encode (scalar t) = 1 ∷ sized t
  encode (sequence xs) = 2 ∷ encode_items xs
  encode (mapping es) = 3 ∷ encode_entries es

  pub encode_items : Items → Text
  encode_items nil = 0 ∷ []
  encode_items (item n xs) = 1 ∷ encode n ++ encode_items xs

  pub encode_entries : Entries → Text
  encode_entries end = 0 ∷ []
  encode_entries (entry k n es) = 1 ∷ sized k ++ encode n ++ encode_entries es

unfoldable pub take_text : ℕ → Text → Option (Text × Text)
take_text zero t = some ([], t)
take_text (suc n) [] = none
take_text (suc n) (c ∷ t) = do (s, rest) ← take_text n t; some (c ∷ s, rest)

unfoldable pub take_sized : Text → Option (Text × Text)
unfolding take_text
take_sized [] = none
take_sized (n ∷ t) = take_text n t

-- Fuel is spent on every tag.
unfoldable mutual
  unfolding take_sized

  pub decode : ℕ → Text → Option (Node × Text)
  decode zero t = none
  decode (suc f) [] = none
  decode (suc f) (tag ∷ t) =
      let as_scalar = (do (s, rest) ← take_sized t; some (scalar s, rest)) in
      let as_sequence = (do (xs, rest) ← decode_items f t; some (sequence xs, rest)) in
      let as_mapping = (do (es, rest) ← decode_entries f t; some (mapping es, rest)) in
      if tag == 0
      then some (null, t)
      else if tag == 1
      then as_scalar
      else if tag == 2
      then as_sequence
      else as_mapping

  pub decode_items : ℕ → Text → Option (Items × Text)
  decode_items zero t = none
  decode_items (suc f) [] = none
  decode_items (suc f) (tag ∷ t) =
      let rest_of = (do
        (n, rest) ← decode f t
        (xs, rest) ← decode_items f rest
        some (item n xs, rest)) in
      if tag == 0 then some (nil, t) else rest_of

  pub decode_entries : ℕ → Text → Option (Entries × Text)
  decode_entries zero t = none
  decode_entries (suc f) [] = none
  decode_entries (suc f) (tag ∷ t) =
      let rest_of = (do
        (k, rest) ← take_sized t
        (n, rest) ← decode f rest
        (es, rest) ← decode_entries f rest
        some (entry k n es, rest)) in
      if tag == 0 then some (end, t) else rest_of

unfoldable pub sample_load : Text → Option Node
unfolding decode
sample_load t = do (n, rest) ← decode (length t + 1) t; some n

abbrev sample_subscript : Node → Text → Option (Option Node)
sample_subscript null key = some none
sample_subscript (mapping es) key = some (find_entry key es)
sample_subscript _ key = none

abbrev sample_string : Node → Option Text
sample_string (scalar t) = some t
sample_string _ = none

abbrev pub sample_yaml : Yaml
sample_yaml = record {
  load = sample_load;
  dump = encode;
  subscript = sample_subscript;
  as_string = sample_string;
  map_elements = λ es. [];
  subscript_mapping = λ es key. refl;
  subscript_null = λ key. refl;
  as_string_scalar = λ t. refl;
}
