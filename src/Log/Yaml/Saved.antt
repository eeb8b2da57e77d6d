-- ===== src/Log/Yaml/Saved.antt =====
-- What the cast of a definition reads from the text that Logger::toYamlString writes
-- (components/log.cpp).
use web_framework.Base.{
  ℕ, ◌≡◌, refl, ap, subst, ◌∙◌, true, false, List, [], ◌∷◌, All, map, Text, codes, Option, none,
  some, get_elem?, text_eq, ◌>>=◌, >>=-eq-some, arith,
}
use web_framework.Log.World.{Sink, stdout, file, LogAppender, Logger, World}
use web_framework.Log.Define.{LogAppenderDefine, LogDefine}
use web_framework.Log.Define.Cast.{
  read_type, read_appender, read_appenders, appender_nodes, read_define, put_level,
}
use web_framework.Log.Define.Cast.Read.{
  level_node, listed, push_items, pushed-listed, item_list-push_items, appender_nodes-listed,
  readable, find_entry-put_level, find_entry-put_level_other, read_level-mapping,
  read_level-to_string, read_named-mapping,
}
use web_framework.Log.Yaml.{
  own_pattern, put_pattern, type_name, put_path, appender_node, appender_yaml, logger_entries,
  push_appenders, logger_yaml,
}
use web_framework.Config.Member.{Node, scalar, mapping, Items, nil, Entries, end}
use web_framework.Config.Yaml.{
  Yaml, Reloads, find_entry, item_list, defined_string, string_at, or_default, put_entry, push_item,
  push_entry, find_entry-put_entry, string_at-mapping, string_or-mapping,
}

abbrev or_empty : Option Text → Text
or_empty none = []
or_empty (some t) = t

abbrev type_number : Sink → ℕ
type_number stdout = 2
type_number (file name) = 1

abbrev file_name : Sink → Text
file_name stdout = []
file_name (file name) = name

-- The definition of an appender as it stands.
abbrev pub define_of_appender : LogAppender → LogAppenderDefine
define_of_appender p = record {
  type = type_number p.sink;
  level = readable p.level;
  format = or_empty (own_pattern p.has_formatter p.formatter);
  file = file_name p.sink;
}

-- The definition of a logger as it stands, with these appenders.
abbrev pub define_of : Logger → List LogAppender → LogDefine
define_of l ps = record {
  name = l.name;
  level = readable l.level;
  format = or_empty (own_pattern true l.formatter);
  appenders = map define_of_appender ps;
}

abbrev pattern_node : Option Text → Option Node
pattern_node none = none
pattern_node (some pattern) = some (scalar pattern)

find_entry-put_pattern :
    (o : Option Text) (es : Entries)
    → find_entry (codes "format") es ≡ none
    → find_entry (codes "format") (put_pattern o es) ≡ pattern_node o
unfolding text_eq
find_entry-put_pattern none es h = h
find_entry-put_pattern (some pattern) es h = rw find_entry-put_entry refl

find_entry-put_pattern_other :
    (key : Text) (o : Option Text) (es : Entries)
    → text_eq (codes "format") key ≡ false
    → find_entry key (put_pattern o es) ≡ find_entry key es
find_entry-put_pattern_other key none es h = refl
find_entry-put_pattern_other key (some pattern) es h = rw (find_entry-put_entry, h) refl

find_entry-put_path_other :
    (key : Text) (s : Sink) (es : Entries)
    → text_eq (codes "path") key ≡ false
    → find_entry key (put_path s es) ≡ find_entry key es
find_entry-put_path_other key stdout es h = refl
find_entry-put_path_other key (file name) es h = rw (find_entry-put_entry, h) refl

-- The entries that every appender writes, below the path.
abbrev common_entries : LogAppender → Entries
common_entries p =
    put_pattern (own_pattern p.has_formatter p.formatter)
      (put_level p.level (put_entry (codes "type") (scalar (type_name p.sink)) end))

module _ (p : LogAppender) where
  appender_type :
      find_entry (codes "type") (put_path p.sink (common_entries p))
      ≡ some (scalar (type_name p.sink))
  unfolding text_eq put_entry find_entry
  appender_type =
      find_entry-put_path_other (codes "type") p.sink _ refl
      ∙ find_entry-put_pattern_other (codes "type") (own_pattern p.has_formatter p.formatter) _ refl
      ∙ find_entry-put_level_other (codes "type") p.level _ refl

  appender_level :
      find_entry (codes "level") (put_path p.sink (common_entries p)) ≡ level_node p.level
  unfolding text_eq put_entry find_entry
  appender_level =
      find_entry-put_path_other (codes "level") p.sink _ refl
      ∙ find_entry-put_pattern_other (codes "level") (own_pattern p.has_formatter p.formatter) _
          refl
      ∙ find_entry-put_level p.level _
      ∙ ground arith

  appender_format :
      find_entry (codes "format") (put_path p.sink (common_entries p))
      ≡ pattern_node (own_pattern p.has_formatter p.formatter)
  unfolding text_eq put_entry find_entry
  appender_format =
      find_entry-put_path_other (codes "format") p.sink _ refl
      ∙ find_entry-put_pattern (own_pattern p.has_formatter p.formatter) _
          (find_entry-put_level_other (codes "format") p.level _ refl)

module _ (y : Yaml) where
  pattern_node-read : (o : Option Text) → or_default y [] (pattern_node o) ≡ some (or_empty o)
  pattern_node-read none = refl
  pattern_node-read (some pattern) = y.as_string_scalar pattern

  read_type-type_name :
      (s : Sink) (es : Entries)
      → read_type y (mapping (put_path s es)) (type_name s) ≡ some (type_number s, file_name s)
  unfolding read_type text_eq string_at
  read_type-type_name stdout es = refl
  read_type-type_name (file name) es =
      rw (y.subscript_mapping, find_entry-put_entry) (rw (y.as_string_scalar name) refl)

  read_appender-appender_node :
      (p : LogAppender) → read_appender y (appender_node p) ≡ some (define_of_appender p)
  unfolding read_appender appender_node
  read_appender-appender_node p =
      let es = put_path p.sink (common_entries p) in
      let level = read_level-mapping y es p.level (appender_level p) in
      let format =
        string_or-mapping y es (codes "format") []
        ∙ ap (or_default y []) (appender_format p)
        ∙ pattern_node-read (own_pattern p.has_formatter p.formatter) in
      let type =
        string_at-mapping y es (codes "type")
        ∙ ap (defined_string y) (appender_type p)
        ∙ y.as_string_scalar (type_name p.sink) in
      rw (level, format, type, read_type-type_name p.sink (common_entries p)) refl

  read_appenders-appender_node :
      (ps : List LogAppender)
      → read_appenders y (map appender_node ps) ≡ some (map define_of_appender ps)
  unfolding read_appenders
  read_appenders-appender_node [] = refl
  read_appenders-appender_node (p ∷ ps) =
      rw (read_appender-appender_node p, read_appenders-appender_node ps) refl

abbrev pub push_nodes : List Node → Entries → Entries
push_nodes [] es = es
push_nodes (n ∷ ns) es = push_nodes ns (push_entry (codes "appenders") n es)

-- The appenders behind a logger's pointers.
abbrev pub appenders_at : World → List ℕ → Option (List LogAppender)
appenders_at w [] = some []
appenders_at w (a ∷ rest) = do p ← get_elem? w.appenders a; ps ← appenders_at w rest; some (p ∷ ps)

-- The node that Logger::toYamlString writes.
abbrev pub logger_node : Logger → List LogAppender → Node
logger_node l ps = mapping (push_nodes (map appender_node ps) (logger_entries l))

pub push_appenders-push_nodes :
    (y : Yaml) (w : World) (bs : List ℕ) (ps : List LogAppender) (es : Entries)
    → appenders_at w bs ≡ some ps
    → All (λ p. Reloads y (appender_node p)) ps
    → push_appenders y w bs es ≡ some (push_nodes (map appender_node ps) es)
unfolding push_appenders appender_yaml
push_appenders-push_nodes y w [] ps es h reloads = let same : ps ≡ [] = cc h in rw same refl
push_appenders-push_nodes y w (a ∷ rest) ps es h reloads =
    let (p, at, h₂) = >>=-eq-some (get_elem? w.appenders a) _ h in
    let (qs, later, h₃) = >>=-eq-some (appenders_at w rest) _ h₂ in
    let same : ps ≡ p ∷ qs = cc h₃ in
    let both = subst (All (λ p. Reloads y (appender_node p))) same reloads in
    rw (same, at, both.0) (push_appenders-push_nodes y w rest qs _ later both.1)

find_entry-push_nodes_other :
    (key : Text) (ns : List Node) (es : Entries)
    → text_eq (codes "appenders") key ≡ false
    → find_entry key (push_nodes ns es) ≡ find_entry key es
unfolding push_entry
find_entry-push_nodes_other key [] es h = refl
find_entry-push_nodes_other key (n ∷ ns) es h =
    find_entry-push_nodes_other key ns _ h ∙ rw (find_entry-put_entry, h) refl

find_entry-push_nodes :
    (ns : List Node) (xs : Items) (es : Entries)
    → find_entry (codes "appenders") es ≡ listed xs
    → find_entry (codes "appenders") (push_nodes ns es) ≡ listed (push_items xs ns)
unfolding push_entry text_eq
find_entry-push_nodes [] xs es h = h
find_entry-push_nodes (n ∷ ns) xs es h =
    find_entry-push_nodes ns (push_item xs n) _ (rw (find_entry-put_entry, h) (pushed-listed xs n))

-- The text that Logger::toYamlString writes for a logger is read by the cast of a definition as the
-- logger stands: its name, its pattern, and each appender's class, file and own pattern, with the
-- levels that have a name. yaml-cpp is taken to read back these documents as it wrote them.
pub read_define-logger_yaml :
    (y : Yaml) (w : World) (l : Logger) (ps : List LogAppender)
    → appenders_at w l.appenders ≡ some ps
    → All (λ p. Reloads y (appender_node p)) ps
    → Reloads y (logger_node l ps)
    → (logger_yaml y w l >>= read_define y) ≡ some (define_of l ps)
unfolding logger_yaml logger_entries read_define text_eq put_entry find_entry item_list
read_define-logger_yaml y w l ps at reloads whole =
    let ns = map appender_node ps in
    let es = push_nodes ns (logger_entries l) in
    let name =
      find_entry-push_nodes_other (codes "name") ns (logger_entries l) refl
      ∙ find_entry-put_pattern_other (codes "name") (own_pattern true l.formatter) _ refl in
    let level =
      find_entry-push_nodes_other (codes "level") ns (logger_entries l) refl
      ∙ find_entry-put_pattern_other (codes "level") (own_pattern true l.formatter) _ refl in
    let format =
      find_entry-push_nodes_other (codes "format") ns (logger_entries l) refl
      ∙ find_entry-put_pattern (own_pattern true l.formatter) _ refl in
    let nodes =
      ap (appender_nodes y) (
        find_entry-push_nodes ns nil (logger_entries l)
          (find_entry-put_pattern_other (codes "appenders") (own_pattern true l.formatter) _ refl))
      ∙ appender_nodes-listed y _
      ∙ item_list-push_items nil ns in
    rw
      (
        push_appenders-push_nodes y w l.appenders ps (logger_entries l) at reloads,
        whole,
        y.subscript_mapping,
        name,
      )
      (read_named-mapping y es l.name (or_empty (own_pattern true l.formatter)) (readable l.level)
          ns (read_level-to_string y es l.level level)
          (ap (or_default y []) format ∙ pattern_node-read y (own_pattern true l.formatter)) nodes
        ∙ rw (read_appenders-appender_node y ps) refl)
