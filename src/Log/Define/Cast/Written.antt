-- ===== src/Log/Define/Cast/Written.antt =====
-- What reading a definition that was written by LexicalCast<LogDefine, std::string> gives
-- (components/log.cpp).
use web_framework.Base.{
  ◌≡◌, refl, ap, ◌∙◌, inl, inr, false, List, [], ◌∷◌, map, all, Text, codes, none, some,
  if◌then◌else◌, ◌==◌, is_empty, text_eq, Bool-cases, arith,
}
use web_framework.Log.Level.{Level, unkonwn, from_string}
use web_framework.Log.Define.{LogAppenderDefine, LogDefine}
use web_framework.Log.Define.Cast.{
  read_level, read_type, read_appender, read_appenders, appender_nodes, read_define, put_level,
  put_format, write_appender, write_appenders, define_node, write_define,
}
use web_framework.Log.Define.Cast.Read.{
  find_entry-put_level, find_entry-put_level_other, read_level-mapping, format_node-read,
  level_node, listed, push_items, pushed-listed, item_list-push_items, appender_nodes-listed,
  readable, format_node, read_named-mapping,
}
use web_framework.Config.Member.{scalar, Items, nil, Entries, end}
use web_framework.Config.Yaml.{
  Yaml, Reloads, find_entry, item_list, or_default, put_entry, push_item, push_entry,
  find_entry-put_entry,
}

-- The level that stands in the logger's node in the end: the last one put there.
abbrev pub last_level : Level → List LogAppenderDefine → Level
last_level l [] = l
last_level l (d ∷ ds) = last_level (if d.level == unkonwn then l else d.level) ds

find_entry-put_format_other :
    (key format : Text) (es : Entries)
    → text_eq (codes "format") key ≡ false
    → find_entry key (put_format format es) ≡ find_entry key es
unfolding put_format
find_entry-put_format_other key format es h = elim (Bool-cases (is_empty format)) [
  | inl e ↦ rw e refl
  | inr e ↦ rw (e, find_entry-put_entry) (rw h)
]

find_entry-write_appenders_other :
    (key : Text) (ds : List LogAppenderDefine) (es : Entries)
    → text_eq (codes "level") key ≡ false
    → text_eq (codes "appenders") key ≡ false
    → find_entry key (write_appenders ds es) ≡ find_entry key es
unfolding write_appenders push_entry
find_entry-write_appenders_other key [] es h k = refl
find_entry-write_appenders_other key (d ∷ ds) es h k =
    find_entry-write_appenders_other key ds _ h k
    ∙ rw (find_entry-put_entry, k) (find_entry-put_level_other key d.level es h)

find_entry-write_appenders_level :
    (ds : List LogAppenderDefine) (l : Level) (es : Entries)
    → find_entry (codes "level") es ≡ level_node l
    → find_entry (codes "level") (write_appenders ds es) ≡ level_node (last_level l ds)
unfolding write_appenders push_entry text_eq
find_entry-write_appenders_level [] l es h = h
find_entry-write_appenders_level (d ∷ ds) l es h =
    find_entry-write_appenders_level ds (if d.level == unkonwn then l else d.level) _
      (rw (find_entry-put_entry, find_entry-put_level d.level es, h) (ground arith))

find_entry-write_appenders :
    (ds : List LogAppenderDefine) (xs : Items) (es : Entries)
    → find_entry (codes "appenders") es ≡ listed xs
    → find_entry (codes "appenders") (write_appenders ds es)
      ≡ listed (push_items xs (map write_appender ds))
unfolding write_appenders push_entry text_eq
find_entry-write_appenders [] xs es h = h
find_entry-write_appenders (d ∷ ds) xs es h =
    find_entry-write_appenders ds (push_item xs (write_appender d)) _ (
      rw (find_entry-put_entry, find_entry-put_level_other (codes "appenders") d.level es refl, h)
        (pushed-listed xs (write_appender d)))

-- An appender as it comes back: its format and its level are lost.
abbrev pub plain : LogAppenderDefine → LogAppenderDefine
plain d = record { type = 2; level = unkonwn; format = []; file = [] }

module _ (y : Yaml) where
  read_appender-write_appender :
      (d : LogAppenderDefine)
      → read_appender y (write_appender d) ≡ (if d.type == 2 then some (plain d) else none)
  unfolding read_appender read_level read_type write_appender find_entry put_entry from_string
      text_eq
  read_appender-write_appender d = elim (Bool-cases (d.type == 1)) [
    | inl e ↦
        let other : (d.type == 2) ≡ false = ground arith in
        rw (e, other) (simp (y.subscript_mapping, y.as_string_scalar))
    | inr e ↦ elim (Bool-cases (d.type == 2)) [
      | inl e' ↦ rw (e, e') (simp (y.subscript_mapping, y.as_string_scalar))
      | inr e' ↦ rw (e, e') (simp (y.subscript_null))
    ]
  ]

  read_appenders-write_appender :
      (ds : List LogAppenderDefine)
      → read_appenders y (map write_appender ds)
        ≡ (if all (λ d. d.type == 2) ds then some (map plain ds) else none)
  unfolding read_appenders
  read_appenders-write_appender [] = refl
  read_appenders-write_appender (d ∷ ds) = elim (Bool-cases (d.type == 2)) [
    | inl e ↦
        rw (read_appender-write_appender d, read_appenders-write_appender ds, e) (ground arith)
    | inr e ↦ rw (read_appender-write_appender d, e) refl
  ]

-- The entries of a definition's node, without its appenders.
abbrev own_entries : LogDefine → Entries
own_entries d =
    put_format d.format (put_level d.level (put_entry (codes "name") (scalar d.name) end))

module _ (d : LogDefine) where
  own_name : find_entry (codes "name") (own_entries d) ≡ some (scalar d.name)
  unfolding text_eq put_entry find_entry
  own_name =
      find_entry-put_format_other (codes "name") d.format _ refl
      ∙ find_entry-put_level_other (codes "name") d.level _ refl

  own_level : find_entry (codes "level") (own_entries d) ≡ level_node d.level
  unfolding text_eq put_entry find_entry
  own_level =
      find_entry-put_format_other (codes "level") d.format _ refl
      ∙ find_entry-put_level d.level _
      ∙ ground arith

  own_format : find_entry (codes "format") (own_entries d) ≡ format_node d.format
  unfolding text_eq put_entry find_entry put_format
  own_format = elim (Bool-cases (is_empty d.format)) [
    | inl e ↦ rw e (find_entry-put_level_other (codes "format") d.level _ refl)
    | inr e ↦ rw (e, find_entry-put_entry) refl
  ]

  own_appenders : find_entry (codes "appenders") (own_entries d) ≡ none
  unfolding text_eq put_entry find_entry
  own_appenders =
      find_entry-put_format_other (codes "appenders") d.format _ refl
      ∙ find_entry-put_level_other (codes "appenders") d.level _ refl

-- What LexicalCast<LogDefine, std::string> writes is read back, if yaml-cpp reads back the document,
-- exactly if all appenders are of the type Stdout: the path of a file is written under another key
-- than it is read from. The appenders come back without their formats and levels, and the definition
-- with the last level that an appender has, in place of its own.
pub read_define-write_define :
    (y : Yaml) (d : LogDefine)
    → Reloads y (define_node d)
    → read_define y (write_define y d) ≡ (
        if all (λ a. a.type == 2) d.appenders
        then some (record d {
          level = readable (last_level d.level d.appenders);
          appenders = map plain d.appenders;
        })
        else none)
unfolding read_define write_define define_node item_list text_eq
read_define-write_define y d h =
    let es = write_appenders d.appenders (own_entries d) in
    let name =
      find_entry-write_appenders_other (codes "name") d.appenders (own_entries d) refl refl
      ∙ own_name d in
    let format =
      find_entry-write_appenders_other (codes "format") d.appenders (own_entries d) refl refl
      ∙ own_format d in
    let level =
      find_entry-write_appenders_level d.appenders d.level (own_entries d) (own_level d) in
    let nodes =
      ap (appender_nodes y)
        (find_entry-write_appenders d.appenders nil (own_entries d) (own_appenders d))
      ∙ appender_nodes-listed y _
      ∙ item_list-push_items nil (map write_appender d.appenders) in
    rw (h, y.subscript_mapping, name)
      (read_named-mapping y es d.name d.format (readable (last_level d.level d.appenders)) _
          (read_level-mapping y es (last_level d.level d.appenders) level)
          (ap (or_default y []) format ∙ format_node-read y d.format) nodes
        ∙ rw (read_appenders-write_appender y d.appenders) (ground arith))
