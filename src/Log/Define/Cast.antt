-- ===== src/Log/Define/Cast.antt =====
-- LexicalCast<std::string, LogDefine> and LexicalCast<LogDefine, std::string> (components/log.cpp).
pub mod Read
pub mod Written
use web_framework.Base.{
  ℕ, ◌≡◌, refl, Bool, true, false, not, List, [], ◌∷◌, Text, codes, Option, none, some,
  if◌then◌else◌, ◌==◌, is_empty, text_eq, ◌>>=◌,
}
use web_framework.Log.Level.{Level, unkonwn, to_string, from_string}
use web_framework.Log.Define.{LogAppenderDefine, LogDefine}
use web_framework.Config.Member.{Node, null, scalar, mapping, Entries, end}
use web_framework.Config.Yaml.{Yaml, elements, string_at, string_or, put_entry, push_entry}

-- The name of the definition that stands for a document with no name.
abbrev pub error_name : Text
error_name = codes "__error__logger"

abbrev pub nameless : LogDefine
nameless = record { name = error_name; level = unkonwn; format = []; appenders = [] }

-- `appender["level"].IsDefined()`, and FromString of it; FromString of the empty text is UNKONWN,
-- the level that a definition starts with.
unfoldable pub read_level : Yaml → Node → Option Level
unfolding from_string string_or
read_level y node = do text ← string_or y node (codes "level") []; some (from_string text)

-- What a type in the document says of the appender; `path` is read for a file only.
unfoldable pub read_type : Yaml → Node → Text → Option (ℕ × Text)
unfolding text_eq string_at
read_type y node type =
    if text_eq type (codes "FileLogAppender")
    then (do path ← string_at y node (codes "path"); some (1, path))
    else some (2, [])

-- One round of the loop over node["appenders"].
unfoldable pub read_appender : Yaml → Node → Option LogAppenderDefine
unfolding read_level read_type string_or string_at
read_appender y node = do
  level ← read_level y node
  format ← string_or y node (codes "format") []
  type ← string_at y node (codes "type")
  (number, path) ← read_type y node type
  some (record { type = number; level = level; format = format; file = path })

unfoldable pub read_appenders : Yaml → List Node → Option (List LogAppenderDefine)
unfolding read_appender
read_appenders y [] = some []
read_appenders y (n ∷ ns) = do d ← read_appender y n; ds ← read_appenders y ns; some (d ∷ ds)

abbrev pub appender_nodes : Yaml → Option Node → List Node
appender_nodes y none = []
appender_nodes y (some node) = elements y node

-- The cast once the name is known to be there; the message on std::cout is left out.
unfoldable pub read_named : Yaml → Node → Option Node → Option LogDefine
unfolding read_level read_appenders string_or elements
read_named y node none = some nameless
read_named y node (some name) = do
  name ← y.as_string name
  level ← read_level y node
  format ← string_or y node (codes "format") []
  found ← y.subscript node (codes "appenders")
  appenders ← read_appenders y (appender_nodes y found)
  some (record { name = name; level = level; format = format; appenders = appenders })

-- LexicalCast<std::string, LogDefine>
unfoldable pub read_define : Yaml → Text → Option LogDefine
unfolding read_named
read_define y text = do
  node ← y.load text
  name ← y.subscript node (codes "name")
  read_named y node name

-- `if (level != LogLevel::UNKONWN) node["level"] = ToString(level)`
unfoldable pub put_level : Level → Entries → Entries
unfolding put_entry to_string
put_level level es =
    if not (level == unkonwn) then put_entry (codes "level") (scalar (to_string level)) es else es

-- `if (!format.empty()) node["format"] = format`
unfoldable pub put_format : Text → Entries → Entries
unfolding put_entry
put_format format es =
    if not (is_empty format) then put_entry (codes "format") (scalar format) es else es

-- node_appender; with no type it is never assigned, and stays null.
unfoldable pub write_appender : LogAppenderDefine → Node
unfolding put_entry
write_appender d =
    if d.type == 1
    then mapping (
        put_entry (codes "file") (scalar d.file)
          (put_entry (codes "type") (scalar (codes "FileLogAppender")) end))
    else if d.type == 2
    then mapping (put_entry (codes "type") (scalar (codes "StdoutLogAppender")) end)
    else null

-- The loop over data.appenders; an appender's level goes to the logger's own node.
unfoldable pub write_appenders : List LogAppenderDefine → Entries → Entries
unfolding put_level push_entry write_appender
write_appenders [] es = es
write_appenders (d ∷ ds) es =
    write_appenders ds (push_entry (codes "appenders") (write_appender d) (put_level d.level es))

unfoldable pub define_node : LogDefine → Node
unfolding write_appenders put_level put_format
define_node d = mapping (
    write_appenders d.appenders
      (put_format d.format (put_level d.level (put_entry (codes "name") (scalar d.name) end))))

-- LexicalCast<LogDefine, std::string>
unfoldable pub write_define : Yaml → LogDefine → Text
unfolding define_node
write_define y d = y.dump (define_node d)
