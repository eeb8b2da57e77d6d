-- ===== src/Log/Yaml.antt =====
-- toYamlString of the loggers, the appenders and the manager (components/log.h, components/log.cpp).
-- `none` is an exception of yaml-cpp, or a null pointer.
pub mod Saved
pub mod Manager
use web_framework.Base.{
  ℕ, Bool, true, false, List, [], ◌∷◌, Text, codes, Option, none, some, get_elem?, if◌then◌else◌,
  ◌>>=◌,
}
use web_framework.Log.Level.{to_string}
use web_framework.Log.Formatter.{LogFormatter}
use web_framework.Log.World.{Sink, stdout, file, LogAppender, Logger, World}
use web_framework.Log.Define.Cast.{put_level}
use web_framework.Config.Member.{Node, null, scalar, sequence, mapping, Items, nil, Entries, end}
use web_framework.Config.Yaml.{Yaml, put_entry, push_item, push_entry}

-- The pattern of a formatter, if there is one and it is the object's own.
abbrev pub own_pattern : Bool → Option LogFormatter → Option Text
own_pattern true (some f) = some f.pattern
own_pattern _ _ = none

-- `node["format"] = m_formatter->getPattern()`
abbrev pub put_pattern : Option Text → Entries → Entries
put_pattern none es = es
put_pattern (some pattern) es = put_entry (codes "format") (scalar pattern) es

abbrev pub type_name : Sink → Text
type_name stdout = codes "StdoutLogAppender"
type_name (file name) = codes "FileLogAppender"

abbrev pub put_path : Sink → Entries → Entries
put_path stdout es = es
put_path (file name) es = put_entry (codes "path") (scalar name) es

-- The node of StdoutLogAppender::toYamlString and of FileLogAppender::toYamlString.
unfoldable pub appender_node : LogAppender → Node
unfolding put_level put_entry
appender_node p = mapping (
    put_path p.sink (
      put_pattern (own_pattern p.has_formatter p.formatter)
        (put_level p.level (put_entry (codes "type") (scalar (type_name p.sink)) end))))

unfoldable pub appender_yaml : Yaml → LogAppender → Text
unfolding appender_node
appender_yaml y p = y.dump (appender_node p)

-- The entries of Logger::toYamlString before its loop.
unfoldable pub logger_entries : Logger → Entries
unfolding put_entry to_string
logger_entries l = put_pattern (own_pattern true l.formatter) (
    put_entry (codes "level") (scalar (to_string l.level))
      (put_entry (codes "name") (scalar l.name) end))

-- The loop of Logger::toYamlString over m_appenders.
unfoldable pub push_appenders : Yaml → World → List ℕ → Entries → Option Entries
unfolding appender_yaml push_entry
push_appenders y w [] es = some es
push_appenders y w (a ∷ rest) es = do
  p ← get_elem? w.appenders a
  n ← y.load (appender_yaml y p)
  push_appenders y w rest (push_entry (codes "appenders") n es)

-- Logger::toYamlString
unfoldable pub logger_yaml : Yaml → World → Logger → Option Text
unfolding push_appenders logger_entries
logger_yaml y w l = do
  es ← push_appenders y w l.appenders (logger_entries l)
  some (y.dump (mapping es))

-- The loop of LoggerManager::toYamlString over m_loggers.
unfoldable pub push_loggers : Yaml → World → List (Text × ℕ) → Items → Option Items
unfolding logger_yaml push_item
push_loggers y w [] xs = some xs
push_loggers y w ((name, i) ∷ rest) xs = do
  l ← get_elem? w.loggers i
  text ← logger_yaml y w l
  n ← y.load text
  push_loggers y w rest (push_item xs n)

abbrev pub sequence_or_null : Items → Node
sequence_or_null nil = null
sequence_or_null xs = sequence xs

-- LoggerManager::toYamlString
unfoldable pub manager_yaml : Yaml → World → Option Text
unfolding push_loggers
manager_yaml y w = do xs ← push_loggers y w w.named nil; some (y.dump (sequence_or_null xs))
