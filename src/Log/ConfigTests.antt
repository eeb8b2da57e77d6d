-- ===== src/Log/ConfigTests.antt =====
-- The theorems on the configuration of the log at concrete inputs.
use web_framework.Base.{◌≡◌, ◌≢◌, refl, false, List, [], ◌∷◌, codes, none, some}
use web_framework.Log.Level.{debug, info, unkonwn}
use web_framework.Log.World.{ok, World}
use web_framework.Log.Logger.Preserve.{Succeeds}
use web_framework.Log.Define.{LogDefine, find, define_eq, on_change}
use web_framework.Log.Define.{LogAppenderDefine}
use web_framework.Log.Define.Apply.{on_change_unchanged}
use web_framework.Log.Define.Succeed.{on_change-Succeeds}
use web_framework.Log.Samples.{dates, event, root_logger, demo, demo-IsValid}
use web_framework.Log.Level.{warn}
use web_framework.Log.World.{Result}
use web_framework.Log.Define.Cast.{read_define, write_define, define_node}
use web_framework.Log.Define.Cast.Written.{read_define-write_define}
use web_framework.Log.Define.Variable.{
  read_defines, defines_eq, log_defines, configure_logs, configure_logs-Succeeds,
}
use web_framework.Config.Member.{Node, scalar, sequence, mapping, item, nil, entry, end}
use web_framework.Config.Variable.{ConfigVar}
use web_framework.Config.Yaml.{find_entry}
use web_framework.Config.Yaml.Sample.{sample_yaml, encode, sample_load}

abbrev system_define : LogDefine
system_define = record { name = codes "system"; level = debug; format = []; appenders = [] }

on_change_unchanged_example :
    on_change dates event demo (system_define ∷ []) (system_define ∷ []) ≢ ok demo
unfolding find define_eq
on_change_unchanged_example =
    on_change_unchanged dates event demo demo (system_define ∷ []) (system_define ∷ []) refl

abbrev to_file : LogAppenderDefine
to_file = record { type = 1; level = info; format = codes "%m%n"; file = codes "system.log" }

-- A definition that changes the system logger, which a run of the listener then applies.
abbrev changed_define : LogDefine
changed_define = record system_define {
  level = info;
  format = codes "%p %m%n";
  appenders = to_file ∷ [];
}

on_change-Succeeds_example :
    Succeeds (on_change dates event demo (system_define ∷ []) (changed_define ∷ []))
unfolding find define_eq
on_change-Succeeds_example =
    on_change-Succeeds dates event demo root_logger (system_define ∷ []) (changed_define ∷ [])
      demo-IsValid refl refl refl

-- Two definitions with no name in common with the old ones.
abbrev plain_define : LogDefine
plain_define = record {
  name = codes "db";
  level = warn;
  format = codes "%m%n";
  appenders = record { type = 2; level = debug; format = codes "%p"; file = [] } ∷ [];
}

read_define-write_define_example :
    read_define sample_yaml (write_define sample_yaml plain_define)
    ≡ some (record plain_define {
      level = debug;
      appenders = record { type = 2; level = unkonwn; format = []; file = [] } ∷ [];
    })
unfolding define_node encode sample_load
read_define-write_define_example = read_define-write_define sample_yaml plain_define refl

file_lost : read_define sample_yaml (write_define sample_yaml changed_define) ≡ none
unfolding read_define write_define encode sample_load find_entry
file_lost = refl

-- logs: [ { name: db, level: WARN, appenders: [ { type: StdoutLogAppender } ] } ]
abbrev logs_document : Node
logs_document = sequence (
    item
      (mapping (
        entry (codes "name") (scalar (codes "db")) (
          entry (codes "level") (scalar (codes "WARN")) (
            entry (codes "appenders")
              (sequence (
                item (mapping (entry (codes "type") (scalar (codes "StdoutLogAppender")) end)) nil))
              end))))
      nil)

abbrev db_define : LogDefine
db_define = record {
  name = codes "db";
  level = warn;
  format = [];
  appenders = record { type = 2; level = unkonwn; format = []; file = [] } ∷ [];
}

logs_read : read_defines sample_yaml (encode logs_document) ≡ some (db_define ∷ [])
unfolding read_defines encode sample_load find_entry
logs_read = refl

abbrev logs : ConfigVar (List LogDefine) (Result World)
logs = log_defines sample_yaml dates event 0

configure_logs-Succeeds_example :
    let (v', s, answer) =
      configure_logs sample_yaml dates event logs (encode logs_document) (ok demo) in
    (v' ≡ record logs { value = db_define ∷ [] })
    × Succeeds s
    × (configure_logs sample_yaml dates event v' (encode logs_document) s ≡ (v', s, false))
unfolding log_defines find define_eq defines_eq
configure_logs-Succeeds_example =
    configure_logs-Succeeds sample_yaml dates event logs 1 demo root_logger (encode logs_document)
      (db_define ∷ []) refl logs_read refl demo-IsValid refl refl refl
