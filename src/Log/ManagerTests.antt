-- ===== src/Log/ManagerTests.antt =====
-- The text of a manager of two loggers, read as the variable `logs`.
use web_framework.Base.{◌≡◌, refl, List, [], ◌∷◌, map, some, ◌>>=◌}
use web_framework.Log.Samples.{console, root_logger, net_logger, demo}
use web_framework.Log.Define.{define_lt}
use web_framework.Log.Define.Variable.{read_defines}
use web_framework.Log.Yaml.{appender_node, logger_entries, manager_yaml}
use web_framework.Log.Yaml.Manager.{Saved, AreSaved, definition_of, read_defines-manager_yaml}
use web_framework.Config.Yaml.{push_entry, push_item}
use web_framework.Config.Yaml.Sample.{sample_yaml, encode, sample_load}

abbrev two_loggers : List Saved
two_loggers = (net_logger, []) ∷ (root_logger, console ∷ []) ∷ []

two_loggers-AreSaved : AreSaved sample_yaml demo demo.named two_loggers
unfolding logger_entries appender_node push_entry encode sample_load
two_loggers-AreSaved = (refl, refl, tt, refl, (refl, refl, (refl, tt), refl, tt))

read_defines-manager_yaml_example :
    (manager_yaml sample_yaml demo >>= read_defines sample_yaml)
    ≡ some (map definition_of two_loggers)
unfolding logger_entries appender_node push_entry push_item encode sample_load define_lt
read_defines-manager_yaml_example =
    read_defines-manager_yaml sample_yaml demo two_loggers two_loggers-AreSaved (refl, (refl, tt))
      refl
