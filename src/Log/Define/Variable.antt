-- ===== src/Log/Define/Variable.antt =====
-- The configuration variable `logs` (components/log.cpp): g_log_defines with the listener of
-- LogIniter. A fault of the listener is a fault of the program, so that the state is a Result.
use web_framework.Base.{
  ℕ, ◌≡◌, refl, Bool, true, false, ◌&&◌, List, [], ◌∷◌, all, map, Text, codes, Option, some,
  get_elem?, is_empty, text_eq_refl, arith,
}
use web_framework.Log.Formatter.{LogEvent}
use web_framework.Log.World.{Result, ok, ◌>>=◌, Logger, World}
use web_framework.Log.Logger.Valid.{IsValid}
use web_framework.Log.Logger.Preserve.{Succeeds}
use web_framework.Log.Define.{
  LogAppenderDefine, LogDefine, appender_eq, appenders_eq, define_eq, define_lt, on_change,
}
use web_framework.Log.Define.Cast.{read_define}
use web_framework.Log.Define.Succeed.{is_applicable, on_change-Succeeds}
use web_framework.Config.Cast.{set_from_string}
use web_framework.Config.Variable.{
  Callback, ConfigVar, returned, make_var, add_listener, from_string, settle, set_value, receive,
  notify,
}
use web_framework.Config.Yaml.{Yaml}

-- operator== of std::set<LogDefine>
unfoldable pub defines_eq : List LogDefine → List LogDefine → Bool
unfolding define_eq
defines_eq [] [] = true
defines_eq (d ∷ ds) (e ∷ es) = define_eq d e && defines_eq ds es
defines_eq _ _ = false

-- LexicalCast<std::string, std::set<LogDefine>>
unfoldable pub read_defines : Yaml → Text → Option (List LogDefine)
unfolding set_from_string read_define
read_defines y =
    set_from_string y.load y.dump (λ es. map y.dump (y.map_elements es)) define_lt (read_define y)

module _ (y : Yaml) (date_text : Text → ℕ → Text) (event : LogEvent) where
  -- The listener of LogIniter.
  abbrev pub log_listener : Callback (List LogDefine) (Result World)
  log_listener old new s = returned (s >>= λ w. on_change date_text event w old new)

  -- g_log_defines once LogIniter has added its listener; `s_func_id` is the last number given.
  unfoldable pub log_defines : ℕ → ConfigVar (List LogDefine) (Result World)
  unfolding make_var add_listener
  log_defines s_func_id =
      (add_listener s_func_id (make_var (codes "logs") [] (codes "logs config")) log_listener).0

  -- fromString of the variable.
  unfoldable pub configure_logs :
      ConfigVar (List LogDefine) (Result World)
      → Text
      → Result World
      → ConfigVar (List LogDefine) (Result World) × Result World × Bool
  unfolding from_string read_defines defines_eq
  configure_logs v text s = from_string defines_eq (read_defines y) v text s

appender_eq_refl : (d : LogAppenderDefine) → appender_eq d d ≡ true
unfolding appender_eq
appender_eq_refl d = rw (text_eq_refl d.format, text_eq_refl d.file) (ground arith)

appenders_eq_refl : (ds : List LogAppenderDefine) → appenders_eq ds ds ≡ true
unfolding appenders_eq
appenders_eq_refl [] = refl
appenders_eq_refl (d ∷ ds) = rw (appender_eq_refl d, appenders_eq_refl ds) refl

defines_eq_refl : (ds : List LogDefine) → defines_eq ds ds ≡ true
unfolding defines_eq define_eq
defines_eq_refl [] = refl
defines_eq_refl (d ∷ ds) =
    rw
      (
        text_eq_refl d.name,
        text_eq_refl d.format,
        appenders_eq_refl d.appenders,
        defines_eq_refl ds,
      )
      (ground arith)

module _ (y : Yaml) (date_text : Text → ℕ → Text) (event : LogEvent) where
  -- Setting `logs` from a text that reads as another set of definitions, each of them new or changed
  -- and with known appenders, on a valid store whose root logger has an appender: the listener
  -- returns, the variable holds the new set and the store is valid; and setting the same text again
  -- changes neither the variable nor the store.
  pub configure_logs-Succeeds :
      (v : ConfigVar (List LogDefine) (Result World)) (id : ℕ) (w : World) (r : Logger)
      (text : Text) (new : List LogDefine)
      → v.callbacks ≡ (id, log_listener y date_text event) ∷ []
      → read_defines y text ≡ some new
      → defines_eq new v.value ≡ false
      → IsValid w
      → get_elem? w.loggers w.root ≡ some r
      → is_empty r.appenders ≡ false
      → all (is_applicable v.value) new ≡ true
      → let (v', s, answer) = configure_logs y date_text event v text (ok w) in
        (v' ≡ record v { value = new })
        × Succeeds s
        × (configure_logs y date_text event v' text s ≡ (v', s, false))
  unfolding configure_logs from_string receive set_value settle notify
  configure_logs-Succeeds v id w r text new listens reads differs valid top serves h =
      let (u, run, good) = on_change-Succeeds date_text event w r v.value new valid top serves h in
      rw (reads, differs, listens, run) (refl, (u, refl, good), rw (defines_eq_refl new) refl)
