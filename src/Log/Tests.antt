-- ===== src/Log/Tests.antt =====
-- Runs of the logging model, and its theorems at concrete inputs.
use web_framework.Base.{
  ◌≡◌, refl, sym, ◌∙◌, subst, true, not, ◌&&◌, List, [], ◌∷◌, map, any, codes, some, is_alpha,
}
use web_framework.Log.File.{
  FileStream, new_file_appender, write_line, write_lines, joined, reopen, reopen_lem,
}
use web_framework.Log.Level.{info}
use web_framework.Log.Formatter.{
  LogFormatter, Piece, literal, spec, init, item_of, format, find_item, is_name_char,
}
use web_framework.Log.Formatter.RoundTrip.{
  pattern_text, IsPattern, is_unknown, init-pattern_text, init_total,
}
use web_framework.Log.World.{World, Logger, ok, null_pointer, environment}
use web_framework.Log.Logger.{log, chain, clear_appender}
use web_framework.Log.Logger.Operations.{sets_pattern, perform, perform-Succeeds}
use web_framework.Log.Logger.Preserve.{Succeeds, clear_appender-Succeeds}
use web_framework.Log.Logger.Valid.{IsValid}
use web_framework.Log.Logger.Deliveries.{lines, wrote, log-lines, log-null_pointer}
use web_framework.Log.Samples.{
  dates, event, line_formatter, env, root_logger, net_logger, demo, demo-IsValid,
}

-- "[%p]%T%d{%H:%M}%q" with an unknown name at its end.
abbrev demo_pieces : List Piece
demo_pieces =
    literal (codes "[")
    ∷ spec (codes "p") []
    ∷ literal (codes "]")
    ∷ spec (codes "T") []
    ∷ spec (codes "d") (codes "%H:%M")
    ∷ spec (codes "q") []
    ∷ []

demo_text : pattern_text demo_pieces ≡ codes "[%p]%T%d{%H:%M}%q"
demo_text = refl

demo_pieces-IsPattern : IsPattern demo_pieces
unfolding is_alpha is_name_char
demo_pieces-IsPattern = (
  (λ e. cc),
  refl,
  tt,
  (
    (λ e. cc),
    refl,
    refl,
    (λ _. refl),
    (
      (λ e. cc),
      refl,
      tt,
      (
        (λ e. cc),
        refl,
        refl,
        (λ _. refl),
        ((λ e. cc), refl, refl, (λ e. cc), ((λ e. cc), refl, refl, (λ _. tt), tt)),
      ),
    ),
  ),
)

init-pattern_text_example :
    init (pattern_text demo_pieces)
    ≡ some (record {
      items = map (λ p. (item_of p).0) demo_pieces;
      pattern = pattern_text demo_pieces;
      is_error = any is_unknown demo_pieces;
    })
init-pattern_text_example = init-pattern_text demo_pieces demo_pieces-IsPattern

init_total_example :
    (formatter : LogFormatter) × (init (codes "%d{%H") ≡ some formatter)
    × (formatter.pattern ≡ codes "%d{%H")
init_total_example = init_total (codes "%d{%H")

init_line : init (codes "%p %m%n") ≡ some line_formatter
unfolding init find_item
init_line = refl

format_line : format env line_formatter info event ≡ codes "INFO hello\n"
unfolding format
format_line = refl

log-lines_example :
    log chain dates demo 1 info event
    ≡ ok (wrote demo (lines (environment dates demo) demo.appenders (0 ∷ []) info event))
log-lines_example =
    log-lines dates demo 1 net_logger root_logger info event demo-IsValid refl refl refl

perform-Succeeds_example : Succeeds (perform demo (sets_pattern 1 (codes "%m%n")))
perform-Succeeds_example =
    perform-Succeeds {w = demo} (sets_pattern 1 (codes "%m%n")) demo-IsValid (net_logger, refl)

-- The same loggers once clearAppender was called on the root logger.
abbrev silent_root : Logger
silent_root = record root_logger { appenders = [] }

abbrev silent : World
silent = record demo { loggers = silent_root ∷ net_logger ∷ [] }

demo_cleared : clear_appender demo 0 ≡ ok silent
unfolding clear_appender
demo_cleared = refl

silent-IsValid : IsValid silent
silent-IsValid =
    let (w, returns, valid) = clear_appender-Succeeds demo-IsValid 0 {l = root_logger} refl in
    let same : w ≡ silent = cc (sym returns ∙ demo_cleared) in subst IsValid same valid

log-null_pointer_example : log chain dates silent 1 info event ≡ null_pointer
log-null_pointer_example =
    log-null_pointer dates silent 1 net_logger silent_root info event silent-IsValid refl refl refl
      refl refl refl

-- The file of an appender that logged one line.
abbrev logged : FileStream
logged = write_line true (codes "one") (new_file_appender true [])

reopen_lem_example :
    let (g, answer) = reopen true logged in
    (answer ≡ (true && not (logged.opened && logged.failed)))
    × (answer ≡ true → (write_lines (codes "two" ∷ []) g).contents ≡ joined (codes "two" ∷ []))
    × (logged.opened ≡ true → logged.failed ≡ true → write_lines (codes "two" ∷ []) g ≡ logged)
reopen_lem_example = reopen_lem true logged (codes "two" ∷ [])
