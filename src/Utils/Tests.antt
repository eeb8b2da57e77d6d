-- ===== src/Utils/Tests.antt =====
-- The theorems on thread ids and backtraces at concrete inputs.
use web_framework.Base.{ℕ, ◌≡◌, [], ◌∷◌, none, some, codes, arith}
use web_framework.Log.Stream.{pos}
use web_framework.Utils.{backtrace_to_string, text_lines, from, backtrace_to_string-from}

abbrev seven : ℕ
seven = 7

abbrev eight : ℕ
eight = 8

-- The first frame is left out.
backtrace_to_string-from_example :
    (backtrace_to_string none (pos 1) (codes "  ") ≡ [])
    × (backtrace_to_string (some (codes "f" ∷ codes "g" ∷ codes "main" ∷ [])) (pos 1) (codes "  ")
        ≡ text_lines (codes "  ") (from 1 (codes "f" ∷ codes "g" ∷ codes "main" ∷ [])))
backtrace_to_string-from_example =
    backtrace_to_string-from (codes "f" ∷ codes "g" ∷ codes "main" ∷ []) (pos 1) (codes "  ")
      (omega arith) (omega arith)
