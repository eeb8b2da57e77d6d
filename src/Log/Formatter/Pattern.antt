-- ===== src/Log/Formatter/Pattern.antt =====
-- LogFormatter::init and LogFormatter::format (components/log.cpp).
use web_framework.Base.{
  ℕ, zero, suc, Bool, true, false, not, ◌||◌, List, [], ◌∷◌, ◌++◌, map, any, length, Text, codes,
  Option, none, some, ◌==◌, if◌then◌else◌, is_alpha, ◌>>=◌,
}
use web_framework.Log.Level.{Level}
use web_framework.Log.Stream.{Stream, empty_stream}
use web_framework.Log.Formatter.Items.{
  FormatItem, string_item, LogEvent, Environment, format_item, find_item,
}

-- An entry of `vec`: literal text (type 0), or the name and the text in braces of `%name{fmt}`
-- (type 1).
pub data Piece : Type 0 where
  literal : Text → Piece
  spec : Text → Text → Piece

-- The end of the inner loop: the name, the text in braces and the text from `n` on; or
-- `fmt_status` is still 1, as the pattern ended inside the braces.
pub data Scanned : Type 0 where
  scanned : Text → Text → Text → Scanned
  unterminated : Scanned

-- The inner loop at `fmt_status == 1`; `seen` is what stands between the brace and `n`.
unfoldable pub scan_group : Text → Text → Text → Scanned
scan_group str seen [] = unterminated
scan_group str seen (c ∷ cs) =
    if c == b'}' then scanned str seen cs else scan_group str (seen ++ c ∷ []) cs

-- The characters at which the loop goes on at `fmt_status == 0`.
unfoldable pub is_name_char : ℕ → Bool
unfolding is_alpha
is_name_char c = is_alpha c || c == b'{' || c == b'}'

-- The inner loop at `fmt_status == 0`; `seen` is m_pattern.substr(i + 1, n - i - 1).
unfoldable pub scan_name : Text → Text → Scanned
unfolding is_name_char scan_group
scan_name seen [] = scanned seen [] []
scan_name seen (c ∷ cs) =
    if not (is_name_char c)
    then scanned seen [] (c ∷ cs)
    else if c == b'{'
    then scan_group seen [] cs
    else scan_name (seen ++ c ∷ []) cs

-- `if (!n_str.empty()) vec.push_back(...)`, in front of what is pushed later.
unfoldable pub flush : Text → List Piece → List Piece
flush [] out = out
flush (c ∷ cs) out = literal (c ∷ cs) ∷ out

-- The test at `%`: is the next character `%` too? Then a `%` goes to n_str.
unfoldable pub escape : Text → Text → Text
escape n_str [] = n_str
escape n_str (c ∷ cs) = if c == b'%' then n_str ++ b'%' ∷ [] else n_str

abbrev pub pattern_error : Piece
pattern_error = literal (codes "<<pattern_error>>")

-- The outer loop from position `i` on: the entries of `vec`, and whether m_error was set. `none`
-- means that the fuel ran out.
unfoldable pub pieces : ℕ → Text → Text → Option (List Piece × Bool)
unfolding scan_name flush escape
pieces zero n_str rest = none
pieces (suc f) n_str [] = some (flush n_str [], false)
pieces (suc f) n_str (c ∷ cs) =
    if not (c == b'%') then pieces f (n_str ++ c ∷ []) cs else elim (scan_name [] cs) [
      | scanned str fmt rest ↦ do
        (vec, wrong) ← pieces f [] rest
        some (flush (escape n_str cs) (spec str fmt ∷ vec), wrong)
      | unterminated ↦ do
        (vec, wrong) ← pieces f (escape n_str cs) cs
        some (pattern_error ∷ vec, true)
    ]

-- The loop over `vec`: the item of an entry, and whether it sets m_error.
unfoldable pub item_of : Piece → FormatItem × Bool
unfolding find_item
item_of (literal str) = (string_item str, false)
item_of (spec name fmt) = elim (find_item name fmt) [
  | none ↦ (string_item (codes "<<error_format %" ++ (name ++ codes ">>")), true)
  | some item ↦ (item, false)
]

pub record LogFormatter : Type 0 where
  pub items : List FormatItem
  pub pattern : Text
  pub is_error : Bool

-- LogFormatter::init, on the pattern that the constructor stored. One round for each character
-- and one for the end are enough fuel.
unfoldable pub init : Text → Option LogFormatter
unfolding pieces item_of
init pattern = do
  (vec, wrong) ← pieces (suc (length pattern)) [] pattern
  some (record {
    items = map (λ p. (item_of p).0) vec;
    pattern = pattern;
    is_error = wrong || any (λ p. (item_of p).1) vec;
  })

unfoldable pub format_onto : Environment → List FormatItem → Stream → Level → LogEvent → Stream
unfolding format_item
format_onto env [] os level event = os
format_onto env (item ∷ items) os level event =
    format_onto env items (format_item env item os level event) level event

-- LogFormatter::format
unfoldable pub format : Environment → LogFormatter → Level → LogEvent → Text
unfolding format_onto
format env formatter level event = (format_onto env formatter.items empty_stream level event).text
