-- ===== src/Log/Formatter/Tokens.antt =====
-- The loops of LogFormatter::init (components/log.cpp) step by step, and their fuel.
use web_framework.Base.{
  ℕ, zero, suc, ◌<◌, ◌≤◌, ◌≡◌, refl, ap, ◌∙◌, inl, inr, Bool, true, false, not, List, [], ◌∷◌, ◌++◌,
  all, length, append-nil, append_assoc, Text, some, ◌==◌, is_alpha, arith, Bool-cases, ==_iff,
}
use web_framework.Log.Formatter.Pattern.{
  Piece, spec, Scanned, scanned, unterminated, scan_group, scan_name, is_name_char, flush, escape,
  pattern_error, pieces,
}

-- What is left after a scan is no longer than what was scanned.
abbrev pub LeavesWithin : ℕ → Scanned → Type 0
LeavesWithin n (scanned str fmt rest) = length rest ≤ n
LeavesWithin n unterminated = Unit {0}

LeavesWithin-suc : (n : ℕ) (s : Scanned) → LeavesWithin n s → LeavesWithin (suc n) s
LeavesWithin-suc n (scanned str fmt rest) h = omega arith
LeavesWithin-suc n unterminated h = tt

scan_group-LeavesWithin : (str seen cs : Text) → LeavesWithin (length cs) (scan_group str seen cs)
unfolding scan_group
scan_group-LeavesWithin str seen [] = tt
scan_group-LeavesWithin str seen (c ∷ cs) = elim (Bool-cases (c == b'}')) [
  | inl e ↦ rw e (omega arith)
  | inr e ↦ rw e (LeavesWithin-suc (length cs) _ (scan_group-LeavesWithin str (seen ++ c ∷ []) cs))
]

pub scan_name-LeavesWithin : (seen cs : Text) → LeavesWithin (length cs) (scan_name seen cs)
unfolding scan_name
scan_name-LeavesWithin seen [] = omega arith
scan_name-LeavesWithin seen (c ∷ cs) = elim (Bool-cases (is_name_char c)) [
  | inr e ↦ rw e (omega arith)
  | inl e ↦ elim (Bool-cases (c == b'{')) [
    | inl o ↦ rw (e, o) (LeavesWithin-suc (length cs) _ (scan_group-LeavesWithin seen [] cs))
    | inr o ↦
        rw (e, o) (LeavesWithin-suc (length cs) _ (scan_name-LeavesWithin (seen ++ c ∷ []) cs))
  ]
]

-- The outer loop ends with this result, on any fuel above the characters left.
abbrev pub Tokenises : Text → Text → List Piece × Bool → Type 0
Tokenises n_str rest out = (g : ℕ) → length rest < g → pieces g n_str rest ≡ some out

pub Tokenises-nil : (n_str : Text) → Tokenises n_str [] (flush n_str [], false)
unfolding pieces
Tokenises-nil n_str zero h = elim h [ ]
Tokenises-nil n_str (suc g) h = refl

pub Tokenises-char :
    (n_str : Text) (c : ℕ) (cs : Text) (out : List Piece × Bool)
    → (c == b'%') ≡ false
    → Tokenises (n_str ++ c ∷ []) cs out
    → Tokenises n_str (c ∷ cs) out
unfolding pieces
Tokenises-char n_str c cs out e t zero h = elim h [ ]
Tokenises-char n_str c cs out e t (suc g) h = rw e (t g (omega arith))

pub Tokenises-spec :
    (n_str cs str fmt rest : Text) (vec : List Piece) (wrong : Bool)
    → scan_name [] cs ≡ scanned str fmt rest
    → Tokenises [] rest (vec, wrong)
    → Tokenises n_str (b'%' ∷ cs) (flush (escape n_str cs) (spec str fmt ∷ vec), wrong)
unfolding pieces
Tokenises-spec n_str cs str fmt rest vec wrong e t zero h = elim h [ ]
Tokenises-spec n_str cs str fmt rest vec wrong e t (suc g) h =
    let kept = rw e at (scan_name-LeavesWithin [] cs) in rw (e, t g (omega arith))

pub Tokenises-unterminated :
    (n_str cs : Text) (vec : List Piece) (wrong : Bool)
    → scan_name [] cs ≡ unterminated
    → Tokenises (escape n_str cs) cs (vec, wrong)
    → Tokenises n_str (b'%' ∷ cs) (pattern_error ∷ vec, true)
unfolding pieces
Tokenises-unterminated n_str cs vec wrong e t zero h = elim h [ ]
Tokenises-unterminated n_str cs vec wrong e t (suc g) h = rw (e, t g (omega arith))

abbrev Result : Text → Text → Type 0
Result n_str rest = (out : List Piece × Bool) × Tokenises n_str rest out

total_at_percent :
    (n_str cs : Text) (s : Scanned)
    → scan_name [] cs ≡ s
    → ((m rest : Text) → length rest ≤ length cs → Result m rest)
    → Result n_str (b'%' ∷ cs)
total_at_percent n_str cs (scanned str fmt rest) e smaller =
    let kept = rw e at (scan_name-LeavesWithin [] cs) in
    let (out, t) = smaller [] rest kept in (_, Tokenises-spec n_str cs str fmt rest out.0 out.1 e t)
total_at_percent n_str cs unterminated e smaller =
    let (out, t) = smaller (escape n_str cs) cs (omega arith) in
    (_, Tokenises-unterminated n_str cs out.0 out.1 e t)

total_below : (k : ℕ) (n_str rest : Text) → length rest < k → Result n_str rest
total_below zero n_str rest h = elim h [ ]
total_below (suc k) n_str [] h = (_, Tokenises-nil n_str)
total_below (suc k) n_str (c ∷ cs) h = elim (Bool-cases (c == b'%')) [
  | inl e ↦ rw ((==_iff c b'%').0 e) (
      total_at_percent n_str cs (scan_name [] cs) refl
        (λ m rest le. total_below k m rest (omega arith)))
  | inr e ↦
      let (out, t) = total_below k (n_str ++ c ∷ []) cs (omega arith) in
      (out, Tokenises-char n_str c cs out e t)
]

-- The loop ends on every pattern.
pub Tokenises-total : (n_str rest : Text) → (out : List Piece × Bool) × Tokenises n_str rest out
Tokenises-total n_str rest = total_below (suc (length rest)) n_str rest (omega arith)

-- A text is scanned as a name up to a character that no name has, or to a group.
abbrev pub Stops : Text → Type 0
Stops [] = Unit {0}
Stops (c ∷ cs) = is_name_char c ≡ false

is_alpha-is_name_char :
    (c : ℕ) → is_alpha c ≡ true → (is_name_char c ≡ true) × ((c == b'{') ≡ false)
unfolding is_name_char
is_alpha-is_name_char c a = ground arith

pub scan_name-word :
    (seen n rest : Text)
    → all is_alpha n ≡ true
    → Stops rest
    → scan_name seen (n ++ rest) ≡ scanned (seen ++ n) [] rest
unfolding scan_name
scan_name-word seen [] [] a s = rw append-nil
scan_name-word seen [] (c ∷ rest) a s = rw (s, append-nil)
scan_name-word seen (c ∷ n) rest a s =
    let here = is_alpha-is_name_char c (ground arith) in
    rw (here.0, here.1)
      (scan_name-word (seen ++ c ∷ []) n rest (ground arith) s
        ∙ ap (λ t. scanned t [] rest) (append_assoc seen (c ∷ []) n))

pub scan_name-group :
    (seen n rest : Text)
    → all is_alpha n ≡ true
    → scan_name seen (n ++ b'{' ∷ rest) ≡ scan_group (seen ++ n) [] rest
unfolding scan_name
scan_name-group seen [] rest a = rw append-nil
scan_name-group seen (c ∷ n) rest a =
    let here = is_alpha-is_name_char c (ground arith) in
    rw (here.0, here.1)
      (scan_name-group (seen ++ c ∷ []) n rest (ground arith)
        ∙ ap (λ t. scan_group t [] rest) (append_assoc seen (c ∷ []) n))

pub scan_group-closed :
    (str seen f rest : Text)
    → all (λ c. not (c == b'}')) f ≡ true
    → scan_group str seen (f ++ b'}' ∷ rest) ≡ scanned str (seen ++ f) rest
unfolding scan_group
scan_group-closed str seen [] rest a = rw append-nil
scan_group-closed str seen (c ∷ f) rest a =
    ground (arith, scan_group-closed str (seen ++ c ∷ []) f rest, append_assoc seen (c ∷ []) f)

pub Tokenises-literal :
    (n_str t rest : Text) (out : List Piece × Bool)
    → all (λ c. not (c == b'%')) t ≡ true
    → Tokenises (n_str ++ t) rest out
    → Tokenises n_str (t ++ rest) out
Tokenises-literal n_str [] rest out a k = rw append-nil at k
Tokenises-literal n_str (c ∷ t) rest out a k =
    Tokenises-char n_str c (t ++ rest) out (ground arith)
      (Tokenises-literal (n_str ++ c ∷ []) t rest out (ground arith) (rw append_assoc k))
