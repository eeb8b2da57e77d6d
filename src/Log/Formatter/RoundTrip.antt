-- ===== src/Log/Formatter/RoundTrip.antt =====
-- LogFormatter::init (components/log.cpp) on the pattern written out from a list of pieces, and on
-- any pattern.
use web_framework.Base.{
  suc, ◌≡◌, ◌≢◌, refl, ◌∙◌, Bool, true, false, not, ◌||◌, List, [], ◌∷◌, ◌++◌, map, all, any,
  length, Text, none, some, ◌==◌, is_alpha, arith,
}
use web_framework.Log.Formatter.Items.{find_item}
use web_framework.Log.Formatter.Pattern.{
  Piece, literal, spec, scanned, scan_name, is_name_char, flush, escape, item_of, LogFormatter,
  init,
}
use web_framework.Log.Formatter.Tokens.{
  Tokenises, Tokenises-nil, Tokenises-spec, Tokenises-literal, Tokenises-total, Stops,
  scan_name-word, scan_name-group, scan_group-closed,
}

-- The pattern text of a piece: literal text as it is, `%name`, or `%name{fmt}`.
abbrev pub group_text : Text → Text → Text
group_text [] rest = rest
group_text (c ∷ f) rest = b'{' ∷ ((c ∷ f) ++ b'}' ∷ rest)

abbrev pub pattern_text : List Piece → Text
pattern_text [] = []
pattern_text (literal t ∷ ps) = t ++ pattern_text ps
pattern_text (spec name fmt ∷ ps) = b'%' ∷ (name ++ group_text fmt (pattern_text ps))

abbrev pub NoLiteral : List Piece → Type 0
NoLiteral (literal t ∷ ps) = ⊥
NoLiteral _ = Unit {0}

-- No literal is empty, holds a percent sign or follows another; names are words; no group holds
-- a closing brace; and a name with no group is not followed by a letter or a brace.
abbrev pub IsPattern : List Piece → Type 0
IsPattern [] = Unit {0}
IsPattern (literal t ∷ ps) =
    (t ≢ []) × (all (λ c. not (c == b'%')) t ≡ true) × NoLiteral ps × IsPattern ps
IsPattern (spec name fmt ∷ ps) =
    (name ≢ [])
    × (all is_alpha name ≡ true)
    × (all (λ c. not (c == b'}')) fmt ≡ true)
    × (fmt ≡ [] → Stops (pattern_text ps))
    × IsPattern ps

-- A piece whose name stands for no item.
abbrev pub is_unknown : Piece → Bool
is_unknown (literal t) = false
is_unknown (spec name fmt) = elim (find_item name fmt) [ none ↦ true | some item ↦ false ]

scan_name_lem :
    (name fmt : Text) (ps : List Piece)
    → all is_alpha name ≡ true
    → all (λ c. not (c == b'}')) fmt ≡ true
    → (fmt ≡ [] → Stops (pattern_text ps))
    → scan_name [] (name ++ group_text fmt (pattern_text ps)) ≡ scanned name fmt (pattern_text ps)
scan_name_lem name [] ps a f s = scan_name-word [] name (pattern_text ps) a (s refl)
scan_name_lem name (c ∷ fmt) ps a f s =
    scan_name-group [] name ((c ∷ fmt) ++ b'}' ∷ pattern_text ps) a
    ∙ scan_group-closed name [] (c ∷ fmt) (pattern_text ps) f

escape_word :
    (n_str name rest : Text)
    → name ≢ []
    → all is_alpha name ≡ true
    → escape n_str (name ++ rest) ≡ n_str
unfolding escape is_alpha
escape_word n_str [] rest ne a = absurd (ne refl)
escape_word n_str (c ∷ name) rest ne a = ground arith

Tokenises-pattern_text :
    (ps : List Piece) (n_str : Text)
    → IsPattern ps
    → (n_str ≢ [] → NoLiteral ps)
    → Tokenises n_str (pattern_text ps) (flush n_str ps, false)
unfolding flush
Tokenises-pattern_text [] n_str w free = Tokenises-nil n_str
Tokenises-pattern_text (literal [] ∷ ps) n_str w free = absurd (w.0 refl)
Tokenises-pattern_text (literal (c ∷ t) ∷ ps) [] (ne, plain, alone, w) free =
    Tokenises-literal [] (c ∷ t) (pattern_text ps) _ plain
      (Tokenises-pattern_text ps (c ∷ t) w (λ _. alone))
Tokenises-pattern_text (literal (c ∷ t) ∷ ps) (d ∷ n_str) w free = absurd (free (λ e. cc))
Tokenises-pattern_text (spec name fmt ∷ ps) n_str (ne, a, f, s, w) free =
    let rest = group_text fmt (pattern_text ps) in
    rw (escape_word n_str name rest ne a) at (
      Tokenises-spec n_str (name ++ rest) name fmt (pattern_text ps) ps false
        (scan_name_lem name fmt ps a f s) (Tokenises-pattern_text ps [] w (λ e. absurd (e refl))))

any-is_unknown : (ps : List Piece) → any (λ p. (item_of p).1) ps ≡ any is_unknown ps
unfolding item_of
any-is_unknown [] = refl
any-is_unknown (literal t ∷ ps) = any-is_unknown ps
any-is_unknown (spec name fmt ∷ ps) = ground (arith, any-is_unknown ps)

-- The formatter that `init` makes of the entries and the flag of its first loop.
abbrev compiled : Text → List Piece × Bool → LogFormatter
compiled pattern out = record {
  items = map (λ p. (item_of p).0) out.0;
  pattern = pattern;
  is_error = out.1 || any (λ p. (item_of p).1) out.0;
}

init-Tokenises :
    (pattern : Text) (out : List Piece × Bool)
    → Tokenises [] pattern out
    → init pattern ≡ some (compiled pattern out)
unfolding init
init-Tokenises pattern out t = rw (t (suc (length pattern)) (omega arith))

-- The pattern written out from well-formed pieces compiles, to exactly their items in order;
-- the error flag is set exactly if some piece's name is unknown.
pub init-pattern_text :
    (ps : List Piece)
    → IsPattern ps
    → init (pattern_text ps)
      ≡ some (record {
        items = map (λ p. (item_of p).0) ps;
        pattern = pattern_text ps;
        is_error = any is_unknown ps;
      })
unfolding flush
init-pattern_text ps w =
    init-Tokenises (pattern_text ps) (ps, false)
      (Tokenises-pattern_text ps [] w (λ e. absurd (e refl)))
    ∙ rw (any-is_unknown ps)

-- Every pattern compiles: the loops end, and the formatter keeps the pattern.
pub init_total :
    (pattern : Text)
    → (formatter : LogFormatter) × (init pattern ≡ some formatter) × (formatter.pattern ≡ pattern)
init_total pattern =
    let (out, t) = Tokenises-total [] pattern in
    (compiled pattern out, init-Tokenises pattern out t, refl)

any-flush :
    (n_str : Text) (ps : List Piece)
    → any (λ p. (item_of p).1) (flush n_str ps) ≡ any (λ p. (item_of p).1) ps
unfolding flush item_of
any-flush [] ps = refl
any-flush (c ∷ n_str) ps = refl

scan_name-percent : (post : Text) → scan_name [] (b'%' ∷ post) ≡ scanned [] [] (b'%' ∷ post)
unfolding scan_name is_name_char
scan_name-percent post = refl

nameless : (ps : List Piece) → any (λ p. (item_of p).1) (spec [] [] ∷ ps) ≡ true
unfolding item_of find_item
nameless ps = refl

or-true : (b : Bool) → (b || true) ≡ true
or-true b = ground arith

-- `%%` is no escape for a percent sign: a pattern whose first percent sign is doubled is always
-- in error.
pub init-double_percent :
    (pre post : Text)
    → all (λ c. not (c == b'%')) pre ≡ true
    → (formatter : LogFormatter) × (init (pre ++ b'%' ∷ b'%' ∷ post) ≡ some formatter)
      × (formatter.is_error ≡ true)
init-double_percent pre post a =
    let (out, t) = Tokenises-total [] (b'%' ∷ post) in
    let whole = Tokenises-literal [] pre (b'%' ∷ b'%' ∷ post) _ a (
      Tokenises-spec pre (b'%' ∷ post) [] [] (b'%' ∷ post) out.0 out.1 (scan_name-percent post)
        t) in
    (
      compiled _ _,
      init-Tokenises _ _ whole,
      rw (any-flush (escape pre (b'%' ∷ post)) (spec [] [] ∷ out.0), nameless out.0)
          (or-true out.1),
    )
