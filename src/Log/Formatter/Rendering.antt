-- ===== src/Log/Formatter/Rendering.antt =====
-- LogFormatter::format (components/log.cpp): the line written, from its items' texts.
use web_framework.Base.{
  ◌-◌, ◌≡◌, refl, sym, ap, ◌∙◌, Bool, true, false, List, [], ◌∷◌, ◌++◌, map, length, append-nil,
  append_assoc, Text, arith, all,
}
use web_framework.Log.Level.{Level}
use web_framework.Log.Stream.{Stream, empty_stream, put_text, put_endl, fill}
use web_framework.Log.Formatter.Items.{
  FormatItem, new_line_item, tab_item, LogEvent, Environment, format_item,
}
use web_framework.Log.Formatter.Pattern.{LogFormatter, format_onto, format}

abbrev pub is_not_tab : FormatItem → Bool
is_not_tab tab_item = false
is_not_tab _ = true

-- An item alone on a fresh stream.
abbrev pub item_text : Environment → Level → LogEvent → FormatItem → Text
item_text env level event item = (format_item env item empty_stream level event).text

abbrev pub concat : List Text → Text
concat [] = []
concat (t ∷ ts) = t ++ concat ts

-- An item that writes formatted text, to which a field width applies.
abbrev pub is_padded : FormatItem → Bool
is_padded tab_item = false
is_padded new_line_item = false
is_padded _ = true

put_text_lem :
    (t x : Text) → put_text (record { text = t; width = 0 }) x ≡ record { text = t ++ x; width = 0 }
unfolding put_text
put_text_lem t x = let none_left : 0 - length x ≡ 0 = omega arith in rw none_left

-- An item that writes formatted text writes it as one field, whatever the width is.
abbrev Puts : Environment → Level → LogEvent → FormatItem → Type 0
Puts env level event item =
    (x : Text) × ((os : Stream) → format_item env item os level event ≡ put_text os x)
    × (item_text env level event item ≡ x)

format_item-Puts :
    (env : Environment) (item : FormatItem) (level : Level) (event : LogEvent)
    → is_padded item ≡ true
    → Puts env level event item
unfolding format_item
format_item-Puts env tab_item level event h = cc
format_item-Puts env new_line_item level event h = cc
format_item-Puts env item level event h = (_, λ os. refl, ap (λ s. s.text) (put_text_lem [] _))

format_item-append :
    (env : Environment) (item : FormatItem) (t : Text) (level : Level) (event : LogEvent)
    → is_not_tab item ≡ true
    → format_item env item (record { text = t; width = 0 }) level event
      ≡ record { text = t ++ item_text env level event item; width = 0 }
unfolding format_item
format_item-append env tab_item t level event h = cc
format_item-append env new_line_item t level event h = unfold put_endl in refl
format_item-append env item t level event h =
    let (x, puts, alone) = format_item-Puts env item level event refl in
    puts (record { text = t; width = 0 })
    ∙ put_text_lem t x
    ∙ ap (λ y. record { text = t ++ y; width = 0 }) (sym alone)

format_onto-append :
    (env : Environment) (items : List FormatItem) (t : Text) (level : Level) (event : LogEvent)
    → all is_not_tab items ≡ true
    → (format_onto env items (record { text = t; width = 0 }) level event).text
      ≡ t ++ concat (map (item_text env level event) items)
unfolding format_onto
format_onto-append env [] t level event h = sym (append-nil t)
format_onto-append env (item ∷ items) t level event h =
    ap (λ os. (format_onto env items os level event).text)
      (format_item-append env item t level event (ground arith))
    ∙ format_onto-append env items (t ++ item_text env level event item) level event (ground arith)
    ∙ append_assoc t _ _

-- With no tab among its items a formatter writes each item as it stands alone, one after another.
pub format-concat :
    (env : Environment) (formatter : LogFormatter) (level : Level) (event : LogEvent)
    → all is_not_tab formatter.items ≡ true
    → format env formatter level event ≡ concat (map (item_text env level event) formatter.items)
unfolding format
format-concat env formatter level event h = format_onto-append env formatter.items [] level event h

-- A tab right-aligns the item behind it in a field of five columns, and leaves longer text whole;
-- the items after that are written as they stand alone.
pub format-tab :
    (env : Environment) (pattern : Text) (wrong : Bool) (item : FormatItem)
    (items : List FormatItem) (level : Level) (event : LogEvent)
    → is_padded item ≡ true
    → all is_not_tab items ≡ true
    → let x = item_text env level event item in
      format env
        (record { items = tab_item ∷ item ∷ items; pattern = pattern; is_error = wrong })
        level
        event
      ≡ b'\t' ∷ (fill (5 - length x) ++ x) ++ concat (map (item_text env level event) items)
unfolding format format_onto put_text
format-tab env pattern wrong item items level event p h =
    let (x, puts, alone) = format_item-Puts env item level event p in
    let x' = item_text env level event item in
    let after_tab : Stream = record { text = b'\t' ∷ []; width = 5 } in
    ap (λ os. (format_onto env items os level event).text)
      (puts after_tab ∙ ap (put_text after_tab) (sym alone))
    ∙ format_onto-append env items (b'\t' ∷ (fill (5 - length x') ++ x')) level event h
