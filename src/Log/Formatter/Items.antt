-- ===== src/Log/Formatter/Items.antt =====
-- LogEvent, the subclasses of LogFormatter::FormatItem, and the table from names to items
-- (components/log.h, components/log.cpp).
use web_framework.Base.{
  ℕ, [], ◌∷◌, Text, codes, text_eq, Option, none, some, if◌then◌else◌, is_empty,
}
use web_framework.Log.Level.{Level, to_string}
use web_framework.Log.Stream.{ℤ, Stream, put_text, put_endl, set_width, decimal, signed_decimal}

-- LogEvent; the logger is held by its index among the program's loggers, and `content` is what
-- was written to m_sstream.
pub record LogEvent : Type 0 where
  pub file : Text
  pub line : ℤ
  pub thread_id : ℕ
  pub thread_name : Text
  pub elapse : ℕ
  pub fiber_id : ℕ
  pub time : ℕ
  pub content : Text
  pub logger : ℕ
  pub level : Level

-- What an item asks of the rest of the program: the name of an event's logger; and of the C
-- library: the text that localtime_r and strftime make of a format and a time.
pub record Environment : Type 0 where
  pub name_of : ℕ → Text
  pub date_text : Text → ℕ → Text

pub data FormatItem : Type 0 where
  message_item level_item elapse_item name_item thread_id_item fiber_item : FormatItem
  thread_name_item filename_item line_item new_line_item tab_item : FormatItem
  date_time_item string_item : Text → FormatItem

abbrev pub default_date : Text
default_date = codes "%Y-%m-%d %H:%M:%S"

-- The constructor of DateTimeFormatItem.
unfoldable pub date_time_of : Text → FormatItem
date_time_of format = date_time_item (if is_empty format then default_date else format)

-- FormatItem::format of each subclass. The logger printed is the event's own.
unfoldable pub format_item : Environment → FormatItem → Stream → Level → LogEvent → Stream
unfolding put_text put_endl set_width decimal signed_decimal to_string
format_item env message_item os level event = put_text os event.content
format_item env level_item os level event = put_text os (to_string level)
format_item env elapse_item os level event = put_text os (decimal event.elapse)
format_item env name_item os level event = put_text os (env.name_of event.logger)
format_item env thread_id_item os level event = put_text os (decimal event.thread_id)
format_item env fiber_item os level event = put_text os (decimal event.fiber_id)
format_item env thread_name_item os level event = put_text os event.thread_name
format_item env (date_time_item format) os level event =
    put_text os (env.date_text format event.time)
format_item env filename_item os level event = put_text os event.file
format_item env line_item os level event = put_text os (signed_decimal event.line)
format_item env new_line_item os level event = put_endl os
format_item env (string_item text) os level event = put_text os text
format_item env tab_item os level event = set_width (put_text os (b'\t' ∷ [])) 5

-- The map `formatItems`: the item that a name and the text in braces stand for.
unfoldable pub find_item : Text → Text → Option FormatItem
unfolding date_time_of text_eq
find_item name fmt =
    if text_eq name (codes "m")
    then some message_item
    else if text_eq name (codes "p")
    then some level_item
    else if text_eq name (codes "r")
    then some elapse_item
    else if text_eq name (codes "c")
    then some name_item
    else if text_eq name (codes "t")
    then some thread_id_item
    else if text_eq name (codes "n")
    then some new_line_item
    else if text_eq name (codes "d")
    then some (date_time_of fmt)
    else if text_eq name (codes "f")
    then some filename_item
    else if text_eq name (codes "l")
    then some line_item
    else if text_eq name (codes "T")
    then some tab_item
    else if text_eq name (codes "F")
    then some fiber_item
    else if text_eq name (codes "N")
    then some thread_name_item
    else none
