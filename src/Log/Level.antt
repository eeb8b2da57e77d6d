-- ===== src/Log/Level.antt =====
-- LogLevel (components/log.h, components/log.cpp). A level is the int behind the enum: the
-- configuration listener casts 100 to one, and levels are compared as ints.
use web_framework.Base.{ℕ, ◌≡◌, Text, codes, text_eq, arith, ◌==◌, leb, ◌&&◌, if◌then◌else◌}

abbrev pub Level : Type 0
Level = ℕ

abbrev pub unkonwn : Level
unkonwn = 0

abbrev pub debug : Level
debug = 1

abbrev pub info : Level
info = 2

abbrev pub warn : Level
warn = 3

abbrev pub error : Level
error = 4

abbrev pub fatal : Level
fatal = 5

-- LogLevel::ToString
unfoldable pub to_string : Level → Text
to_string level =
    if level == debug
    then codes "DEBUG"
    else if level == info
    then codes "INFO"
    else if level == warn
    then codes "WARN"
    else if level == error
    then codes "ERROR"
    else if level == fatal
    then codes "FATAL"
    else codes "UNKNOWN"

-- LogLevel::FromString
unfoldable pub from_string : Text → Level
unfolding text_eq
from_string str =
    if text_eq (codes "debug") str
    then debug
    else if text_eq (codes "info") str
    then info
    else if text_eq (codes "warn") str
    then warn
    else if text_eq (codes "error") str
    then error
    else if text_eq (codes "fatal") str
    then fatal
    else if text_eq (codes "DEBUG") str
    then debug
    else if text_eq (codes "INFO") str
    then info
    else if text_eq (codes "WARN") str
    then warn
    else if text_eq (codes "ERROR") str
    then error
    else if text_eq (codes "FATAL") str
    then fatal
    else unkonwn

-- A printed level reads back as itself if it is one of the five named levels; every other value,
-- such as the 100 that the configuration listener sets, reads back as UNKONWN.
pub from_string-to_string :
    (level : Level)
    → from_string (to_string level)
      ≡ (if leb debug level && leb level fatal then level else unkonwn)
unfolding from_string to_string
from_string-to_string level = ground arith
