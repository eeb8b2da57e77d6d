-- ===== src/Log/File.antt =====
-- The file stream of FileLogAppender (components/log.cpp): its constructor, the write in log, reopen
-- and the destructor, on the one file that m_filename names. Whether the system can open the file,
-- and whether it takes a line, is given with each call.
use web_framework.Base.{
  ◌≡◌, refl, sym, ap, ◌∙◌, Bool, true, false, not, ◌&&◌, List, [], ◌∷◌, ◌++◌, Text, if◌then◌else◌,
  Bool-cases, inl, inr, append_assoc, append-nil, arith, ◌||◌,
}

-- A std::ofstream: whether it has a file open, whether it is in a failed state, and what is in the
-- file.
pub record FileStream : Type 0 where
  pub opened : Bool
  pub failed : Bool
  pub contents : Text

-- open, with std::ios_base::app or without, which empties the file. A stream that has a file open
-- fails; one that opens its file is no longer failed.
unfoldable pub open_stream : Bool → Bool → FileStream → FileStream
open_stream app opens f =
    if f.opened || not opens
    then record f { failed = true }
    else record { opened = true; failed = false; contents = if app then f.contents else [] }

-- close
unfoldable pub close_stream : FileStream → FileStream
close_stream f = if f.opened then record f { opened = false } else record f { failed = true }

-- FileLogAppender::FileLogAppender, on a file with these contents.
unfoldable pub new_file_appender : Bool → Text → FileStream
unfolding open_stream
new_file_appender opens contents =
    open_stream true opens (record { opened = false; failed = false; contents = contents })

-- `m_filestream << line`; a failed stream writes nothing.
unfoldable pub write_line : Bool → Text → FileStream → FileStream
write_line takes line f =
    if f.failed
    then f
    else if f.opened && takes
    then record f { contents = f.contents ++ line }
    else record f { failed = true }

-- FileLogAppender::reopen
unfoldable pub reopen : Bool → FileStream → FileStream × Bool
unfolding open_stream close_stream
reopen opens f =
    let f' = if not f.failed then close_stream f else f in
    let g = open_stream false opens f' in (g, not g.failed)

-- FileLogAppender::~FileLogAppender
unfoldable pub destroy_file_appender : FileStream → FileStream
unfolding close_stream
destroy_file_appender f = if f.opened then close_stream f else f

abbrev pub write_lines : List Text → FileStream → FileStream
write_lines [] f = f
write_lines (line ∷ lines) f = write_lines lines (write_line true line f)

abbrev pub joined : List Text → Text
joined [] = []
joined (line ∷ lines) = line ++ joined lines

write_lines-opened :
    (lines : List Text) (contents : Text)
    → (write_lines lines (record { opened = true; failed = false; contents = contents })).contents
      ≡ contents ++ joined lines
unfolding write_line
write_lines-opened [] contents = sym (append-nil contents)
write_lines-opened (line ∷ lines) contents =
    write_lines-opened lines (contents ++ line) ∙ append_assoc contents line (joined lines)

write_lines-failed :
    (lines : List Text) (opened : Bool) (contents : Text)
    → write_lines lines (record { opened = opened; failed = true; contents = contents })
      ≡ record { opened = opened; failed = true; contents = contents }
unfolding write_line
write_lines-failed [] opened contents = refl
write_lines-failed (line ∷ lines) opened contents = write_lines-failed lines opened contents

module _ (contents : Text) where
  -- A file newly opened by reopen.
  abbrev emptied : FileStream
  emptied = record { opened = true; failed = false; contents = [] }

  reopen_opens :
      (opens opened failed : Bool)
      → (opens && not (opened && failed)) ≡ true
      → reopen opens (record { opened = opened; failed = failed; contents = contents })
        ≡ (emptied, true)
  unfolding reopen open_stream close_stream
  reopen_opens true true false h = refl
  reopen_opens true false true h = refl
  reopen_opens true false false h = refl
  reopen_opens _ _ _ h = cc

  reopen_fails :
      (opens opened failed : Bool)
      → (opens && not (opened && failed)) ≡ false
      → (reopen opens (record { opened = opened; failed = failed; contents = contents })).1 ≡ false
  unfolding reopen open_stream close_stream
  reopen_fails true true true h = refl
  reopen_fails false _ _ h = ground arith
  reopen_fails _ _ _ h = cc

-- reopen succeeds exactly if the system opens the file, unless the stream failed while its file was
-- open. When it succeeds all that was logged before is lost: the file then holds what is logged
-- after. A stream that failed with its file open stays as it is, and nothing is ever logged to it
-- again.
pub reopen_lem :
    (opens : Bool) (f : FileStream) (lines : List Text)
    → let (g, answer) = reopen opens f in
      (answer ≡ (opens && not (f.opened && f.failed)))
      × (answer ≡ true → (write_lines lines g).contents ≡ joined lines)
      × (f.opened ≡ true → f.failed ≡ true → write_lines lines g ≡ f)
unfolding reopen open_stream close_stream
reopen_lem opens f lines = (answer, all_lost, stuck f.opened f.failed)
  where
    answer : (reopen opens f).1 ≡ (opens && not (f.opened && f.failed))
    answer = elim (Bool-cases (opens && not (f.opened && f.failed))) [
      | inl good ↦ ap (λ r. r.1) (reopen_opens f.contents opens f.opened f.failed good) ∙ sym good
      | inr bad ↦ reopen_fails f.contents opens f.opened f.failed bad ∙ sym bad
    ]

    all_lost :
        (reopen opens f).1 ≡ true → (write_lines lines (reopen opens f).0).contents ≡ joined lines
    all_lost h =
        ap (λ r. (write_lines lines r.0).contents)
          (reopen_opens f.contents opens f.opened f.failed (sym answer ∙ h))
        ∙ write_lines-opened lines []

    stuck :
        (opened failed : Bool)
        → opened ≡ true
        → failed ≡ true
        → let g : FileStream = record { opened = opened; failed = failed; contents = f.contents } in
          write_lines lines (reopen opens g).0 ≡ g
    stuck true true e e' = write_lines-failed lines true f.contents
    stuck false _ e e' = cc
    stuck _ false e e' = cc
