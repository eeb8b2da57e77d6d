-- ===== src/Locking/Settings.antt =====
-- The locks that the calls on variables and on the registry take (components/config.h,
-- components/config.cpp), and those of the scheduler's queue (components/scheduler.h). What decides
-- a branch is an argument: the result of a comparison or of a cast, and what was found. `report` is
-- the message that the branch writes on the log.
pub mod Ordered
pub mod Listener
use web_framework.Base.{
  ℕ, zero, suc, Bool, true, false, List, [], ◌∷◌, Option, none, some, if◌then◌else◌,
}
use web_framework.Thread.Locks.{shared, exclusive}
use web_framework.Thread.Locks.Order.{Code, skip, ◌then◌, within}
use web_framework.Locking.{Lock, registry, variable, scheduler, guarded}

-- What a listener does with locks, and whether it throws.
abbrev pub Listener : Type 0
Listener = Code Lock × Bool

-- The loop over m_callbacks; an exception leaves it.
abbrev pub notify_code : List Listener → Listener
notify_code [] = (skip, false)
notify_code ((c, true) ∷ rest) = (c, true)
notify_code ((c, false) ∷ rest) = let (d, threw) = notify_code rest in (c then d, threw)

-- The write at the end of setValue; a listener that threw has left it.
abbrev pub write_code : ℕ → Bool → Code Lock
write_code v true = skip
write_code v false = within (variable v) exclusive skip

-- ConfigVar::setValue; `equal` is the result of `val == m_val`.
unfoldable pub set_value_code : ℕ → Bool → List Listener → Listener
set_value_code v true listeners = (within (variable v) shared skip, false)
set_value_code v false listeners =
    let (c, threw) = notify_code listeners in
    (within (variable v) shared c then write_code v threw, threw)

-- ConfigVar::addListener and ConfigVar::delListener; clearListener takes no lock.
unfoldable pub add_listener_code : ℕ → Code Lock
add_listener_code v = within (variable v) exclusive skip

unfoldable pub del_listener_code : ℕ → Code Lock
del_listener_code v = within (variable v) exclusive skip

-- ConfigVar::getListener and ConfigVar::getValue
unfoldable pub get_listener_code : ℕ → Code Lock
get_listener_code v = within (variable v) shared skip

unfoldable pub get_value_code : ℕ → Code Lock
get_value_code v = within (variable v) shared skip

-- What the cast of fromString gives: `none` if it throws, else the comparison with the value.
abbrev pub Reading : Type 0
Reading = Option (Bool × List Listener)

abbrev pub report_if : Bool → Code Lock → Code Lock
report_if true report = report
report_if false report = skip

-- ConfigVar::fromString
unfoldable pub from_string_code : Code Lock → ℕ → Reading → Code Lock
unfolding set_value_code
from_string_code report v none = report
from_string_code report v (some (equal, listeners)) =
    let (c, threw) = set_value_code v equal listeners in c then report_if threw report

-- ConfigVar::toString; the lock is released before the exception is caught.
unfoldable pub to_string_code : Code Lock → ℕ → Bool → Code Lock
to_string_code report v fails = within (variable v) shared skip then report_if fails report

-- What Lookup finds: nothing under a name that is valid or not, a variable of the type asked for, or
-- the variable of another type, with whether its cast to text fails. That text is asked for only if
-- the root logger takes the message, which is the first argument.
pub data Found : Type 0 where
  new_name bad_name of_this_type : Found
  of_another_type : Bool → ℕ → Bool → Found

-- Config::Lookup(name, default_value, description)
abbrev pub found_code : Code Lock → Found → Code Lock
found_code report new_name = skip
found_code report bad_name = report
found_code report of_this_type = report
found_code report (of_another_type true v fails) = to_string_code report v fails then report
found_code report (of_another_type false v fails) = report

unfoldable pub lookup_or_create_code : Code Lock → Found → Code Lock
lookup_or_create_code report found = within registry exclusive (found_code report found)

-- Config::LookupBase and Config::Lookup(name)
unfoldable pub lookup_code : Code Lock
lookup_code = within registry shared skip

-- A member that LoadFromYaml comes to: with an empty key, with the name of no variable, or of one.
pub data Member : Type 0 where
  unnamed unknown : Member
  known : ℕ → Reading → Member

unfoldable pub load_member_code : Code Lock → Member → Code Lock
unfolding lookup_code from_string_code
load_member_code report unnamed = skip
load_member_code report unknown = lookup_code
load_member_code report (known v reading) = lookup_code then from_string_code report v reading

abbrev pub all_codes : List (Code Lock) → Code Lock
all_codes [] = skip
all_codes (c ∷ cs) = c then all_codes cs

abbrev pub load_members_code : Code Lock → List Member → Code Lock
load_members_code report [] = skip
load_members_code report (m ∷ ms) = load_member_code report m then load_members_code report ms

-- One message for each invalid name.
abbrev pub reports : ℕ → Code Lock → Code Lock
reports zero report = skip
reports (suc n) report = report then reports n report

-- Config::LoadFromYaml, where ListAllMember meets `bad` invalid names.
unfoldable pub load_code : Code Lock → ℕ → List Member → Code Lock
load_code report bad members = reports bad report then load_members_code report members

-- Config::Visit; `calls` are the callbacks.
unfoldable pub visit_code : List (Code Lock) → Code Lock
visit_code calls = within registry shared (all_codes calls)

-- Scheduler::schedule, and the critical section of Scheduler::run: each may tickle. The assertion on
-- empty tasks in the latter is taken to hold.
unfoldable pub schedule_code : Code Lock → Bool → Code Lock
schedule_code report need_tickle = guarded scheduler skip then report_if need_tickle report

unfoldable pub take_task_code : Code Lock → Bool → Code Lock
take_task_code report tickle_me = guarded scheduler skip then report_if tickle_me report

-- Scheduler::stopping
unfoldable pub stopping_code : Code Lock
stopping_code = guarded scheduler skip
