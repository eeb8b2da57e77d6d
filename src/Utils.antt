-- ===== src/Utils.antt =====
-- GetThreadId, GetFiberId, Backtrace and BacktraceToString (components/utils.h,
-- components/utils.cpp). What the system gives is a parameter: the result of gettid, and the texts of
-- backtrace_symbols for the frames of backtrace.
mod Tests
use web_framework.Base.{
  ℕ, zero, suc, ◌+◌, ◌-◌, ◌*◌, ◌%◌, ◌^◌, ◌<◌, ◌≤◌, ◌≡◌, refl, ap, ◌∙◌, Bool, true, false, List, [],
  ◌∷◌, ◌++◌, Text, Option, none, some, length, get_elem?, get_elem?-none, if◌then◌else◌, ltb, arith,
  append-nil, append_assoc, Option-cases, inl, inr, sym,
}
use mathlib.Core.Option.{some-injective}
use web_framework.Log.Stream.{ℤ, pos, negsuc}

-- long to uint64_t
abbrev pub to_uint64 : ℤ → ℕ
to_uint64 (pos n) = n % 2 ^ 64
to_uint64 (negsuc n) = 2 ^ 64 - 1 - n % 2 ^ 64

-- uint64_t to pid_t, an int of 32 bits, and so to what an int argument is as a size_t.
abbrev pub to_pid : ℕ → ℤ
to_pid n = let r = n % 2 ^ 32 in if ltb r (2 ^ 31) then pos r else negsuc (2 ^ 32 - 1 - r)

-- GetThreadId, where `ret` is the result of syscall(SYS_gettid).
unfoldable pub get_thread_id : ℤ → ℤ
get_thread_id ret = to_pid (to_uint64 ret)

-- GetFiberId, where `id` is the result of Fiber::GetFiberId.
unfoldable pub get_fiber_id : ℕ → ℕ
get_fiber_id id = id % 2 ^ 32

-- A value of pid_t.
abbrev pub IsPid : ℤ → Type 0
IsPid (pos n) = n < 2 ^ 31
IsPid (negsuc n) = n < 2 ^ 31

get_thread_id-pos : (n : ℕ) → n < 2 ^ 31 → get_thread_id (pos n) ≡ pos n
unfolding get_thread_id
get_thread_id-pos n h =
    let e : n % 2 ^ 64 ≡ n = omega arith in
    let e' : n % 2 ^ 32 ≡ n = omega arith in rw e (rw e' (ground arith))

get_thread_id-negsuc : (n : ℕ) → n < 2 ^ 31 → get_thread_id (negsuc n) ≡ negsuc n
unfolding get_thread_id
get_thread_id-negsuc n h =
    let e : (2 ^ 64 - 1 - n % 2 ^ 64) % 2 ^ 32 ≡ 2 ^ 32 - 1 - n = omega arith in rw e (ground arith)

-- Every result of gettid that is a value of pid_t is given as it is, -1 included; and two fibers
-- with ids below 2 ^ 32 for which GetFiberId gives one id are the same.
pub thread_ids :
    (ret : ℤ) (a b : ℕ)
    → IsPid ret
    → (get_thread_id ret ≡ ret)
      × (a < 2 ^ 32 → b < 2 ^ 32 → get_fiber_id a ≡ get_fiber_id b → a ≡ b)
unfolding get_fiber_id
thread_ids (pos n) a b h = (get_thread_id-pos n h, λ la lb e. omega arith)
thread_ids (negsuc n) a b h = (get_thread_id-negsuc n h, λ la lb e. omega arith)

-- The loop of Backtrace from index i; it has at most as many rounds as there are texts.
unfoldable pub push_from : ℕ → ℕ → List Text → List Text → List Text
push_from zero i strings bt = bt
push_from (suc f) i strings bt = elim (get_elem? strings i) [
  | none ↦ bt
  | some t ↦ push_from f (suc i) strings (bt ++ t ∷ [])
]

-- Backtrace: `strings` is `none` where backtrace_symbols fails; the message on the log is left out.
unfoldable pub backtrace : Option (List Text) → ℤ → List Text → List Text
unfolding push_from
backtrace none skip bt = bt
backtrace (some strings) skip bt = push_from (length strings) (to_uint64 skip) strings bt

-- The loop of BacktraceToString.
abbrev pub text_lines : Text → List Text → Text
text_lines prefix [] = []
text_lines prefix (t ∷ ts) = prefix ++ (t ++ b'\n' ∷ text_lines prefix ts)

unfoldable pub backtrace_to_string : Option (List Text) → ℤ → Text → Text
unfolding backtrace
backtrace_to_string strings skip prefix = text_lines prefix (backtrace strings skip [])

-- The elements from index i on.
abbrev pub from : {A : Type 0} → ℕ → List A → List A
from zero xs = xs
from (suc i) [] = []
from (suc i) (x ∷ xs) = from i xs

from_split :
    {A : Type 0} (i : ℕ) (xs : List A) (x : A)
    → get_elem? xs i ≡ some x
    → from i xs ≡ x ∷ from (suc i) xs
from_split i [] x at = cc
from_split zero (y ∷ xs) x at = ap (λ z. z ∷ xs) (some-injective y x at)
from_split (suc i) (y ∷ xs) x at = from_split i xs x at

from_none : {A : Type 0} (i : ℕ) (xs : List A) → get_elem? xs i ≡ none → from i xs ≡ []
from_none zero [] at = refl
from_none (suc i) [] at = refl
from_none zero (y ∷ xs) at = cc
from_none (suc i) (y ∷ xs) at = from_none i xs at

push_from-from :
    (f i : ℕ) (strings bt : List Text)
    → length strings ≤ f + i
    → push_from f i strings bt ≡ bt ++ from i strings
unfolding push_from
push_from-from zero i strings bt le =
    sym
      (ap (◌++◌ bt) (from_none i strings (get_elem?-none strings i (omega arith))) ∙ append-nil bt)
push_from-from (suc f) i strings bt le = elim (Option-cases (get_elem? strings i)) [
  | inl e ↦ rw (e, push_from) (sym (ap (◌++◌ bt) (from_none i strings e) ∙ append-nil bt))
  | inr (t, e) ↦
      rw (e, push_from)
        (push_from-from f (suc i) strings (bt ++ t ∷ []) (omega arith)
          ∙ append_assoc bt (t ∷ []) (from (suc i) strings)
          ∙ ap (◌++◌ bt) (sym (from_split i strings t e)))
]

-- BacktraceToString gives one line for each text of backtrace_symbols from number `skip` on, in
-- order, each behind the prefix; it gives the empty text where backtrace_symbols fails, and
-- where `skip` is negative or at least the number of texts, which are fewer than 2 ^ 31.
pub backtrace_to_string-from :
    (strings : List Text) (skip : ℤ) (prefix : Text)
    → length strings < 2 ^ 31
    → IsPid skip
    → (backtrace_to_string none skip prefix ≡ [])
      × (backtrace_to_string (some strings) skip prefix
          ≡ (elim skip [ pos n ↦ text_lines prefix (from n strings) | negsuc n ↦ [] ]))
unfolding backtrace_to_string backtrace
backtrace_to_string-from strings (pos n) prefix few h = (
  refl,
  ap (text_lines prefix) (
      push_from-from (length strings) (n % 2 ^ 64) strings [] (omega arith)
      ∙ ap (λ i. from i strings) (omega arith)),
)
backtrace_to_string-from strings (negsuc n) prefix few h = (
  refl,
  ap (text_lines prefix) (
      push_from-from (length strings) (2 ^ 64 - 1 - n % 2 ^ 64) strings [] (omega arith)
      ∙ from_none (2 ^ 64 - 1 - n % 2 ^ 64) strings
          (get_elem?-none strings (2 ^ 64 - 1 - n % 2 ^ 64) (omega arith))),
)
