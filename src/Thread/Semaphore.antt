-- ===== src/Thread/Semaphore.antt =====
-- Semaphore (components/thread.h, components/thread.cpp), where it stands on sem_t. The results of
-- sem_init, sem_wait and sem_post are the platform's: 0, or an error such as EINTR, for which the
-- member function throws std::logic_error.
use web_framework.Base.{
  ℕ, suc, ◌+◌, ◌-◌, ◌≡◌, Bool, true, false, List, [], ◌∷◌, Option, none, some, if◌then◌else◌, ◌==◌,
  arith, ◌>>=◌, >>=-eq-some, leb, Bool-cases, inl, inr,
}
use mathlib.Core.Option.{some-injective}

pub data PlatformCall : Type 0 where
  sem_init sem_wait sem_post : ℕ → PlatformCall
  sem_destroy : PlatformCall

-- The calls made on m_semaphore, the last at the head, each with its result.
pub record Semaphore : Type 0 where
  pub calls : List PlatformCall

abbrev issue : PlatformCall → Semaphore → Semaphore
issue c s = record { calls = c ∷ s.calls }

-- Each is false where it throws.
unfoldable pub new_semaphore : ℕ → Semaphore × Bool
new_semaphore ret = (record { calls = sem_init ret ∷ [] }, ret == 0)

unfoldable pub wait : ℕ → Semaphore → Semaphore × Bool
wait ret s = (issue (sem_wait ret) s, ret == 0)

unfoldable pub notify : ℕ → Semaphore → Semaphore × Bool
notify ret s = (issue (sem_post ret) s, ret == 0)

unfoldable pub destroy_semaphore : Semaphore → Semaphore
destroy_semaphore s = issue sem_destroy s

-- What POSIX says of the value after the calls, from `count` at the start: only a call that succeeds
-- changes it, and sem_wait succeeds only where the value is positive.
abbrev pub value : ℕ → List PlatformCall → Option ℕ
value count [] = none
value count (sem_init ret ∷ calls) = if ret == 0 then some count else none
value count (sem_wait ret ∷ calls) =
    value count calls >>= λ n. if ret == 0 then (if leb 1 n then some (n - 1) else none) else some n
value count (sem_post ret ∷ calls) = value count calls >>= λ n. some (if ret == 0 then suc n else n)
value count (sem_destroy ∷ calls) = none

-- A call of wait or notify with the platform's result.
pub data Use : Type 0 where
  waits notifies : ℕ → Use

abbrev of_ended : Bool → ℕ
of_ended true = 1
of_ended false = 0

-- The semaphore after the calls, with the numbers of those of wait and of notify that returned.
unfoldable pub used : List Use → Semaphore → Semaphore × ℕ × ℕ
unfolding wait notify
used [] s = (s, 0, 0)
used (waits ret ∷ us) s =
    let (t, w, n) = used us s in let (u, ended) = wait ret t in (u, w + of_ended ended, n)
used (notifies ret ∷ us) s =
    let (t, w, n) = used us s in let (u, ended) = notify ret t in (u, w, n + of_ended ended)

-- However often and in whatever order threads call wait and notify, at most as many calls of wait
-- return as the count at the start and the calls of notify that returned; a call that throws changes
-- nothing.
pub value-used :
    (count : ℕ) (us : List Use) (v : ℕ)
    → let (s, waited, notified) = used us (new_semaphore 0).0 in
      value count s.calls ≡ some v → waited + v ≡ count + notified
unfolding used new_semaphore wait notify
value-used count [] v e = omega (arith, some-injective count v e)
value-used count (waits ret ∷ us) v e =
    let before = (used us (new_semaphore 0).0).0.calls in
    let after_wait : ℕ → Option ℕ =
      λ n. if ret == 0 then (if leb 1 n then some (n - 1) else none) else some n in
    let (n, at, taken) = >>=-eq-some (value count before) after_wait e in
    let earlier = value-used count us n at in
    elim (Bool-cases (ret == 0)) [
      | inr failed ↦ rw failed (ground (arith, earlier))
      | inl ended ↦ rw ended (ground (arith, earlier))
    ]
value-used count (notifies ret ∷ us) v e =
    let before = (used us (new_semaphore 0).0).0.calls in
    let after_post : ℕ → Option ℕ = λ n. some (if ret == 0 then suc n else n) in
    let (n, at, given) = >>=-eq-some (value count before) after_post e in
    let earlier = value-used count us n at in
    elim (Bool-cases (ret == 0)) [
      | inr failed ↦ rw failed (ground (arith, earlier))
      | inl ended ↦ rw ended (ground (arith, earlier))
    ]
