-- ===== src/Thread/ScopedLock.antt =====
-- ScopedLockImpl, ReadScopedLockImpl and WriteScopedLockImpl (components/thread.h). The mutex
-- beneath is the platform's: what is kept here is the sequence of calls made on it.
use web_framework.Base.{
  ◌⊎◌, All, Bool-cases, ◌≡◌, refl, ◌∙◌, ap, inl, inr, Bool, true, false, List, [], ◌∷◌, ◌++◌,
  Option, none, some, if◌then◌else◌, arith, Option-cases, ◌>>=◌,
}

pub data Call : Type 0 where
  lock rdlock wrlock unlock : Call

-- `acquire` is the call by which the guard takes the mutex.
pub record ScopedLock : Type 0 where
  pub acquire : Call
  pub locked : Bool
  pub calls : List Call

abbrev issue : ScopedLock → Call → Bool → ScopedLock
issue g c held = record g { calls = g.calls ++ c ∷ []; locked = held }

-- The constructors.
unfoldable pub scoped_lock : List Call → ScopedLock
scoped_lock calls = record { acquire = lock; locked = true; calls = calls ++ lock ∷ [] }

unfoldable pub read_scoped_lock : List Call → ScopedLock
read_scoped_lock calls = record { acquire = rdlock; locked = true; calls = calls ++ rdlock ∷ [] }

unfoldable pub write_scoped_lock : List Call → ScopedLock
write_scoped_lock calls = record { acquire = wrlock; locked = true; calls = calls ++ wrlock ∷ [] }

-- The member functions lock and unlock.
unfoldable pub lock_guard : ScopedLock → ScopedLock
lock_guard g = if g.locked then g else issue g g.acquire true

unfoldable pub unlock_guard : ScopedLock → ScopedLock
unlock_guard g = if g.locked then issue g unlock false else g

-- The destructors: they unlock whatever m_locked says.
unfoldable pub destroy : ScopedLock → List Call
destroy g = g.calls ++ unlock ∷ []

pub data Use : Type 0 where
  locks unlocks : Use

unfoldable pub use_guard : ScopedLock → List Use → ScopedLock
unfolding lock_guard unlock_guard
use_guard g [] = g
use_guard g (locks ∷ us) = use_guard (lock_guard g) us
use_guard g (unlocks ∷ us) = use_guard (unlock_guard g) us

-- One thread's calls on one mutex, starting with whether it holds it: `none` where it takes a mutex
-- that it holds, or unlocks one that it does not hold, which POSIX leaves undefined for such mutexes.
abbrev pub after_call : Bool → Call → Option Bool
after_call held unlock = if held then some false else none
after_call held _ = if held then none else some true

abbrev pub scan : Bool → List Call → Option Bool
scan held [] = some held
scan held (c ∷ cs) = after_call held c >>= λ h. scan h cs

scan-append :
    (held : Bool) (xs ys : List Call) → scan held (xs ++ ys) ≡ (scan held xs >>= λ h. scan h ys)
scan-append held [] ys = refl
scan-append held (c ∷ cs) ys = elim (Option-cases (after_call held c)) [
  | inl e ↦ rw e refl
  | inr (h, e) ↦ rw e (scan-append h cs ys)
]

-- A guard made by one of the constructors on a mutex that is free.
pub data Made : ScopedLock → Type 0 where
  plain : Made (scoped_lock [])
  reader : Made (read_scoped_lock [])
  writer : Made (write_scoped_lock [])

-- The guard takes the mutex by a call other than unlock, and its flag tells whether it is held.
abbrev IsFaithful : ScopedLock → Type 0
IsFaithful g = (after_call false g.acquire ≡ some true) × (scan false g.calls ≡ some g.locked)

lock_guard-IsFaithful : (g : ScopedLock) → IsFaithful g → IsFaithful (lock_guard g)
unfolding lock_guard
lock_guard-IsFaithful g h = ground (arith, scan-append false g.calls (g.acquire ∷ []))

unlock_guard-IsFaithful : (g : ScopedLock) → IsFaithful g → IsFaithful (unlock_guard g)
unfolding unlock_guard
unlock_guard-IsFaithful g h = ground (arith, scan-append false g.calls (unlock ∷ []))

use_guard-IsFaithful : (us : List Use) (g : ScopedLock) → IsFaithful g → IsFaithful (use_guard g us)
unfolding use_guard
use_guard-IsFaithful [] g h = h
use_guard-IsFaithful (locks ∷ us) g h =
    use_guard-IsFaithful us (lock_guard g) (lock_guard-IsFaithful g h)
use_guard-IsFaithful (unlocks ∷ us) g h =
    use_guard-IsFaithful us (unlock_guard g) (unlock_guard-IsFaithful g h)

Made-IsFaithful : {g : ScopedLock} → Made g → IsFaithful g
unfolding scoped_lock read_scoped_lock write_scoped_lock
Made-IsFaithful plain = (refl, refl)
Made-IsFaithful reader = (refl, refl)
Made-IsFaithful writer = (refl, refl)

-- However a guard is locked and unlocked by hand, its calls up to its destructor are proper, and
-- m_locked says whether the mutex is held; with the destructor they are proper exactly if m_locked
-- is still set, and otherwise end in an unlock of a mutex that is not held.
pub destroy-scan :
    {g : ScopedLock} (us : List Use)
    → Made g
    → let g' = use_guard g us in
      (scan false g'.calls ≡ some g'.locked)
      × (scan false (destroy g') ≡ (if g'.locked then some false else none))
unfolding destroy
destroy-scan {g} us made =
    let (_, held) = use_guard-IsFaithful us g (Made-IsFaithful made) in
    (
      held,
      scan-append false (use_guard g us).calls (unlock ∷ [])
          ∙ ap (λ o. o >>= λ h. scan h (unlock ∷ [])) held
          ∙ ground arith,
    )

-- The guard's own call, or unlock.
abbrev pub IsOwn : Call → Call → Type 0
IsOwn own c = (c ≡ own) ⊎ (c ≡ unlock)

AreOwn-append :
    (own : Call) (xs : List Call) (c : Call)
    → All (IsOwn own) xs
    → IsOwn own c
    → All (IsOwn own) (xs ++ c ∷ [])
AreOwn-append own [] c all_of one = (one, tt)
AreOwn-append own (x ∷ xs) c (x_own, all_of) one = (x_own, AreOwn-append own xs c all_of one)

abbrev CallsOwn : Call → ScopedLock → Type 0
CallsOwn own g = (g.acquire ≡ own) × All (IsOwn own) g.calls

lock_guard-CallsOwn : (own : Call) (g : ScopedLock) → CallsOwn own g → CallsOwn own (lock_guard g)
unfolding lock_guard
lock_guard-CallsOwn own g (e, calls) = elim (Bool-cases g.locked) [
  | inl held ↦ rw held (e, calls)
  | inr free ↦ rw free (e, AreOwn-append own g.calls g.acquire calls (inl e))
]

unlock_guard-CallsOwn :
    (own : Call) (g : ScopedLock) → CallsOwn own g → CallsOwn own (unlock_guard g)
unfolding unlock_guard
unlock_guard-CallsOwn own g (e, calls) = elim (Bool-cases g.locked) [
  | inl held ↦ rw held (e, AreOwn-append own g.calls unlock calls (inr refl))
  | inr free ↦ rw free (e, calls)
]

use_guard-CallsOwn :
    (own : Call) (us : List Use) (g : ScopedLock) → CallsOwn own g → CallsOwn own (use_guard g us)
unfolding use_guard
use_guard-CallsOwn own [] g h = h
use_guard-CallsOwn own (locks ∷ us) g h =
    use_guard-CallsOwn own us (lock_guard g) (lock_guard-CallsOwn own g h)
use_guard-CallsOwn own (unlocks ∷ us) g h =
    use_guard-CallsOwn own us (unlock_guard g) (unlock_guard-CallsOwn own g h)

-- A guard calls nothing but unlock and the call by which it takes its mutex.
pub destroy-AreOwn :
    {g : ScopedLock} (us : List Use) → Made g → All (IsOwn g.acquire) (destroy (use_guard g us))
unfolding destroy scoped_lock read_scoped_lock write_scoped_lock
destroy-AreOwn us plain =
    AreOwn-append lock _ unlock (use_guard-CallsOwn lock us _ (refl, (inl refl, tt))).1 (inr refl)
destroy-AreOwn us reader =
    AreOwn-append rdlock _ unlock (use_guard-CallsOwn rdlock us _ (refl, (inl refl, tt))).1
      (inr refl)
destroy-AreOwn us writer =
    AreOwn-append wrlock _ unlock (use_guard-CallsOwn wrlock us _ (refl, (inl refl, tt))).1
      (inr refl)
