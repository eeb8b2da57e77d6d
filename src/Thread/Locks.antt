-- ===== src/Thread/Locks.antt =====
-- Threads that take and release the mutexes of components/thread.h, each call being that of the
-- platform beneath: `exclusive` is the mode of pthread_spin_lock, pthread_mutex_lock and
-- pthread_rwlock_wrlock, and `shared` that of pthread_rwlock_rdlock. When the platform gives a lock
-- to a thread that waits is a parameter, and so is whom it prefers.
pub mod Exclusion
pub mod Order
pub mod Progress
pub mod Blocked
pub mod Eager
use web_framework.Base.{
  ℕ, suc, ◌≡◌, Option, none, Bool, true, false, List, [], ◌∷◌, ◌&&◌, ◌||◌, not, all, any, some,
  get_elem?, set, if◌then◌else◌,
}

pub data Mode : Type 0 where
  shared exclusive : Mode

abbrev pub is_exclusive : Mode → Bool
is_exclusive shared = false
is_exclusive exclusive = true

pub data Action (L : Type 0) : Type 0 where
  acquire : L → Mode → Action L
  release : L → Action L

-- A thread: what it holds, the lock taken last at the head, and the calls that it has yet to make.
pub record Worker (L : Type 0) : Type 0 where
  pub held : List (L × Mode)
  pub rest : List (Action L)

-- The lock that a thread's next call takes.
abbrev pub wants : {L : Type 0} → List (Action L) → Option (L × Mode)
wants [] = none
wants (acquire l m ∷ rest) = some (l, m)
wants (release l ∷ rest) = none

-- `same` is the test whether two locks are one.
module _ {L : Type 0} (same : L → L → Bool) where
  -- Two threads must not hold these at one time.
  abbrev pub conflicts : L × Mode → L × Mode → Bool
  conflicts (l, m) (k, n) = same l k && (is_exclusive m || is_exclusive n)

  abbrev pub is_free : L × Mode → List (Worker L) → Bool
  is_free h ws = all (λ w. not (any (conflicts h) w.held)) ws

  abbrev pub is_unheld : L → List (Worker L) → Bool
  is_unheld l ws = all (λ w. not (any (λ k. same l k.0) w.held)) ws

  -- What POSIX says of its locks. `may_take ws i h` is whether the call of thread i on the lock h
  -- returns: never while a thread holds the lock in a mode that conflicts; and where threads wait for
  -- a lock that none holds, one of them gets it.
  pub record Platform : Type 0 where
    pub may_take : List (Worker L) → ℕ → L × Mode → Bool
    pub takes_free :
        (ws : List (Worker L)) (i : ℕ) (h : L × Mode) → may_take ws i h ≡ true → is_free h ws ≡ true
    pub gives_unheld :
        (ws : List (Worker L)) (i : ℕ) (w : Worker L) (h : L × Mode)
        → get_elem? ws i ≡ some w
        → wants w.rest ≡ some h
        → is_unheld h.0 ws ≡ true
        → (j : ℕ) × (u : Worker L) × (k : L × Mode) × (get_elem? ws j ≡ some u)
          × (wants u.rest ≡ some k)
          × (same h.0 k.0 ≡ true)
          × (may_take ws j k ≡ true)

  abbrev pub give_back : L → List (L × Mode) → List (L × Mode)
  give_back l [] = []
  give_back l ((k, m) ∷ held) = if same l k then held else (k, m) ∷ give_back l held

module _ {L : Type 0} {same : L → L → Bool} (p : Platform same) where
  -- One call of one thread that returns.
  pub data Step (ws : List (Worker L)) : List (Worker L) → Type 0 where
    takes :
        (i : ℕ) {l : L} {m : Mode} {held : List (L × Mode)} {rest : List (Action L)}
        → get_elem? ws i ≡ some (record { held = held; rest = acquire l m ∷ rest })
        → p.may_take ws i (l, m) ≡ true
        → Step ws (set ws i (record { held = (l, m) ∷ held; rest = rest }))
    gives :
        (i : ℕ) {l : L} {held : List (L × Mode)} {rest : List (Action L)}
        → get_elem? ws i ≡ some (record { held = held; rest = release l ∷ rest })
        → Step ws (set ws i (record { held = give_back same l held; rest = rest }))

  pub data Steps (ws : List (Worker L)) : ℕ → List (Worker L) → Type 0 where
    none_yet : Steps ws 0 ws
    later : {n : ℕ} {us vs : List (Worker L)} → Steps ws n us → Step us vs → Steps ws (suc n) vs

-- A thread before its first call.
abbrev pub starting : {L : Type 0} → List (Action L) → Worker L
starting actions = record { held = []; rest = actions }
