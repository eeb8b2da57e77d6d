-- ===== src/Thread/Mutex/Lifetime.antt =====
-- The platform's calls over the life of a mutex object (components/thread.h).
use web_framework.Base.{
  ◌≡◌, refl, ap, ◌∙◌, subst, sym, Bool, true, false, List, [], ◌∷◌, ◌++◌, All, Option, none, some,
  inl, inr, ◌>>=◌, >>=-eq-some, Option-cases, append_assoc,
}
use mathlib.Core.Option.{some-injective}
use web_framework.Thread.Locks.{Mode, shared, exclusive}
use web_framework.Thread.ScopedLock.{
  Call, unlock, ScopedLock, scoped_lock, read_scoped_lock, write_scoped_lock, Use, use_guard,
  destroy, scan, after_call, Made, plain, reader, writer, IsOwn, destroy-scan, destroy-AreOwn,
}
use web_framework.Thread.Mutex.{
  PlatformCall, pthread_mutex_init, pthread_mutex_lock, pthread_mutex_unlock, pthread_mutex_destroy,
  pthread_rwlock_init, pthread_rwlock_rdlock, pthread_rwlock_wrlock, pthread_rwlock_unlock,
  pthread_rwlock_destroy, pthread_spin_init, pthread_spin_lock, pthread_spin_unlock,
  pthread_spin_destroy, Class, mutex, rw_mutex, spinlock, platform_calls, Kind, lock_kind,
  read_kind, write_kind, made, guards_calls, object_calls,
}

-- A lock of the platform, as the thread that uses it sees it.
pub data Stage : Type 0 where
  destroyed unlocked : Stage
  locked : Mode → Stage

-- What POSIX says of each call; `none` where the call is made at a wrong time.
abbrev pub begins : Stage → Option Stage
begins destroyed = some unlocked
begins _ = none

abbrev pub takes : Mode → Stage → Option Stage
takes m unlocked = some (locked m)
takes m _ = none

abbrev pub gives : Stage → Option Stage
gives (locked m) = some unlocked
gives _ = none

abbrev pub ends : Stage → Option Stage
ends unlocked = some destroyed
ends _ = none

abbrev pub after : PlatformCall → Stage → Option Stage
after pthread_mutex_init s = begins s
after pthread_mutex_lock s = takes exclusive s
after pthread_mutex_unlock s = gives s
after pthread_mutex_destroy s = ends s
after pthread_rwlock_init s = begins s
after pthread_rwlock_rdlock s = takes shared s
after pthread_rwlock_wrlock s = takes exclusive s
after pthread_rwlock_unlock s = gives s
after pthread_rwlock_destroy s = ends s
after pthread_spin_init s = begins s
after pthread_spin_lock s = takes exclusive s
after pthread_spin_unlock s = gives s
after pthread_spin_destroy s = ends s

abbrev pub after_all : Stage → List PlatformCall → Option Stage
after_all s [] = some s
after_all s (p ∷ ps) = after p s >>= λ t. after_all t ps

after_all-append :
    (s : Stage) (ps qs : List PlatformCall)
    → after_all s (ps ++ qs) ≡ (after_all s ps >>= λ t. after_all t qs)
after_all-append s [] qs = refl
after_all-append s (p ∷ ps) qs = elim (Option-cases (after p s)) [
  | inl e ↦ rw e refl
  | inr (t, e) ↦ rw e (after_all-append t ps qs)
]

-- The guards of a class, with the mode in which they take its lock.
pub data Guards : Class → Kind → Mode → Type 0 where
  mutex_lock : Guards mutex lock_kind exclusive
  spinlock_lock : Guards spinlock lock_kind exclusive
  rw_mutex_read : Guards rw_mutex read_kind shared
  rw_mutex_write : Guards rw_mutex write_kind exclusive

-- The guard's call takes the lock, and unlock gives it back.
abbrev Fits : Class → Call → Mode → Type 0
Fits c own m =
    ((p : PlatformCall) × (c.method own ≡ some (p ∷ [])) × ((s : Stage) → after p s ≡ takes m s))
    × ((q : PlatformCall) × (c.method unlock ≡ some (q ∷ [])) × ((s : Stage) → after q s ≡ gives s))
    × (after_call false own ≡ some true)
    × (after_call true own ≡ none)

Guards-Fits : {c : Class} {k : Kind} {m : Mode} → Guards c k m → Fits c (made k).acquire m
unfolding mutex spinlock rw_mutex scoped_lock read_scoped_lock write_scoped_lock
Guards-Fits mutex_lock = ((_, refl, λ s. refl), (_, refl, λ s. refl), refl, refl)
Guards-Fits spinlock_lock = ((_, refl, λ s. refl), (_, refl, λ s. refl), refl, refl)
Guards-Fits rw_mutex_read = ((_, refl, λ s. refl), (_, refl, λ s. refl), refl, refl)
Guards-Fits rw_mutex_write = ((_, refl, λ s. refl), (_, refl, λ s. refl), refl, refl)

abbrev stage : Mode → Bool → Stage
stage m true = locked m
stage m false = unlocked

-- Calls that are proper on a mutex are proper on the platform.
module _ (c : Class) (own : Call) (m : Mode) (fits : Fits c own m) where
  abbrev IsPlayed : Bool → List Call → Bool → Type 0
  IsPlayed held cs held' =
      (ps : List PlatformCall) × (platform_calls c cs ≡ some ps)
      × (after_all (stage m held) ps ≡ some (stage m held'))

  one_call :
      (held held' : Bool) (call : Call)
      → IsOwn own call
      → after_call held call ≡ some held'
      → (p : PlatformCall) × (c.method call ≡ some (p ∷ []))
        × (after p (stage m held) ≡ some (stage m held'))
  one_call held held' call (inl own_call) e =
      taken held held' (subst (λ z. after_call held z ≡ some held') own_call e)
    where
      taken :
          (held held' : Bool)
          → after_call held own ≡ some held'
          → (p : PlatformCall) × (c.method call ≡ some (p ∷ []))
            × (after p (stage m held) ≡ some (stage m held'))
      taken true held' e = cc
      taken false true e =
          let ((p, at, acts), _, _, _) = fits in (p, ap c.method own_call ∙ at, acts unlocked)
      taken false false e = cc
  one_call held held' call (inr unlocking) e =
      given held held' (subst (λ z. after_call held z ≡ some held') unlocking e)
    where
      given :
          (held held' : Bool)
          → after_call held unlock ≡ some held'
          → (p : PlatformCall) × (c.method call ≡ some (p ∷ []))
            × (after p (stage m held) ≡ some (stage m held'))
      given false held' e = cc
      given true true e = cc
      given true false e =
          let (_, (q, at, acts), _, _) = fits in (q, ap c.method unlocking ∙ at, acts (locked m))

  scan-IsPlayed :
      (cs : List Call) (held held' : Bool)
      → All (IsOwn own) cs
      → scan held cs ≡ some held'
      → IsPlayed held cs held'
  scan-IsPlayed [] held held' all_of e =
      ([], refl, ap (λ b. some (stage m b)) (some-injective held held' e))
  scan-IsPlayed (call ∷ cs) held held' (here, all_of) e =
      let (next, called, rest) = >>=-eq-some (after_call held call) (λ h. scan h cs) e in
      let (p, at, acts) = one_call held next call here called in
      let (ps, at', acts') = scan-IsPlayed cs next held' all_of rest in
      (p ∷ ps, rw (at, at') refl, rw acts acts')

  guard-IsPlayed :
      {g : ScopedLock} (us : List Use)
      → Made g
      → g.acquire ≡ own
      → (use_guard g us).locked ≡ true
      → IsPlayed false (destroy (use_guard g us)) false
  guard-IsPlayed {g} us is_made e held =
      let (_, ended) = destroy-scan us is_made in
      let own_calls =
        subst (λ a. All (IsOwn a) (destroy (use_guard g us))) e (destroy-AreOwn us is_made) in
      scan-IsPlayed (destroy (use_guard g us)) false false own_calls (ended ∙ rw held refl)

platform_calls-append :
    (c : Class) (xs ys : List Call) (ps qs : List PlatformCall)
    → platform_calls c xs ≡ some ps
    → platform_calls c ys ≡ some qs
    → platform_calls c (xs ++ ys) ≡ some (ps ++ qs)
platform_calls-append c [] ys ps qs e e' = e' ∙ ap (λ z. some (z ++ qs)) (some-injective [] ps e)
platform_calls-append c (x ∷ xs) ys ps qs e e' =
    let (p, at, e1) =
      >>=-eq-some (c.method x) (λ p. platform_calls c xs >>= λ r. some (p ++ r)) e in
    let (r, at', e2) = >>=-eq-some (platform_calls c xs) (λ r. some (p ++ r)) e1 in
    let later = platform_calls-append c xs ys r qs at' e' in
    rw (at, later)
      (ap some (sym (append_assoc p r qs))
        ∙ ap (λ z. some (z ++ qs)) (some-injective (p ++ r) ps e2))

made-Made : (k : Kind) → Made (made k)
made-Made lock_kind = plain
made-Made read_kind = reader
made-Made write_kind = writer

-- Each guard is one of the class's, and is not left unlocked at its end.
abbrev pub AreGuards : Class → List (Kind × List Use) → Type 0
AreGuards c guards =
    All (λ g. ((m : Mode) × Guards c g.0 m) × ((use_guard (made g.0) g.1).locked ≡ true)) guards

guards-IsPlayed :
    (c : Class) (guards : List (Kind × List Use))
    → AreGuards c guards
    → (ps : List PlatformCall) × (platform_calls c (guards_calls guards) ≡ some ps)
      × (after_all unlocked ps ≡ some unlocked)
guards-IsPlayed c [] fits = ([], refl, refl)
guards-IsPlayed c ((k, us) ∷ guards) (((m, of_class), held), fits) =
    let (ps, e, acts) =
      guard-IsPlayed c (made k).acquire m (Guards-Fits of_class) us (made-Made k) refl held in
    let (qs, e', acts') = guards-IsPlayed c guards fits in
    (
      ps ++ qs,
      platform_calls-append c (destroy (use_guard (made k) us)) (guards_calls guards) ps qs e e',
      after_all-append unlocked ps qs ∙ rw acts acts',
    )

begins_and_ends :
    {c : Class} {k : Kind} {m : Mode}
    → Guards c k m
    → (after_all destroyed c.construct ≡ some unlocked)
      × (after_all unlocked c.destruct ≡ some destroyed)
unfolding mutex spinlock rw_mutex
begins_and_ends mutex_lock = (refl, refl)
begins_and_ends spinlock_lock = (refl, refl)
begins_and_ends rw_mutex_read = (refl, refl)
begins_and_ends rw_mutex_write = (refl, refl)

-- An object of Mutex, Spinlock or RWMutex, from its constructor to its destructor, with any guards of
-- its class one after another between, each locked and unlocked by hand in any way that leaves it
-- locked: the calls on the platform are all made at a right time, from pthread's init to its
-- destroy, with no lock taken twice or given back twice.
pub object_calls-destroyed :
    {c : Class} {k : Kind} {m : Mode} (guards : List (Kind × List Use))
    → Guards c k m
    → AreGuards c guards
    → (ps : List PlatformCall) × (object_calls c guards ≡ some ps)
      × (after_all destroyed ps ≡ some destroyed)
object_calls-destroyed {c} guards of_class fits =
    let (ps, e, acts) = guards-IsPlayed c guards fits in
    let (started, ended) = begins_and_ends of_class in
    (
      c.construct ++ (ps ++ c.destruct),
      rw e refl,
      after_all-append destroyed c.construct (ps ++ c.destruct)
          ∙ rw started (after_all-append unlocked ps c.destruct ∙ rw acts ended),
    )
