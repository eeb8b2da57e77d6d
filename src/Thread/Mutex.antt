-- ===== src/Thread/Mutex.antt =====
-- Mutex, NullMutex, RWMutex, NullRWMutex and Spinlock (components/thread.h): the calls that they
-- make on the platform.
pub mod Lifetime
use web_framework.Base.{
  ◌≡◌, refl, ap, ◌∙◌, subst, Bool, true, false, List, [], ◌∷◌, ◌++◌, All, Option, none, some, inl,
  inr, ◌>>=◌, >>=-eq-some, if◌then◌else◌, ◌⊎◌,
}
use web_framework.Thread.Locks.{Mode, shared, exclusive}
use web_framework.Thread.ScopedLock.{
  Call, lock, rdlock, wrlock, unlock, ScopedLock, scoped_lock, read_scoped_lock, write_scoped_lock,
  Use, use_guard, destroy, scan, after_call, Made, plain, reader, writer, IsOwn, destroy-scan,
  destroy-AreOwn,
}

pub data PlatformCall : Type 0 where
  pthread_mutex_init pthread_mutex_lock pthread_mutex_unlock pthread_mutex_destroy : PlatformCall
  pthread_rwlock_init pthread_rwlock_rdlock pthread_rwlock_wrlock : PlatformCall
  pthread_rwlock_unlock pthread_rwlock_destroy : PlatformCall
  pthread_spin_init pthread_spin_lock pthread_spin_unlock pthread_spin_destroy : PlatformCall

-- A class: the calls of its constructor, of its member functions, and of its destructor. `none` is a
-- member function that the class does not have.
pub record Class : Type 0 where
  pub construct : List PlatformCall
  pub method : Call → Option (List PlatformCall)
  pub destruct : List PlatformCall

unfoldable pub mutex : Class
mutex = record {
  construct = pthread_mutex_init ∷ [];
  method = of_call;
  destruct = pthread_mutex_destroy ∷ [];
}
  where
    of_call : Call → Option (List PlatformCall)
    of_call lock = some (pthread_mutex_lock ∷ [])
    of_call unlock = some (pthread_mutex_unlock ∷ [])
    of_call _ = none

unfoldable pub null_mutex : Class
null_mutex = record { construct = []; method = of_call; destruct = [] }
  where
    of_call : Call → Option (List PlatformCall)
    of_call lock = some []
    of_call unlock = some []
    of_call _ = none

unfoldable pub rw_mutex : Class
rw_mutex = record {
  construct = pthread_rwlock_init ∷ [];
  method = of_call;
  destruct = pthread_rwlock_destroy ∷ [];
}
  where
    of_call : Call → Option (List PlatformCall)
    of_call rdlock = some (pthread_rwlock_rdlock ∷ [])
    of_call wrlock = some (pthread_rwlock_wrlock ∷ [])
    of_call unlock = some (pthread_rwlock_unlock ∷ [])
    of_call lock = none

unfoldable pub null_rw_mutex : Class
null_rw_mutex = record { construct = []; method = of_call; destruct = [] }
  where
    of_call : Call → Option (List PlatformCall)
    of_call rdlock = some []
    of_call wrlock = some []
    of_call unlock = some []
    of_call lock = none

-- The class for systems other than Apple's.
unfoldable pub spinlock : Class
spinlock = record {
  construct = pthread_spin_init ∷ [];
  method = of_call;
  destruct = pthread_spin_destroy ∷ [];
}
  where
    of_call : Call → Option (List PlatformCall)
    of_call lock = some (pthread_spin_lock ∷ [])
    of_call unlock = some (pthread_spin_unlock ∷ [])
    of_call _ = none

abbrev pub platform_calls : Class → List Call → Option (List PlatformCall)
platform_calls c [] = some []
platform_calls c (call ∷ calls) = do
  ps ← c.method call
  rest ← platform_calls c calls
  some (ps ++ rest)

-- The types Lock, ReadLock and WriteLock of the classes.
pub data Kind : Type 0 where
  lock_kind read_kind write_kind : Kind

abbrev pub made : Kind → ScopedLock
made lock_kind = scoped_lock []
made read_kind = read_scoped_lock []
made write_kind = write_scoped_lock []

-- The calls of guards that live one after another, each used by hand in some way.
abbrev pub guards_calls : List (Kind × List Use) → List Call
guards_calls [] = []
guards_calls ((k, us) ∷ guards) = destroy (use_guard (made k) us) ++ guards_calls guards

-- An object from its constructor to its destructor.
abbrev pub object_calls : Class → List (Kind × List Use) → Option (List PlatformCall)
object_calls c guards = do
  ps ← platform_calls c (guards_calls guards)
  some (c.construct ++ (ps ++ c.destruct))
