-- ===== src/Thread.antt =====
-- components/thread.h and components/thread.cpp: scoped locks, mutexes, the semaphore and threads.
pub mod ScopedLock
pub mod Start
pub mod Join
pub mod Locks
pub mod Mutex
pub mod Semaphore
mod Tests
