-- ===== src/Thread/Tests.antt =====
-- The theorems on locks and threads at concrete inputs.
use web_framework.Base.{◌≡◌, refl, true, false, List, [], ◌∷◌, none, some, if◌then◌else◌, codes}
use web_framework.Thread.Locks.{shared, exclusive}
use web_framework.Thread.Mutex.{PlatformCall, rw_mutex, read_kind, write_kind, object_calls}
use web_framework.Thread.Mutex.Lifetime.{
  after_all, destroyed, rw_mutex_read, rw_mutex_write, object_calls-destroyed,
}
use web_framework.Thread.Semaphore.{waits, notifies, used, new_semaphore, value-used}
use web_framework.Thread.Semaphore
use web_framework.Thread.Join.{joins, destroy_thread, expected, releases, destroy_thread-joins}
use web_framework.Thread.ScopedLock.{
  scoped_lock, use_guard, destroy, scan, locks, unlocks, read_scoped_lock, write_scoped_lock, plain,
  destroy-scan,
}
use web_framework.Thread.Start.{
  Thread, constructed, calling, new_thread, run_step, create, wait, run, Reach, start, next,
  IsReady, constructed-IsReady,
}

-- Scheduler::start unlocks its guard by hand: the destructor unlocks the mutex a second time.
destroy-scan_example :
    let g = use_guard (scoped_lock []) (unlocks ∷ []) in
    (scan false g.calls ≡ some g.locked)
    × (scan false (destroy g) ≡ (if g.locked then some false else none))
destroy-scan_example = destroy-scan (unlocks ∷ []) plain

abbrev started : Thread
started = record {
  constructor = constructed;
  runner = calling;
  id = some 42;
  name = codes "w";
  this_set = true;
  local_name = codes "w";
  callback_left = false;
  permits = 0;
}

reach_started : Reach 42 (new_thread (codes "w")) started
unfolding new_thread run_step
reach_started =
    next
      (next
        (next (next (next (next (next start (create refl refl)) (run refl)) (run refl)) (run refl))
          (run refl))
        (run refl))
      (wait 0 refl refl refl)

constructed-IsReady_example : IsReady 42 started
constructed-IsReady_example = constructed-IsReady 42 (codes "w") reach_started refl

-- The first join fails, the second succeeds, and the third does nothing.
destroy_thread-joins_example :
    let calls =
      (destroy_thread (joins (3 ∷ 0 ∷ 0 ∷ []) (record { thread = some 5; calls = [] }))).calls in
    (calls ≡ expected 5 (3 ∷ 0 ∷ 0 ∷ [])) × (releases calls ≡ 1)
destroy_thread-joins_example = destroy_thread-joins 5 (3 ∷ 0 ∷ 0 ∷ [])

-- A mutex for reading and writing that is read, and then written.
object_calls-destroyed_example :
    (ps : List PlatformCall) × (object_calls rw_mutex
        ((read_kind, []) ∷ (write_kind, unlocks ∷ locks ∷ []) ∷ [])
      ≡ some ps)
    × (after_all destroyed ps ≡ some destroyed)
unfolding use_guard read_scoped_lock write_scoped_lock
object_calls-destroyed_example =
    object_calls-destroyed ((read_kind, []) ∷ (write_kind, unlocks ∷ locks ∷ []) ∷ []) rw_mutex_read
      (((shared, rw_mutex_read), refl), (((exclusive, rw_mutex_write), refl), tt))

-- The constructor's wait is interrupted, and throws; the next returns after the notify.
abbrev uses : List Semaphore.Use
uses = waits 0 ∷ notifies 0 ∷ waits 4 ∷ []
