-- ===== src/Fiber/Tests.antt =====
-- The theorems on fibers at concrete inputs.
use web_framework.Base.{ℕ, ◌≡◌, ◌≢◌, refl, true, false, [], ◌∷◌, none, some, get_elem?}
use web_framework.Fiber.{Fiber, Thread, ok, init, exec, main_func, swap_in}
use web_framework.Fiber.Resume.{yields_hold, suspend, switch_in, left_as, swap_in-suspend}

abbrev main_fiber : Fiber
main_fiber = record {
  id = 0;
  stacksize = 0;
  state = exec;
  stack = false;
  callback = none;
  entry = main_func;
}

abbrev worker : Fiber
worker = record {
  id = 1;
  stacksize = 131072;
  state = init;
  stack = true;
  callback = some 9;
  entry = main_func;
}

abbrev thread : Thread
thread = record {
  fibers = main_fiber ∷ worker ∷ [];
  fiber_id = 1;
  fiber_count = 2;
  current = some 0;
  thread_fiber = some 0;
  main = some 0;
  running = some 0;
}

swap_in-suspend_example :
    (u v : Thread) × (swap_in thread 1 ≡ ok u)
    × (u.current ≡ some 1)
    × (suspend yields_hold u ≡ ok v)
    × (switch_in thread 1 yields_hold ≡ ok v)
    × (v.current ≡ some 0)
    × (v.running ≡ some 0)
    × (get_elem? v.fibers 1 ≡ some (left_as yields_hold worker))
    × ((j : ℕ) → 1 ≢ j → get_elem? v.fibers j ≡ get_elem? thread.fibers j)
swap_in-suspend_example = swap_in-suspend thread 1 0 worker yields_hold refl refl refl refl refl
