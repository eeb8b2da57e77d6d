-- ===== src/Fiber/Life.antt =====
-- Which fibers may be reset, destroyed and switched to, by state (components/fiber.cpp).
use web_framework.Base.{
  ℕ, ◌+◌, ◌-◌, ◌%◌, ◌^◌, ◌≡◌, ◌↔◌, true, false, Option, some, get_elem?, set, if◌then◌else◌, arith,
}
use web_framework.Fiber.{
  init, exec, main_func, Fiber, Thread, ok, assertion_failed, with_fiber, is_idle, reset, destroy,
  swap_in,
}

-- A fiber with a stack can be given a new function, and its stack can be freed, exactly before it
-- first runs or after it has ended, well or badly; while it is held, ready or running both assert.
-- Switching to it asserts exactly if it is running.
pub guards_of_state :
    (t : Thread) (i m : ℕ) (f : Fiber) (callback : Option ℕ)
    → get_elem? t.fibers i ≡ some f
    → f.stack ≡ true
    → t.main ≡ some m
    → (reset t i callback ≡ (
        if is_idle f.state
        then ok (with_fiber t i (record f { callback = callback; entry = main_func; state = init }))
        else assertion_failed))
      × (destroy t i ≡ (
          if is_idle f.state
          then ok (record t {
            fibers = set t.fibers i (record f { stack = false });
            fiber_count = (t.fiber_count + 2 ^ 64 - 1) % 2 ^ 64;
          })
          else assertion_failed))
      × ((swap_in t i ≡ assertion_failed) ↔ (f.state ≡ exec))
unfolding reset destroy swap_in
guards_of_state t i m f callback at stack main =
    (ground arith, ground arith, (ground arith, ground arith))
