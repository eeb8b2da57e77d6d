-- ===== src/Scheduler/LocalTests.antt =====
-- The theorems on the thread-local pointers at concrete inputs: thread 7 makes the schedulers 1
-- and 2.
use web_framework.Base.{ℕ, ◌≡◌, refl, true, false, [], ◌∷◌, none, some, get_elem?, arith}
use web_framework.Fiber.{Fiber, ok, assertion_failed, term, caller_main_func}
use web_framework.Scheduler.{Scheduler}
use web_framework.Scheduler.Locals.{
  Locals, construct, destruct, get_scheduler, get_main_fiber, made_for, get_main_fiber-destruct,
  one_scheduler,
}

abbrev bare : Locals
bare = record {
  scheduler = none;
  thread = record {
    fibers = [];
    fiber_id = 0;
    fiber_count = 0;
    current = none;
    thread_fiber = none;
    main = none;
    running = none;
  };
}

abbrev seven : ℕ
seven = 7

one_scheduler_example :
    (l' : Locals) × (s : Scheduler) × (construct 1024 9 bare 1 3 true seven ≡ ok (l', s))
    × ((k : ℕ) → construct 1024 9 l' 2 k true seven ≡ assertion_failed)
    × ((l'' : Locals) × (destruct l' 1 s ≡ ok l'') × (get_scheduler l'' ≡ none))
one_scheduler_example = one_scheduler 1024 9 1 2 3 seven bare (λ e. omega (arith, e)) refl

-- The root fiber has run the scheduler's loop and ended.
abbrev root_fiber : Fiber
root_fiber = record {
  id = 1;
  stacksize = 1024;
  state = term;
  stack = true;
  callback = none;
  entry = caller_main_func;
}

abbrev used : Locals
used = record {
  scheduler = some 1;
  thread = record bare.thread { fibers = root_fiber ∷ []; main = some 0 };
}

abbrev root_index : ℕ
root_index = 0

get_main_fiber-destruct_example :
    (l' : Locals) × (destruct used 1 (made_for 3 7 0) ≡ ok l')
    × (get_main_fiber l' ≡ some root_index)
    × (get_elem? l'.thread.fibers 0 ≡ some (record root_fiber { stack = false }))
unfolding get_main_fiber
get_main_fiber-destruct_example =
    get_main_fiber-destruct used 1 0 (made_for 3 7 0) root_fiber refl refl refl refl refl refl
