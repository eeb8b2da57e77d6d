-- ===== src/Fiber/Resume.antt =====
-- A fiber that is switched to and gives the thread back (components/fiber.cpp).
use web_framework.Base.{
  ℕ, ◌≡◌, ◌≢◌, refl, ap, ◌∙◌, Bool, true, false, if◌then◌else◌, none, some, get_elem?, set,
  get_elem?-set_known, get_elem?-set_ne, arith,
}
use web_framework.Fiber.{
  State, hold, exec, term, ready, except, main_func, Fiber, Thread, Result, ok, with_fiber, is_exec,
  fiber_at, assertion_failed, ◌>>=◌, swap_in, swap_out, yield_to, finish, Ending, returns, throws,
  settle, leave, get_this, set_state,
}

-- The ways in which a running fiber gives the thread back.
pub data Suspension : Type 0 where
  yields_ready yields_hold ends_well ends_badly : Suspension

abbrev pub suspend : Suspension → Thread → Result Thread
suspend yields_ready = yield_to ready
suspend yields_hold = yield_to hold
suspend ends_well = finish returns
suspend ends_badly = finish throws

abbrev pub has_ended : State → Bool
has_ended term = true
has_ended except = true
has_ended _ = false

-- A fiber is switched to, and gives the thread back in some way. One that had ended goes on behind
-- the swapOut at the end of MainFunc, where it runs into the assertion "never reach".
unfoldable pub switch_in : Thread → ℕ → Suspension → Result Thread
switch_in t i way = do
  f ← fiber_at t i
  u ← swap_in t i
  if has_ended f.state then assertion_failed else suspend way u

-- The fiber as it is left.
abbrev pub left_as : Suspension → Fiber → Fiber
left_as yields_ready f = record f { state = ready }
left_as yields_hold f = record f { state = hold }
left_as ends_well f = record f { callback = none; state = term }
left_as ends_badly f = record f { state = except }

-- The thread while the fiber runs, and after it has given the thread back.
abbrev pub entered : Thread → ℕ → Fiber → Thread
entered t i f = record t {
  fibers = set t.fibers i (record f { state = exec });
  current = some i;
  running = some i;
}

abbrev pub suspended : Thread → ℕ → ℕ → Fiber → Thread
suspended u i m g = record u { fibers = set u.fibers i g; current = some m; running = some m }

pub swap_in-entered :
    (t : Thread) (i m : ℕ) (f : Fiber)
    → get_elem? t.fibers i ≡ some f
    → is_exec f.state ≡ false
    → t.main ≡ some m
    → swap_in t i ≡ ok (entered t i f)
unfolding swap_in
swap_in-entered t i m f at idle main = ground arith

swap_out-suspended :
    (u : Thread) (i m : ℕ) (f g : Fiber)
    → get_elem? u.fibers i ≡ some f
    → u.main ≡ some m
    → swap_out (with_fiber u i g) i ≡ ok (suspended u i m g)
unfolding swap_out
swap_out-suspended u i m f g at main = rw (get_elem?-set_known u.fibers i g at) (ground arith)

yield_to-suspended :
    (state : State) (u : Thread) (i m : ℕ) (f : Fiber)
    → get_elem? u.fibers i ≡ some f
    → u.current ≡ some i
    → u.main ≡ some m
    → yield_to state u ≡ ok (suspended u i m (record f { state = state }))
yield_to-suspended state u i m f at current main =
    unfold yield_to in
    rw (current, get_this)
      (rw (at, set_state) (swap_out-suspended u i m f (record f { state = state }) at main))

finish-suspended :
    (ending : Ending) (u : Thread) (i m : ℕ) (f : Fiber)
    → get_elem? u.fibers i ≡ some f
    → f.entry ≡ main_func
    → u.current ≡ some i
    → u.main ≡ some m
    → finish ending u ≡ ok (suspended u i m (settle ending f))
finish-suspended ending u i m f at entry current main =
    unfold finish in
    rw (current, get_this)
      (rw at (
        ap (λ e. leave e (with_fiber u i (settle ending f)) i) entry
        ∙ swap_out-suspended u i m f (settle ending f) at main))

pub suspend-suspended :
    (way : Suspension) (u : Thread) (i m : ℕ) (f : Fiber)
    → get_elem? u.fibers i ≡ some f
    → f.entry ≡ main_func
    → u.current ≡ some i
    → u.main ≡ some m
    → suspend way u ≡ ok (suspended u i m (left_as way f))
unfolding settle
suspend-suspended yields_ready u i m f at e c main = yield_to-suspended ready u i m f at c main
suspend-suspended yields_hold u i m f at e c main = yield_to-suspended hold u i m f at c main
suspend-suspended ends_well u i m f at e c main = finish-suspended returns u i m f at e c main
suspend-suspended ends_badly u i m f at e c main = finish-suspended throws u i m f at e c main

pub left_as-exec :
    (way : Suspension) (f : Fiber) → left_as way (record f { state = exec }) ≡ left_as way f
left_as-exec yields_ready f = refl
left_as-exec _ f = refl

-- A fiber that runs MainFunc (not one with use_caller), is not executing and has not ended can be
-- switched to from a thread with a scheduler's main fiber. It is then the current one; and however
-- it gives the thread back, the main fiber is current and runs again, the fiber is in the state for
-- that way, and every other fiber is as it was.
pub swap_in-suspend :
    (t : Thread) (i m : ℕ) (f : Fiber) (way : Suspension)
    → get_elem? t.fibers i ≡ some f
    → is_exec f.state ≡ false
    → has_ended f.state ≡ false
    → f.entry ≡ main_func
    → t.main ≡ some m
    → (u v : Thread) × (swap_in t i ≡ ok u)
      × (u.current ≡ some i)
      × (suspend way u ≡ ok v)
      × (switch_in t i way ≡ ok v)
      × (v.current ≡ some m)
      × (v.running ≡ some m)
      × (get_elem? v.fibers i ≡ some (left_as way f))
      × ((j : ℕ) → i ≢ j → get_elem? v.fibers j ≡ get_elem? t.fibers j)
unfolding switch_in
swap_in-suspend t i m f way at idle alive entry main =
    let u = entered t i f in
    let g : Fiber = record f { state = exec } in
    let there = get_elem?-set_known t.fibers i g at in
    let gives_back = suspend-suspended way u i m g there entry refl main in
    (
      u,
      suspended u i m (left_as way g),
      swap_in-entered t i m f at idle main,
      refl,
      gives_back,
      rw (at, alive)
          (ap (λ r. r >>= suspend way) (swap_in-entered t i m f at idle main) ∙ gives_back),
      refl,
      refl,
      get_elem?-set_known u.fibers i (left_as way g) there ∙ ap some (left_as-exec way f),
      λ j ne. get_elem?-set_ne u.fibers (left_as way g) ne ∙ get_elem?-set_ne t.fibers g ne,
    )
