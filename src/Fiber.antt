-- ===== src/Fiber.antt =====
-- Fiber (components/fiber.h, components/fiber.cpp) as one thread sees it. Fibers are held by index;
-- `swapcontext` is the change of the context that runs. MY_ASSERT and null pointers end in a fault.
pub mod Resume
pub mod Life
mod Tests
use web_framework.Base.{
  ℕ, zero, suc, ◌+◌, ◌-◌, ◌%◌, ◌^◌, ◌≡◌, Bool, true, false, not, ◌&&◌, ◌||◌, List, [], ◌∷◌, ◌++◌,
  Option, none, some, length, get_elem?, set, if◌then◌else◌, ◌==◌, is_some,
}

pub data State : Type 0 where
  init hold exec term ready except : State

-- The function that makecontext gives the context.
pub data Entry : Type 0 where
  main_func caller_main_func : Entry

-- `callback` is the number of a function; `stack` tells whether m_stack is allocated.
pub record Fiber : Type 0 where
  pub id : ℕ
  pub stacksize : ℕ
  pub state : State
  pub stack : Bool
  pub callback : Option ℕ
  pub entry : Entry

-- `current` and `thread_fiber` are t_fiber and t_threadFiber of fiber.cpp, `main` is t_fiber of
-- scheduler.cpp, and `running` is the context that executes, `none` the thread's own before it has a
-- fiber. The counters are the program's.
pub record Thread : Type 0 where
  pub fibers : List Fiber
  pub fiber_id : ℕ
  pub fiber_count : ℕ
  pub current : Option ℕ
  pub thread_fiber : Option ℕ
  pub main : Option ℕ
  pub running : Option ℕ

pub data Result {ℓ} (A : Type ℓ) : Type ℓ where
  ok : A → Result A
  assertion_failed : Result A
  null_pointer : Result A

abbrev pub deref {ℓ} : {A : Type ℓ} → Option A → Result A
deref none = null_pointer
deref (some a) = ok a

abbrev pub assert : Bool → Result (Unit {0})
assert true = ok tt
assert false = assertion_failed

infixl 5 ◌>>=◌
abbrev pub ◌>>=◌ {ℓ κ} : {A : Type ℓ} {B : Type κ} → Result A → (A → Result B) → Result B
assertion_failed >>= next = assertion_failed
null_pointer >>= next = null_pointer
ok result >>= next = next result

infixl 5 ◌>>◌
abbrev pub ◌>>◌ {ℓ} : {A : Type ℓ} → Result (Unit {0}) → Result A → Result A
first >> next = first >>= λ _. next

abbrev pub fiber_at : Thread → ℕ → Result Fiber
fiber_at t i = deref (get_elem? t.fibers i)

abbrev pub with_fiber : Thread → ℕ → Fiber → Thread
with_fiber t i f = record t { fibers = set t.fibers i f }

abbrev pub is_exec : State → Bool
is_exec exec = true
is_exec _ = false

-- `m_state == TERM || m_state == INIT || m_state == EXCEPT`
abbrev pub is_idle : State → Bool
is_idle term = true
is_idle init = true
is_idle except = true
is_idle _ = false

-- Fiber::Fiber(), the main fiber of a thread.
unfoldable pub new_main_fiber : Thread → Thread × ℕ
new_main_fiber t = (
  record t {
    fibers =
        t.fibers
        ++ record {
          id = 0;
          stacksize = 0;
          state = exec;
          stack = false;
          callback = none;
          entry = main_func;
        }
          ∷ [];
    current = some (length t.fibers);
    fiber_count = (t.fiber_count + 1) % 2 ^ 64;
  },
  length t.fibers,
)

-- Fiber::Fiber(callback, stacksize, use_caller); `configured` is g_fiber_stack_size->getValue().
-- Stack size is a uint32_t.
unfoldable pub new_fiber : ℕ → Thread → Option ℕ → ℕ → Bool → Thread × ℕ
new_fiber configured t callback stacksize use_caller =
    let id = (t.fiber_id + 1) % 2 ^ 64 in
    (
      record t {
        fibers =
            t.fibers
            ++ record {
              id = id;
              stacksize = (if not (stacksize == 0) then stacksize else configured) % 2 ^ 32;
              state = init;
              stack = true;
              callback = callback;
              entry = if not use_caller then main_func else caller_main_func;
            }
              ∷ [];
        fiber_id = id;
        fiber_count = (t.fiber_count + 1) % 2 ^ 64;
      },
      length t.fibers,
    )

-- Whether a fiber that ends is the current one, as `cur == this`.
abbrev pub points_to : Option ℕ → ℕ → Bool
points_to none i = false
points_to (some j) i = j == i

-- Fiber::~Fiber; the object itself stays in the list, with its stack freed.
unfoldable pub destroy : Thread → ℕ → Result Thread
destroy t i = do
  f ← fiber_at t i
  let t' = record t { fiber_count = (t.fiber_count + 2 ^ 64 - 1) % 2 ^ 64 }
  if f.stack
      then (do assert (is_idle f.state); ok (with_fiber t' i (record f { stack = false })))
      else (do
        assert (not (is_some f.callback))
        assert (is_exec f.state)
        ok (if points_to t.current i then record t' { current = none } else t'))

-- Fiber::reset. The context starts at MainFunc, whatever it did before.
unfoldable pub reset : Thread → ℕ → Option ℕ → Result Thread
reset t i callback = do
  f ← fiber_at t i
  assert f.stack
  assert (is_idle f.state)
  ok (with_fiber t i (record f { callback = callback; entry = main_func; state = init }))

-- Fiber::swapIn
unfoldable pub swap_in : Thread → ℕ → Result Thread
swap_in t i = do
  f ← fiber_at t i
  assert (not (is_exec f.state))
  m ← deref t.main
  ok (record t {
    fibers = set t.fibers i (record f { state = exec });
    current = some i;
    running = some i;
  })

-- Fiber::swapOut
unfoldable pub swap_out : Thread → ℕ → Result Thread
swap_out t i = do
  f ← fiber_at t i
  m ← deref t.main
  ok (record t { current = some m; running = some m })

-- Fiber::call
unfoldable pub call : Thread → ℕ → Result Thread
call t i = do
  f ← fiber_at t i
  m ← deref t.thread_fiber
  ok (record t {
    fibers = set t.fibers i (record f { state = exec });
    current = some i;
    running = some i;
  })

-- Fiber::back
unfoldable pub back : Thread → ℕ → Result Thread
back t i = do
  f ← fiber_at t i
  m ← deref t.thread_fiber
  ok (record t { current = some m; running = some m })

-- Fiber::GetThis; a thread without a fiber gets its main fiber.
unfoldable pub get_this : Thread → Thread × ℕ
unfolding new_main_fiber
get_this t = elim t.current [
  | some i ↦ (t, i)
  | none ↦ let (t', i) = new_main_fiber t in (record t' { thread_fiber = some i }, i)
]

unfoldable pub set_state : Thread → ℕ → State → Result Thread
set_state t i state = do f ← fiber_at t i; ok (with_fiber t i (record f { state = state }))

-- YieldToReady and YieldToHold, by the state that they set.
unfoldable pub yield_to : State → Thread → Result Thread
unfolding get_this set_state swap_out
yield_to state t = let (t', i) = get_this t in do t₁ ← set_state t' i state; swap_out t₁ i

-- How m_callback() ends.
pub data Ending : Type 0 where
  returns throws : Ending

-- The rest of MainFunc and of CallerMainFunc once the callback has ended, up to the last switch.
unfoldable pub settle : Ending → Fiber → Fiber
settle returns f = record f { callback = none; state = term }
settle throws f = record f { state = except }

-- The last switch: `raw_ptr->swapOut()` in MainFunc, `raw_ptr->back()` in CallerMainFunc.
unfoldable pub leave : Entry → Thread → ℕ → Result Thread
unfolding swap_out back
leave main_func t i = swap_out t i
leave caller_main_func t i = back t i

unfoldable pub finish : Ending → Thread → Result Thread
unfolding get_this settle leave
finish ending t =
    let (t', i) = get_this t in
    do f ← fiber_at t' i; leave f.entry (with_fiber t' i (settle ending f)) i
