-- ===== src/Scheduler/Drain/Switch.antt =====
-- The fibers of Scheduler.Drain on the fibers of a thread (components/scheduler.cpp,
-- components/fiber.cpp).
use mathlib.Core.Path.{fun_ext}
use web_framework.Base.{
  ℕ, ◌≡◌, ◌≢◌, refl, ap, ◌∙◌, inl, inr, true, Option, none, some, get_elem?, get_elem?-set_known,
  get_elem?-set_ne, if◌then◌else◌, ◌==◌, ==_iff, arith, Bool-cases,
}
use web_framework.Fiber.{State, exec, term, main_func, Fiber, Thread, ok, ◌>>=◌, swap_in}
use web_framework.Fiber.Resume.{
  Suspension, yields_ready, ends_well, suspend, left_as, entered, suspended, swap_in-entered,
  suspend-suspended,
}
use web_framework.Scheduler.{state_after}
use web_framework.Scheduler.Drain.{Fibers, back_of, resume, update, is_live}

abbrev pub state_of : Option Fiber → State
state_of none = term
state_of (some f) = f.state

-- The states of a thread's fibers; a fiber that is not there has ended.
abbrev pub states_of : Thread → ℕ → State
states_of t i = state_of (get_elem? t.fibers i)

-- What a fiber does next that yields by YieldToReady as often as this.
abbrev pub next_of : ℕ → Suspension
next_of n = if n == 0 then ends_well else yields_ready

next_of-state :
    (y : Fibers) (i : ℕ) (f : Fiber)
    → (left_as (next_of (y.yields i)) f).state ≡ state_after (back_of y i)
unfolding state_after
next_of-state y i f = elim (Bool-cases (y.yields i == 0)) [
  | inl done ↦ rw done refl
  | inr more ↦ rw more refl
]

-- A function that differs from another at one place is its update there.
update_lem :
    (g h : ℕ → State) (i : ℕ) (a : State)
    → g i ≡ a
    → ((j : ℕ) → i ≢ j → g j ≡ h j)
    → g ≡ update h i a
update_lem g h i a here others = fun_ext (λ j. elim (Bool-cases (j == i)) [
  | inl same ↦ let e : j ≡ i = (==_iff j i).0 same in rw same (ap g e ∙ here)
  | inr other ↦ rw other (others j (λ e. ground arith))
])

-- The thread after fiber `i` has run until its next switch back, with `n` yields before it.
abbrev pub switched : Thread → ℕ → ℕ → Fiber → ℕ → Thread
switched t i m f n = suspended (entered t i f) i m (left_as (next_of n) (record f { state = exec }))

-- Where the scheduler's loop runs a fiber that is neither running nor at its end, on a thread with a
-- main fiber, swapIn and the fiber's next yield or its end leave the states of all fibers as the
-- loop on abstract fibers has them.
pub swap_in-resume :
    (t : Thread) (i m : ℕ) (f : Fiber) (yields : ℕ → ℕ)
    → get_elem? t.fibers i ≡ some f
    → is_live f.state ≡ true
    → f.entry ≡ main_func
    → t.main ≡ some m
    → ((swap_in t i >>= suspend (next_of (yields i))) ≡ ok (switched t i m f (yields i)))
      × (states_of (switched t i m f (yields i))
          ≡ (resume (record { state = states_of t; yields = yields }) i).state)
swap_in-resume t i m f yields at live entry main =
    let way = next_of (yields i) in
    let g : Fiber = record f { state = exec } in
    let u = entered t i f in
    let v = switched t i m f (yields i) in
    let there = get_elem?-set_known t.fibers i g at in
    let y : Fibers = record { state = states_of t; yields = yields } in
    let here : states_of v i ≡ state_after (back_of y i) =
      ap state_of (get_elem?-set_known u.fibers i (left_as way g) there) ∙ next_of-state y i g in
    let others : (j : ℕ) → i ≢ j → states_of v j ≡ states_of t j = λ j ne.
      ap state_of (get_elem?-set_ne u.fibers (left_as way g) ne ∙ get_elem?-set_ne t.fibers g ne) in
    (
      rw (swap_in-entered t i m f at (ground arith) main)
          (suspend-suspended way u i m g there entry refl main),
      update_lem (states_of v) (states_of t) i (state_after (back_of y i)) here others,
    )
