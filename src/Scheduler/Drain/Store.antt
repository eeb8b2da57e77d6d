-- ===== src/Scheduler/Drain/Store.antt =====
-- The loop of Scheduler::run on the fibers of its thread: swapIn and the fiber's own switch back act
-- on the thread's fibers (components/scheduler.cpp, components/fiber.cpp).
use web_framework.Base.{
  ℕ, zero, suc, ◌-◌, ◌≡◌, refl, sym, ap, ◌∙◌, inl, inr, true, ◌||◌, Option, none, some, get_elem?,
  get_elem?-set_cases, if◌then◌else◌, ◌>>=◌,
}
use web_framework.Fiber.{
  State, init, exec, term, ready, main_func, Fiber, Thread, Result, ok, assertion_failed,
  null_pointer, swap_in, is_exec,
}
use web_framework.Fiber
use web_framework.Fiber.Resume.{Suspension, yields_ready, suspend, left_as, entered}
use web_framework.Scheduler.{
  Task, Scheduler, is_term, is_except, take_task, round, continues, breaks,
}
use web_framework.Scheduler.Run.{next_idle}
use web_framework.Scheduler.Drain.{Fibers, back_of, update, is_live}
use web_framework.Scheduler.Drain.Switch.{states_of, next_of, switched}

-- A thread's fibers, with how often each will still yield.
abbrev pub fibers_of : Thread → (ℕ → ℕ) → Fibers
fibers_of t yields = record { state = states_of t; yields = yields }

abbrev pub yields_after : (ℕ → ℕ) → Option Task → ℕ → ℕ
yields_after yields none = yields
yields_after yields (some task) = elim task.fiber [
  | none ↦ yields
  | some f ↦ update yields f (yields f - 1)
]

-- swapIn of the fiber of a task, up to the fiber's switch back; a fiber that had ended runs into the
-- assertion "never reach" at the end of MainFunc.
unfoldable pub switch_to : Thread → (ℕ → ℕ) → Option Task → Result Thread
switch_to t yields none = ok t
switch_to t yields (some task) = elim task.fiber [
  | none ↦ ok t
  | some f ↦
      if is_term (states_of t f) || is_except (states_of t f)
      then assertion_failed
      else Fiber.◌>>=◌ (swap_in t f) (suspend (next_of (yields f)))
]

abbrev pub returned {ℓ} : {A : Type ℓ} → Result A → Option A
returned (ok a) = some a
returned assertion_failed = none
returned null_pointer = none

-- The loop of run, with fuel; `none` is a failed assertion or a null pointer.
unfoldable pub loop_on :
    ℕ → ℕ → ℕ → Thread → (ℕ → ℕ) → State → Scheduler → Option (Scheduler × Thread)
unfolding round next_idle take_task switch_to
loop_on zero tid c t yields idle s = none
loop_on (suc fuel) tid c t yields idle s = do
  (s₁, tickle_me, task) ← take_task tid (states_of t) s
  (s', ended, tickles) ← round tid (states_of t) (back_of (fibers_of t yields)) c idle s
  t' ← returned (switch_to t yields task)
  elim ended [
    | breaks ↦ some (s', t')
    | continues ↦
        loop_on fuel tid c t' (yields_after yields task) (next_idle tid (states_of t) idle s) s'
  ]

-- The thread's main fiber runs, and its fibers that may be switched to run MainFunc.
pub record IsHome (m : ℕ) (t : Thread) : Type 0 where
  pub main : t.main ≡ some m
  pub runs : t.running ≡ some m
  pub entries :
      (i : ℕ) (f : Fiber)
      → get_elem? t.fibers i ≡ some f
      → is_live f.state ≡ true
      → f.entry ≡ main_func

left_as-entry : (way : Suspension) (f : Fiber) → (left_as way f).entry ≡ f.entry
left_as-entry yields_ready f = refl
left_as-entry _ f = refl

pub IsHome-switched :
    (m i n : ℕ) (t : Thread) (f : Fiber)
    → IsHome m t
    → get_elem? t.fibers i ≡ some f
    → is_live f.state ≡ true
    → IsHome m (switched t i m f n)
IsHome-switched m i n t f home at live =
    let g : Fiber = record f { state = exec } in
    let way = next_of n in
    record {
      main = home.main;
      runs = refl;
      entries = λ j h there alive.
          elim (get_elem?-set_cases (entered t i f).fibers i j (left_as way g) there) [
            | inl (_, e) ↦
                ap (λ x. x.entry) (sym e) ∙ left_as-entry way g ∙ home.entries i f at live
            | inr old ↦ elim (get_elem?-set_cases t.fibers i j g old) [
              | inl (_, e) ↦ ap (λ x. x.entry) (sym e) ∙ home.entries i f at live
              | inr older ↦ home.entries j h older alive
            ]
          ];
    }
