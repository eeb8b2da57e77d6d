-- ===== src/Scheduler/Drain/Ends.antt =====
-- How the loop of Scheduler::run works off a queue of fibers that end (components/scheduler.cpp).
use web_framework.Base.{
  ℕ, zero, suc, ◌+◌, ◌≤◌, ◌≡◌, refl, sym, ap, ◌∙◌, inl, inr, Bool, true, false, not, List, [], ◌∷◌,
  ◌++◌, some, all-append, ◌==◌, arith, Bool-cases,
}
use web_framework.Fiber.{init}
use web_framework.Scheduler.{Scheduler, is_stopping, is_term}
use web_framework.Scheduler.Drain.{
  Fibers, resume, loop, queue_of, is_live, all_live, is_absent, is_distinct, work, IsStopped,
  loop-own_task, loop-empty, after_round,
}
use web_framework.Scheduler.Drain.Plan.{
  next_plan, all_ended, queue_of-next_plan, work-next_plan, is_distinct-next_plan, resume_done,
  next_plan_done, next_plan_more, all_live-next_plan,
}

-- What the loop leaves: an empty queue, the fibers of the plan ended, all others as they were.
pub record Drained (plan : List (Bool × ℕ)) (y : Fibers) (u : Scheduler) (z : Fibers) : Type 0 where
  pub stopped : is_stopping u ≡ true
  pub ended : all_ended z plan ≡ true
  pub kept : (f : ℕ) → is_absent f plan ≡ true → z.state f ≡ y.state f

all_ended-snoc :
    (z : Fibers) (f : ℕ) (xs : List (Bool × ℕ))
    → all_ended z (xs ++ (false, f) ∷ []) ≡ true
    → all_ended z ((false, f) ∷ xs) ≡ true
all_ended-snoc z f xs h =
    ground (arith, all-append (λ q. is_term (z.state q.1)) xs ((false, f) ∷ []))

is_absent-snoc :
    (f g : ℕ) (xs : List (Bool × ℕ))
    → is_absent g ((false, f) ∷ xs) ≡ true
    → is_absent g (xs ++ (false, f) ∷ []) ≡ true
is_absent-snoc f g xs h = ground (arith, all-append (λ q. not (q.1 == g)) xs ((false, f) ∷ []))

resume_other : (y : Fibers) (f g : ℕ) → (f == g) ≡ false → (resume y f).state g ≡ y.state g
resume_other y f g h = ground arith

module _ (y : Fibers) (b : Bool) (g : ℕ) (rest : List (Bool × ℕ)) (u : Scheduler) (z : Fibers)
    (h : is_absent g rest ≡ true) (d : Drained (next_plan y (b, g) rest) (resume y g) u z) where
  all_ended-next_plan : all_ended z ((b, g) ∷ rest) ≡ true
  all_ended-next_plan = elim (Bool-cases (y.yields g == 0)) [
    | inl done ↦
        let here = d.kept g ((next_plan_done y (b, g) rest (λ q. is_absent g q ≡ true) done).1 h) in
        let over : is_term (z.state g) ≡ true = ap is_term (here ∙ resume_done y g done) in
        let there = (next_plan_done y (b, g) rest (λ q. all_ended z q ≡ true) done).0 d.ended in
        ground arith
    | inr more ↦
        all_ended-snoc z g rest
          ((next_plan_more y (b, g) rest (λ q. all_ended z q ≡ true) more).0 d.ended)
  ]

  kept-next_plan : (f : ℕ) → is_absent f ((b, g) ∷ rest) ≡ true → z.state f ≡ y.state f
  kept-next_plan f a =
      let absent : is_absent f (next_plan y (b, g) rest) ≡ true =
        elim (Bool-cases (y.yields g == 0)) [
          | inl done ↦
              (next_plan_done y (b, g) rest (λ q. is_absent f q ≡ true) done).1 (ground arith)
          | inr more ↦
              (next_plan_more y (b, g) rest (λ q. is_absent f q ≡ true) more).1
                (is_absent-snoc g f rest a)
        ] in
      d.kept f absent ∙ resume_other y g f (ground arith)

-- A thread that runs the loop of run with the queue to itself, after stop was called, works off any
-- queue of fibers that each end after some number of yields: the loop breaks, with the scheduler
-- stopping, each queued fiber has ended, and the state of any other fiber is as before.
pub loop_ends :
    (fuel tid c : ℕ) (y : Fibers) (s : Scheduler) (plan : List (Bool × ℕ))
    → s.fibers ≡ queue_of tid plan
    → is_distinct plan ≡ true
    → all_live y plan ≡ true
    → IsStopped s
    → work y plan + 2 ≤ fuel
    → (u : Scheduler) × (z : Fibers) × (loop fuel tid c y init s ≡ some (u, z)) × Drained plan y u z
unfolding is_stopping
loop_ends zero tid c y s plan e distinct live h enough = absurd (omega arith)
loop_ends (suc zero) tid c y s plan e distinct live h enough = absurd (omega arith)
loop_ends (suc (suc fuel)) tid c y s [] e distinct live h enough =
    let done : is_stopping s ≡ true = ground (arith, h.auto, h.stop, h.quiet) in
    (
      s,
      y,
      loop-empty tid c fuel y s h e,
      record { stopped = done; ended = refl; kept = λ f a. refl },
    )
loop_ends (suc (suc fuel)) tid c y s ((b, g) ∷ rest) e distinct live h enough =
    let p : Bool × ℕ = (b, g) in
    let absent : is_absent g rest ≡ true = ground arith in
    let head : is_live (y.state g) ≡ true = ground arith in
    let more = work-next_plan y p rest absent in
    let (u, z, runs, d) =
      loop_ends (suc fuel) tid c (resume y g)
        (after_round tid c y init s p (queue_of tid rest) e head) (next_plan y p rest)
        (sym (queue_of-next_plan tid y p rest)) (is_distinct-next_plan y p rest distinct)
        (all_live-next_plan y p rest absent live)
        (record { auto = h.auto; stop = h.stop; quiet = rw h.quiet refl }) (omega arith) in
    (
      u,
      z,
      loop-own_task tid c y init s p (queue_of tid rest) e head (suc fuel) ∙ runs,
      record {
        stopped = d.stopped;
        ended = all_ended-next_plan y b g rest u z absent d;
        kept = kept-next_plan y b g rest u z absent d;
      },
    )
