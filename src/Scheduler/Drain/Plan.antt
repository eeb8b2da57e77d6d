-- ===== src/Scheduler/Drain/Plan.antt =====
-- The queue of fibers that the loop of Scheduler::run works off, from round to round
-- (components/scheduler.cpp).
use web_framework.Base.{
  ℕ, suc, ◌+◌, ◌≡◌, ◌↔◌, refl, sym, ap, subst, ◌∙◌, inl, inr, Bool, true, false, not, List, [], ◌∷◌,
  ◌++◌, all, all-append, if◌then◌else◌, ◌==◌, arith, Bool-cases, append-nil,
}
use web_framework.Fiber.{term, ready}
use web_framework.Scheduler.{state_after, is_term}
use web_framework.Scheduler.Drain.{
  Fibers, resume, own_task, queue_of, is_live, all_live, is_absent, is_distinct, work,
}

-- The plan after its first fiber has run once.
abbrev pub next_plan : Fibers → Bool × ℕ → List (Bool × ℕ) → List (Bool × ℕ)
next_plan y p rest = rest ++ (if y.yields p.1 == 0 then [] else (false, p.1) ∷ [])

abbrev pub all_ended : Fibers → List (Bool × ℕ) → Bool
all_ended y plan = all (λ p. is_term (y.state p.1)) plan

queue_of-append :
    (tid : ℕ) (xs ys : List (Bool × ℕ))
    → queue_of tid (xs ++ ys) ≡ queue_of tid xs ++ queue_of tid ys
queue_of-append tid [] ys = refl
queue_of-append tid (x ∷ xs) ys = ap (λ q. own_task tid x ∷ q) (queue_of-append tid xs ys)

pub queue_of-next_plan :
    (tid : ℕ) (y : Fibers) (p : Bool × ℕ) (rest : List (Bool × ℕ))
    → queue_of tid (next_plan y p rest)
      ≡ queue_of tid rest ++ (if y.yields p.1 == 0 then [] else own_task tid (false, p.1) ∷ [])
queue_of-next_plan tid y p rest = elim (Bool-cases (y.yields p.1 == 0)) [
  | inl done ↦ rw done (queue_of-append tid rest [])
  | inr more ↦ rw more (queue_of-append tid rest ((false, p.1) ∷ []))
]

work-append : (y : Fibers) (xs ys : List (Bool × ℕ)) → work y (xs ++ ys) ≡ work y xs + work y ys
work-append y [] ys = omega arith
work-append y (x ∷ xs) ys = omega (arith, work-append y xs ys)

work-resume :
    (y : Fibers) (f : ℕ) (xs : List (Bool × ℕ))
    → is_absent f xs ≡ true
    → work (resume y f) xs ≡ work y xs
work-resume y f [] h = refl
work-resume y f (x ∷ xs) h = ground (arith, work-resume y f xs)

all_live-resume :
    (y : Fibers) (f : ℕ) (xs : List (Bool × ℕ))
    → is_absent f xs ≡ true
    → all_live (resume y f) xs ≡ all_live y xs
all_live-resume y f [] h = refl
all_live-resume y f (x ∷ xs) h = ground (arith, all_live-resume y f xs)

pub work-next_plan :
    (y : Fibers) (p : Bool × ℕ) (rest : List (Bool × ℕ))
    → is_absent p.1 rest ≡ true
    → suc (work (resume y p.1) (next_plan y p rest)) ≡ work y (p ∷ rest)
work-next_plan y p rest h = elim (Bool-cases (y.yields p.1 == 0)) [
  | inl done ↦ rw (done, append-nil rest) (ground (arith, work-resume y p.1 rest h))
  | inr more ↦
      rw (more, work-append (resume y p.1) rest ((false, p.1) ∷ []))
        (ground (arith, work-resume y p.1 rest h))
]

is_distinct-snoc :
    (f : ℕ) (xs : List (Bool × ℕ))
    → is_distinct xs ≡ true
    → is_absent f xs ≡ true
    → is_distinct (xs ++ (false, f) ∷ []) ≡ true
is_distinct-snoc f [] h a = refl
is_distinct-snoc f (x ∷ xs) h a =
    let other : is_absent x.1 ((false, f) ∷ []) ≡ true = ground arith in
    ground (
      arith,
      is_distinct-snoc f xs (ground arith) (ground arith),
      all-append (λ p. not (p.1 == x.1)) xs ((false, f) ∷ []),
    )

pub is_distinct-next_plan :
    (y : Fibers) (p : Bool × ℕ) (rest : List (Bool × ℕ))
    → is_distinct (p ∷ rest) ≡ true
    → is_distinct (next_plan y p rest) ≡ true
is_distinct-next_plan y p rest h = elim (Bool-cases (y.yields p.1 == 0)) [
  | inl done ↦ rw (done, append-nil rest) (ground arith)
  | inr more ↦ rw more (is_distinct-snoc p.1 rest (ground arith) (ground arith))
]

==_refl : (n : ℕ) → (n == n) ≡ true
==_refl n = ground arith

-- A fiber that does not yield again has ended, and one that does is ready.
pub resume_done : (y : Fibers) (f : ℕ) → (y.yields f == 0) ≡ true → (resume y f).state f ≡ term
unfolding state_after
resume_done y f h = rw (h, ==_refl f) refl

resume_more : (y : Fibers) (f : ℕ) → (y.yields f == 0) ≡ false → (resume y f).state f ≡ ready
unfolding state_after
resume_more y f h = rw (h, ==_refl f) refl

all_live-snoc :
    (z : Fibers) (f : ℕ) (xs : List (Bool × ℕ))
    → all_live z xs ≡ true
    → is_live (z.state f) ≡ true
    → all_live z (xs ++ (false, f) ∷ []) ≡ true
all_live-snoc z f xs h v =
    ground (arith, all-append (λ q. is_live (z.state q.1)) xs ((false, f) ∷ []))

-- What holds of the rest, and of the rest with the fiber behind it where that yields again, holds of
-- the next plan.
module _ (y : Fibers) (p : Bool × ℕ) (rest : List (Bool × ℕ)) where
  pub next_plan_done :
      (P : List (Bool × ℕ) → Type 0) → (y.yields p.1 == 0) ≡ true → P (next_plan y p rest) ↔ P rest
  next_plan_done P done =
      let same : next_plan y p rest ≡ rest = rw (done, append-nil rest) refl in
      (subst P same, subst P (sym same))

  pub next_plan_more :
      (P : List (Bool × ℕ) → Type 0)
      → (y.yields p.1 == 0) ≡ false
      → P (next_plan y p rest) ↔ P (rest ++ (false, p.1) ∷ [])
  next_plan_more P more =
      let same : next_plan y p rest ≡ rest ++ (false, p.1) ∷ [] = rw more refl in
      (subst P same, subst P (sym same))

  pub all_live-next_plan :
      is_absent p.1 rest ≡ true
      → all_live y (p ∷ rest) ≡ true
      → all_live (resume y p.1) (next_plan y p rest) ≡ true
  all_live-next_plan h v =
      let resumed : all_live (resume y p.1) rest ≡ true =
        all_live-resume y p.1 rest h ∙ ground arith in
      elim (Bool-cases (y.yields p.1 == 0)) [
        | inl done ↦ (next_plan_done (λ q. all_live (resume y p.1) q ≡ true) done).1 resumed
        | inr more ↦
            (next_plan_more (λ q. all_live (resume y p.1) q ≡ true) more).1
              (all_live-snoc (resume y p.1) p.1 rest resumed (ap is_live (resume_more y p.1 more)))
      ]
