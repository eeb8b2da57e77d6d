-- ===== src/Scheduler/Pick.antt =====
-- Which task a thread takes from the queue in Scheduler::run (components/scheduler.cpp).
use web_framework.Base.{
  ℕ, ◌≡◌, refl, sym, subst, ap, ◌∙◌, ◌⊎◌, inl, inr, Bool, true, false, ◌||◌, List, [], ◌∷◌, ◌++◌,
  any, all, Option, ◌+◌, none, some, is_some, arith, Bool-cases,
}
use web_framework.Fiber.{State}
use web_framework.Scheduler.{
  Task, Scheduler, Picked, picked, assertion_failed, passed, pick, take_task, take_picked,
  is_foreign, is_running,
}

-- A task that this thread may not take now.
abbrev pub is_passed : ℕ → (ℕ → State) → Task → Bool
is_passed tid state t = is_foreign tid t || is_running state t

-- The queue of a scheduler holds no empty task.
abbrev pub IsFilled : List Task → Type 0
IsFilled q = all (λ t. is_some t.fiber || is_some t.callback) q ≡ true

-- The queue split at the first task that the thread may take.
pub record Taken (tid : ℕ) (state : ℕ → State) (q : List Task) : Type 0 where
  pub before : List Task
  pub task : Task
  pub after : List Task
  pub splits : q ≡ before ++ task ∷ after
  pub passed_over : all (is_passed tid state) before ≡ true
  pub allowed : is_passed tid state task ≡ false
  pub result : pick tid state q ≡ picked (any (is_foreign tid) before) (some task) (before ++ after)

pick-allowed :
    (tid : ℕ) (state : ℕ → State) (t : Task) (q : List Task)
    → (is_some t.fiber || is_some t.callback) ≡ true
    → is_passed tid state t ≡ false
    → pick tid state (t ∷ q) ≡ picked false (some t) q
unfolding pick
pick-allowed tid state t q filled free = ground arith

pick-passed :
    (tid : ℕ) (state : ℕ → State) (t : Task) (q : List Task)
    → (is_some t.fiber || is_some t.callback) ≡ true
    → is_passed tid state t ≡ true
    → pick tid state (t ∷ q) ≡ passed (is_foreign tid t) t (pick tid state q)
unfolding pick
pick-passed tid state t q filled h = ground arith

-- On a queue with no empty task the loop takes the first task that is not another thread's and whose
-- fiber is not running, and leaves all others in their order; with no such task it leaves the queue as
-- it is. It asks for a tickle exactly if it passed over another thread's task.
pub pick_lem :
    (tid : ℕ) (state : ℕ → State) (q : List Task)
    → IsFilled q
    → Taken tid state q
      ⊎ ((all (is_passed tid state) q ≡ true)
          × (pick tid state q ≡ picked (any (is_foreign tid) q) none q))
pick_lem tid state [] h = inr (refl, unfold pick in refl)
pick_lem tid state (t ∷ q) h =
    let filled : (is_some t.fiber || is_some t.callback) ≡ true = ground arith in
    elim (Bool-cases (is_passed tid state t)) [
      | inr free ↦ inl (record {
        before = [];
        task = t;
        after = q;
        splits = refl;
        passed_over = refl;
        allowed = free;
        result = pick-allowed tid state t q filled free;
      })
      | inl held ↦
          let step = pick-passed tid state t q filled held in
          elim (pick_lem tid state q (ground arith)) [
            | inl taken ↦ inl (record {
              before = t ∷ taken.before;
              task = taken.task;
              after = taken.after;
              splits = ap (◌∷◌ t) taken.splits;
              passed_over = rw held taken.passed_over;
              allowed = taken.allowed;
              result = step ∙ ap (passed (is_foreign tid t) t) taken.result;
            })
            | inr (every, none_left) ↦
                inr (rw held every, step ∙ ap (passed (is_foreign tid t) t) none_left)
          ]
    ]

-- A task found stood in the queue, which keeps all others in their order.
pub record TakenOut (state : ℕ → State) (q rest : List Task) (t : Task) : Type 0 where
  pub before : List Task
  pub after : List Task
  pub splits : q ≡ before ++ t ∷ after
  pub left : rest ≡ before ++ after
  pub idle : is_running state t ≡ false

-- The task and the queue of a result, if there are any.
abbrev found : Picked → Option (Task × List Task)
found (picked k none rest) = none
found (picked k (some t) rest) = some (t, rest)
found assertion_failed = none

TakenOut-cons :
    (state : ℕ → State) (x t : Task) (q rest : List Task)
    → TakenOut state q rest t
    → TakenOut state (x ∷ q) (x ∷ rest) t
TakenOut-cons state x t q rest o = record {
  before = x ∷ o.before;
  after = o.after;
  splits = ap (◌∷◌ x) o.splits;
  left = ap (◌∷◌ x) o.left;
  idle = o.idle;
}

found-passed :
    (foreign : Bool) (x t : Task) (p : Picked) (rest : List Task)
    → found (passed foreign x p) ≡ some (t, rest)
    → (rest' : List Task) × (found p ≡ some (t, rest')) × (x ∷ rest' ≡ rest)
found-passed foreign x t (picked k none q) rest e = cc
found-passed foreign x t (picked k (some u) q) rest e = (q, cc, cc)
found-passed foreign x t assertion_failed rest e = cc

TakenOut-passed :
    (state : ℕ → State) (foreign : Bool) (x t : Task) (p : Picked) (q rest : List Task)
    → ((left : List Task) → found p ≡ some (t, left) → TakenOut state q left t)
    → found (passed foreign x p) ≡ some (t, rest)
    → TakenOut state (x ∷ q) rest t
TakenOut-passed state foreign x t p q rest later h =
    let (left, there, same) = found-passed foreign x t p rest h in
    subst (λ r. TakenOut state (x ∷ q) r t) same (TakenOut-cons state x t q left (later left there))

found-pick :
    (tid : ℕ) (state : ℕ → State) (q : List Task) (t : Task) (rest : List Task)
    → found (pick tid state q) ≡ some (t, rest)
    → TakenOut state q rest t
unfolding pick
found-pick tid state [] t rest e = cc
found-pick tid state (x ∷ q) t rest e = elim (Bool-cases (is_foreign tid x)) [
  | inl foreign ↦
      TakenOut-passed state true x t (pick tid state q) q rest (found-pick tid state q t)
        (rw foreign at e)
  | inr own ↦ elim (Bool-cases (is_some x.fiber || is_some x.callback)) [
    | inr empty ↦ let off = rw (own, empty) at e in cc
    | inl filled ↦ elim (Bool-cases (is_running state x)) [
      | inl busy ↦
          TakenOut-passed state false x t (pick tid state q) q rest (found-pick tid state q t)
            (rw (own, filled, busy) at e)
      | inr idle ↦
          let here : found (picked false (some x) q) ≡ some (t, rest) =
            rw (own, filled, idle) at e in
          let same : x ≡ t = cc in
          record { before = []; after = q; splits = cc; left = cc; idle = rw (sym same) idle }
    ]
  ]
]

take_picked-found :
    (s s' : Scheduler) (k : Bool) (t : Task) (p : Picked)
    → take_picked s p ≡ some (s', k, some t)
    → (found p ≡ some (t, s'.fibers))
      × (s' ≡ record s { fibers = s'.fibers; active = s.active + 1 })
unfolding take_picked
take_picked-found s s' k t (picked j none q) e = cc
take_picked-found s s' k t (picked j (some u) q) e =
    let same : record s { fibers = q; active = s.active + 1 } ≡ s' = cc in
    let queue : q ≡ s'.fibers = ap (λ z. z.fibers) same in
    (cc, sym same ∙ ap (λ r. record s { fibers = r; active = s.active + 1 }) queue)
take_picked-found s s' k t assertion_failed e = cc

pub take_task-TakenOut :
    (tid : ℕ) (state : ℕ → State) (s s' : Scheduler) (k : Bool) (t : Task)
    → take_task tid state s ≡ some (s', k, some t)
    → TakenOut state s.fibers s'.fibers t
      × (s' ≡ record s { fibers = s'.fibers; active = s.active + 1 })
unfolding take_task take_picked
take_task-TakenOut tid state s s' k t e =
    let (there, same) = take_picked-found s s' k t (pick tid state s.fibers) e in
    (found-pick tid state s.fibers t s'.fibers there, same)
