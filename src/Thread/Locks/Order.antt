-- ===== src/Thread/Locks/Order.antt =====
-- Code that takes locks by the guards of components/thread.h, each in the order of their ranks.
use web_framework.Base.{ℕ, suc, ◌≡◌, ◌≤◌, ◌<◌, refl, Bool, true, List, [], ◌∷◌, All, arith}
use web_framework.Thread.Locks.{Mode, Action, acquire, release}

-- The locks of a program, with the test whether two are one, and their ranks, all below `top`.
pub record LockOrder (L : Type 0) : Type 0 where
  pub same : L → L → Bool
  pub rank : L → ℕ
  pub top : ℕ
  pub same_self : (l : L) → same l l ≡ true
  pub same_comm : (k l : L) → same k l ≡ same l k
  pub same_rank : (k l : L) → same k l ≡ true → rank k ≡ rank l
  pub rank_lt : (l : L) → rank l < top

-- What a call does with locks: `within l m c` is the scope of a guard of l, and c what runs in it.
infixr 6 ◌then◌
pub data Code (L : Type 0) : Type 0 where
  skip : Code L
  ◌then◌ : Code L → Code L → Code L
  within : L → Mode → Code L → Code L

-- The calls on the locks, before those that follow: a guard takes its lock in its constructor and
-- releases it in its destructor.
unfoldable pub actions : {L : Type 0} → Code L → List (Action L) → List (Action L)
actions skip more = more
actions (c then d) more = actions c (actions d more)
actions (within l m c) more = acquire l m ∷ actions c (release l ∷ more)

module _ {L : Type 0} (o : LockOrder L) where
  -- Every lock has a rank of at least `floor`, and a greater one than the locks around it.
  abbrev pub IsAbove : ℕ → Code L → Type 0
  IsAbove floor skip = Unit
  IsAbove floor (c then d) = IsAbove floor c × IsAbove floor d
  IsAbove floor (within l m c) = (floor ≤ o.rank l) × IsAbove (suc (o.rank l)) c

  abbrev pub AreBelow : ℕ → List (L × Mode) → Type 0
  AreBelow r held = All (λ h. o.rank h.0 < r) held

  -- A thread that holds `held` takes only locks of greater ranks than those that it holds, releases
  -- the one that it took last, and holds none at its end.
  abbrev pub Fits : List (L × Mode) → List (Action L) → Type 0
  Fits [] [] = Unit
  Fits (h ∷ held) [] = ⊥
  Fits held (acquire l m ∷ rest) = AreBelow (o.rank l) held × Fits ((l, m) ∷ held) rest
  Fits [] (release l ∷ rest) = ⊥
  Fits ((k, m) ∷ held) (release l ∷ rest) = (k ≡ l) × Fits held rest

  AreBelow-≤ : {r s : ℕ} (held : List (L × Mode)) → r ≤ s → AreBelow r held → AreBelow s held
  AreBelow-≤ [] le below = tt
  AreBelow-≤ (h ∷ held) le (lt, below) = (omega arith, AreBelow-≤ held le below)

  pub IsAbove-≤ : {r s : ℕ} (c : Code L) → r ≤ s → IsAbove s c → IsAbove r c
  IsAbove-≤ skip le above = tt
  IsAbove-≤ (c then d) le (a, b) = (IsAbove-≤ c le a, IsAbove-≤ d le b)
  IsAbove-≤ (within l m c) le (a, b) = (omega arith, b)

  pub actions-Fits :
      (floor : ℕ) (c : Code L) (held : List (L × Mode)) (more : List (Action L))
      → IsAbove floor c
      → AreBelow floor held
      → Fits held more
      → Fits held (actions c more)
  unfolding actions
  actions-Fits floor skip held more above below fits = fits
  actions-Fits floor (c then d) held more (a, b) below fits =
      actions-Fits floor c held (actions d more) a below
        (actions-Fits floor d held more b below fits)
  actions-Fits floor (within l m c) held more (le, above) below fits =
      let under = AreBelow-≤ held le below in
      (
        under,
        actions-Fits (suc (o.rank l)) c ((l, m) ∷ held) (release l ∷ more) above
            (omega arith, AreBelow-≤ held (omega arith) under) (refl, fits),
      )
