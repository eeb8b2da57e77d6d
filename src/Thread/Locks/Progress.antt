-- ===== src/Thread/Locks/Progress.antt =====
-- Threads whose code takes its locks in the order of their ranks do not block one another for ever.
use web_framework.Base.{
  ℕ, zero, suc, ◌+◌, ◌≡◌, ◌≤◌, ◌<◌, refl, sym, subst, Bool, true, false, List, [], ◌∷◌, ◌⊎◌, inl,
  inr, any, all, All, map, some, get_elem?, set, length, is_empty, get_elem?-set_cases, arith,
  Bool-cases, total, total-set,
}
use mathlib.Core.List.{Memᴰ}
use mathlib.Core.Option.{some-injective}
use mathlib.Core.List.Memᴰ.{head, tail}
use web_framework.Thread.Locks.{
  Platform, is_unheld, wants, Mode, Action, acquire, release, Worker, give_back, Step, takes, gives,
  Steps, none_yet, later, starting,
}
use web_framework.Thread.Locks.Order.{LockOrder, Code, actions, IsAbove, Fits, actions-Fits}

any-witness {ℓ} :
    {A : Type ℓ} (p : A → Bool) (ks : List A) → any p ks ≡ true → (k : A) × Memᴰ k ks × (p k ≡ true)
any-witness p [] has = cc
any-witness p (x ∷ ks) has = elim (Bool-cases (p x)) [
  | inl here ↦ (x, head refl, here)
  | inr other ↦ let (k, m, e) = any-witness p ks (ground arith) in (k, tail m, e)
]

All-Memᴰ {ℓ κ} : {A : Type ℓ} (P : A → Type κ) (ks : List A) (k : A) → All P ks → Memᴰ k ks → P k
All-Memᴰ P [] k all_of has = elim has [ ]
All-Memᴰ P (x ∷ ks) k (p, all_of) (head e) = subst P (sym e) p
All-Memᴰ P (x ∷ ks) k (p, all_of) (tail has) = All-Memᴰ P ks k all_of has

-- The calls that are yet to be made.
abbrev pub remaining : {L : Type 0} → List (Worker L) → ℕ
remaining ws = total (λ w. length w.rest) ws

module _ {L : Type 0} (o : LockOrder L) (p : Platform o.same) where
  abbrev pub AllFit : List (Worker L) → Type 0
  AllFit ws = (i : ℕ) (w : Worker L) → get_elem? ws i ≡ some w → Fits o w.held w.rest

  abbrev pub CanStep : List (Worker L) → Type 0
  CanStep ws = (vs : List (Worker L)) × Step p ws vs

  -- A lock that is not free is held by some thread.
  holder :
      (l : L) (ws : List (Worker L))
      → is_unheld o.same l ws ≡ false
      → (j : ℕ) × (u : Worker L) × (k : L × Mode) × (get_elem? ws j ≡ some u)
        × Memᴰ k u.held
        × (o.same l k.0 ≡ true)
  holder l [] taken = cc
  holder l (w ∷ ws) taken = elim (Bool-cases (any (λ k. o.same l k.0) w.held)) [
    | inl here ↦
        let (k, m, e) = any-witness (λ (k : L × Mode). o.same l k.0) w.held here in
        (0, w, k, refl, m, e)
    | inr elsewhere ↦
        let (j, u, k, at, m, e) = holder l ws (ground arith) in (suc j, u, k, at, m, e)
  ]

  -- A thread that gets the lock it wants takes a step.
  granted :
      (ws : List (Worker L)) (j : ℕ) (held : List (L × Mode)) (rest : List (Action L))
      (k : L × Mode)
      → get_elem? ws j ≡ some (record { held = held; rest = rest })
      → wants rest ≡ some k
      → p.may_take ws j k ≡ true
      → CanStep ws
  granted ws j held [] k at wanted may = cc
  granted ws j held (release l ∷ rest) k at wanted may = cc
  granted ws j held (acquire l m ∷ rest) k at wanted may =
      let this : (l, m) ≡ k = some-injective (l, m) k wanted in
      (_, takes j at (subst (λ h. p.may_take ws j h ≡ true) (sym this) may))

  -- The thread that is blocked waits for a lock of rank at least `top - n`.
  blocked :
      (n : ℕ) (ws : List (Worker L)) (i : ℕ) {l : L} {m : Mode} {held : List (L × Mode)}
      {rest : List (Action L)}
      → AllFit ws
      → get_elem? ws i ≡ some (record { held = held; rest = acquire l m ∷ rest })
      → o.top ≤ n + o.rank l
      → CanStep ws
  blocked zero ws i {l} fit at le = absurd (omega (arith, o.rank_lt l))
  blocked (suc n) ws i {l} {m} {held} {rest} fit at le = elim (Bool-cases (is_unheld o.same l ws)) [
    | inl unheld ↦
        let (j, u, k, at_j, wanted, one, may) = p.gives_unheld ws i _ (l, m) at refl unheld in
        granted ws j u.held u.rest k at_j wanted may
    | inr taken ↦
        let (j, u, k, at_j, has, one) = holder l ws taken in
        let rank = o.same_rank l k.0 one in
        by_rest j u.held u.rest at_j (fit j u at_j) k has rank
          (λ l' m' rest' at' lt. blocked n ws j fit at' (omega (arith, rank)))
  ]
    where
      by_rest :
          (j : ℕ) (held' : List (L × Mode)) (rest' : List (Action L))
          → get_elem? ws j ≡ some (record { held = held'; rest = rest' })
          → Fits o held' rest'
          → (k : L × Mode) → Memᴰ k held'
          → o.rank l ≡ o.rank k.0
          → ((l' : L) (m' : Mode) (rest'' : List (Action L))
              → get_elem? ws j ≡ some (record { held = held'; rest = acquire l' m' ∷ rest'' })
              → o.rank l < o.rank l'
              → CanStep ws)
          → CanStep ws
      by_rest j [] [] at_j fits k has rank next = elim has [ ]
      by_rest j (h ∷ hs) [] at_j fits k has rank next = absurd fits
      by_rest j held' (acquire l' m' ∷ rest') at_j (below, fits) k has rank next =
          next l' m' rest' at_j
            (omega (arith, rank, All-Memᴰ (λ h. o.rank h.0 < o.rank l') held' k below has))
      by_rest j held' (release l' ∷ rest') at_j fits k has rank next = (_, gives j at_j)

  unfinished :
      (ws : List (Worker L))
      → (all (λ w. is_empty w.rest) ws ≡ true)
        ⊎ ((i : ℕ) × (w : Worker L) × (get_elem? ws i ≡ some w) × (is_empty w.rest ≡ false))
  unfinished [] = inl refl
  unfinished (w ∷ ws) = elim (Bool-cases (is_empty w.rest)) [
    | inr more ↦ inr (0, w, refl, more)
    | inl over ↦ elim (unfinished ws) [
      | inl others ↦ inl (ground arith)
      | inr (i, u, at, more) ↦ inr (suc i, u, at, more)
    ]
  ]

  moves :
      (ws : List (Worker L)) (i : ℕ) (held : List (L × Mode)) (rest : List (Action L))
      → AllFit ws
      → get_elem? ws i ≡ some (record { held = held; rest = rest })
      → is_empty rest ≡ false
      → CanStep ws
  moves ws i held [] fit at more = cc
  moves ws i held (acquire l m ∷ rest) fit at more = blocked o.top ws i fit at (omega arith)
  moves ws i held (release l ∷ rest) fit at more = (_, gives i at)

  give_back-Fits :
      (l : L) (held : List (L × Mode)) (rest : List (Action L))
      → Fits o held (release l ∷ rest)
      → Fits o (give_back o.same l held) rest
  give_back-Fits l [] rest fits = absurd fits
  give_back-Fits l ((k, m) ∷ held) rest (e, fits) =
      let one : o.same l k ≡ true = subst (λ z. o.same l z ≡ true) (sym e) (o.same_self l) in
      rw one fits

  replaced :
      (ws : List (Worker L)) (i : ℕ) (v : Worker L)
      → AllFit ws
      → Fits o v.held v.rest
      → AllFit (set ws i v)
  replaced ws i v fit fits j w at = elim (get_elem?-set_cases ws i j v at) [
    | inl (e, same) ↦ subst (λ (u : Worker L). Fits o u.held u.rest) same fits
    | inr old ↦ fit j w old
  ]

  Step-AllFit : (ws vs : List (Worker L)) → AllFit ws → Step p ws vs → AllFit vs
  Step-AllFit ws vs fit (takes i {l} {m} {held} {rest} at free) = replaced ws i _ fit (fit i _ at).1
  Step-AllFit ws vs fit (gives i {l} {held} {rest} at) =
      replaced ws i _ fit (give_back-Fits l held rest (fit i _ at))

  Step-remaining : (ws vs : List (Worker L)) → Step p ws vs → remaining vs + 1 ≡ remaining ws
  Step-remaining ws vs (takes i {l} {m} {held} {rest} at free) =
      omega (
        arith,
        total-set (λ w. length w.rest) ws i (record { held = (l, m) ∷ held; rest = rest }) at,
      )
  Step-remaining ws vs (gives i {l} {held} {rest} at) = omega (
    arith,
    total-set (λ w. length w.rest) ws i (record { held = give_back o.same l held; rest = rest }) at,
  )

  Steps-AllFit :
      (ws : List (Worker L)) {n : ℕ} (vs : List (Worker L))
      → AllFit ws
      → Steps p ws n vs
      → AllFit vs × (remaining vs + n ≡ remaining ws)
  Steps-AllFit ws vs fit none_yet = (fit, omega arith)
  Steps-AllFit ws vs fit (later {us} run step) =
      let (fit', count) = Steps-AllFit ws us fit run in
      (Step-AllFit us vs fit' step, omega (arith, Step-remaining us vs step))

  starting-AllFit :
      (cs : List (Code L)) → All (IsAbove o 0) cs → AllFit (map (λ c. starting (actions c [])) cs)
  starting-AllFit [] above i w at = cc
  starting-AllFit (c ∷ cs) (a, above) zero w at =
      let e : starting (actions c []) ≡ w = cc in
      subst (λ (u : Worker L). Fits o u.held u.rest) e (actions-Fits o 0 c [] [] a tt tt)
  starting-AllFit (c ∷ cs) (a, above) (suc i) w at = starting-AllFit cs above i w at

  -- Threads that take their locks in the order of their ranks: however their calls on the locks
  -- interleave, in every state either each thread has made all its calls or some thread's next call
  -- returns; and as each step makes one of the calls, every run ends, with all of them made.
  pub never_stuck :
      (cs : List (Code L)) (n : ℕ) (ws : List (Worker L))
      → All (IsAbove o 0) cs
      → Steps p (map (λ c. starting (actions c [])) cs) n ws
      → (remaining ws + n ≡ remaining (map (λ c. starting (actions c [])) cs))
        × ((all (λ w. is_empty w.rest) ws ≡ true) ⊎ CanStep ws)
  never_stuck cs n ws above run =
      let (fit, count) = Steps-AllFit _ ws (starting-AllFit cs above) run in
      (
        count,
        elim (unfinished ws) [
          | inl over ↦ inl over
          | inr (i, w, at, more) ↦ inr (moves ws i w.held w.rest fit at more)
        ],
      )
