-- ===== src/Thread/Locks/Blocked.antt =====
-- A thread that takes a lock which it holds itself (components/thread.h).
use web_framework.Base.{
  ℕ, ◌≡◌, sym, ap, ◌∙◌, subst, Bool, true, List, ◌∷◌, none, some, get_elem?, get_elem?-set_read,
  inl, inr, ◌⊎◌, ◌⊎◌,
}
use mathlib.Core.List.{Memᴰ}
use mathlib.Core.Option.{some-injective}
use web_framework.Thread.Locks.{
  Mode, Action, acquire, Worker, conflicts, give_back, Step, takes, gives, Platform, wants,
}
use web_framework.Thread.Locks.Exclusion.{is_free-Memᴰ}

same_worker :
    {L : Type 0} (i : ℕ) (w : Worker L) (ws : List (Worker L)) (j : ℕ) (u : Worker L)
    → j ≡ i
    → get_elem? ws j ≡ some u
    → get_elem? ws i ≡ some w
    → u ≡ w
same_worker i w ws j u e at_j at = some-injective u w (sym at_j ∙ ap (get_elem? ws) e ∙ at)

module _ {L : Type 0} {same : L → L → Bool} (p : Platform same) (i : ℕ) (w : Worker L)
    (h k : L × Mode) where
  -- A thread that takes a lock in a mode that conflicts with one in which it holds it goes on waiting.
  pub Step-waiting :
      (ws vs : List (Worker L))
      → wants w.rest ≡ some h
      → Memᴰ k w.held
      → conflicts same h k ≡ true
      → get_elem? ws i ≡ some w
      → Step p ws vs
      → get_elem? vs i ≡ some w
  Step-waiting ws vs wanted has clash at (takes j {l} {m} {held} {rest} at_j free) =
      elim (get_elem?-set_read ws j i (record { held = (l, m) ∷ held; rest = rest }) at) [
        | inr kept ↦ kept
        | inl (e, changed) ↦
            let this : (l, m) ≡ h =
              some-injective (l, m) h
                (ap (λ z. wants z.rest) (same_worker i w ws j _ e at_j at) ∙ wanted) in
            let granted = p.takes_free ws j (l, m) free in
            let clear = is_free-Memᴰ same (l, m) ws i k granted at has in
            let clash' : conflicts same (l, m) k ≡ true =
              subst (λ z. conflicts same z k ≡ true) (sym this) clash in
            absurd (cc)
      ]
  Step-waiting ws vs wanted has clash at (gives j {l} {held} {rest} at_j) =
      elim (get_elem?-set_read ws j i (record { held = give_back same l held; rest = rest }) at) [
        | inr kept ↦ kept
        | inl (e, changed) ↦
            let none_wanted : none ≡ some h =
              ap (λ z. wants z.rest) (same_worker i w ws j _ e at_j at) ∙ wanted in
            cc
      ]

-- The thread once its next call, which takes a lock, has returned.
abbrev pub after_taking : {L : Type 0} → List (L × Mode) → List (Action L) → Worker L
after_taking held (acquire l m ∷ rest) = record { held = (l, m) ∷ held; rest = rest }
after_taking held rest = record { held = held; rest = rest }

module _ {L : Type 0} {same : L → L → Bool} (p : Platform same) (i : ℕ) (w : Worker L)
    (h : L × Mode) where
  -- A step leaves a thread that wants a lock as it is, or gives it that lock.
  pub Step-wanting :
      (ws vs : List (Worker L))
      → wants w.rest ≡ some h
      → get_elem? ws i ≡ some w
      → Step p ws vs
      → (get_elem? vs i ≡ some w) ⊎ (get_elem? vs i ≡ some (after_taking w.held w.rest))
  Step-wanting ws vs wanted at (takes j {l} {m} {held} {rest} at_j free) =
      elim (get_elem?-set_read ws j i (record { held = (l, m) ∷ held; rest = rest }) at) [
        | inr kept ↦ inl kept
        | inl (e, changed) ↦ inr (
            changed
            ∙ ap (λ z. some (after_taking z.held z.rest)) (same_worker i w ws j _ e at_j at))
      ]
  Step-wanting ws vs wanted at (gives j {l} {held} {rest} at_j) =
      elim (get_elem?-set_read ws j i (record { held = give_back same l held; rest = rest }) at) [
        | inr kept ↦ inl kept
        | inl (e, changed) ↦
            let none_wanted : none ≡ some h =
              ap (λ z. wants z.rest) (same_worker i w ws j _ e at_j at) ∙ wanted in
            cc
      ]
