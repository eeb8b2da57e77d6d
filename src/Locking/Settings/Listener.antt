-- ===== src/Locking/Settings/Listener.antt =====
-- A listener that changes the listeners of its own variable (components/config.h).
use web_framework.Base.{
  ℕ, suc, ◌+◌, ◌≡◌, ◌≤◌, refl, Bool, true, false, List, ◌∷◌, ◌⊎◌, inl, inr, some, get_elem?, length,
  arith,
}
use mathlib.Core.List.{Memᴰ}
use mathlib.Core.List.Memᴰ.{head}
use web_framework.Thread.Locks.{
  Platform, wants, conflicts, Mode, shared, exclusive, Action, Worker, Steps, none_yet, later,
}
use web_framework.Thread.Locks.Order.{actions}
use web_framework.Thread.Locks.Blocked.{Step-waiting, Step-wanting, after_taking}
use web_framework.Locking.{Lock, variable, same, same_self}
use web_framework.Locking.Settings.{Listener, set_value_code, add_listener_code}

-- The calls of setValue on the locks, where the first listener calls addListener.
abbrev pub setting : ℕ → Bool → List Listener → List (Action Lock) → List (Action Lock)
setting v throws listeners more =
    actions (set_value_code v false ((add_listener_code v, throws) ∷ listeners)).0 more

module _ (p : Platform same) (v i : ℕ) (listeners : List Listener) (held : List (Lock × Mode))
    (more : List (Action Lock)) where
  abbrev at_start : Bool → Worker Lock
  at_start throws = record { held = held; rest = setting v throws listeners more }

  wants_first :
      (throws : Bool) → wants (setting v throws listeners more) ≡ some (variable v, shared)
  unfolding set_value_code actions add_listener_code
  wants_first true = refl
  wants_first false = refl

  abbrev in_listener : Bool → Worker Lock
  in_listener throws = after_taking held (setting v throws listeners more)

  wants_next : (throws : Bool) → wants (in_listener throws).rest ≡ some (variable v, exclusive)
  unfolding set_value_code actions add_listener_code
  wants_next true = refl
  wants_next false = refl

  holds_shared : (throws : Bool) → Memᴰ (variable v, shared) (in_listener throws).held
  unfolding set_value_code actions add_listener_code
  holds_shared true = head refl
  holds_shared false = head refl

  one_call :
      (throws : Bool) → length (at_start throws).rest ≡ suc (length (in_listener throws).rest)
  unfolding set_value_code actions add_listener_code
  one_call true = refl
  one_call false = refl

  first_call :
      (throws : Bool) (ws : List (Worker Lock)) {n : ℕ} (vs : List (Worker Lock))
      → get_elem? ws i ≡ some (at_start throws)
      → Steps p ws n vs
      → (get_elem? vs i ≡ some (at_start throws)) ⊎ (get_elem? vs i ≡ some (in_listener throws))
  first_call throws ws vs at none_yet = inl at
  first_call throws ws vs at (later {us} run step) = elim (first_call throws ws us at run) [
    | inl before ↦
        Step-wanting p i (at_start throws) (variable v, shared) us vs (wants_first throws) before
          step
    | inr inside ↦ inr (
        Step-waiting p i (in_listener throws) (variable v, exclusive) (variable v, shared) us vs
          (wants_next throws) (holds_shared throws) clash inside step)
  ]
    where
      clash : conflicts same (variable v, exclusive) (variable v, shared) ≡ true
      clash = rw (same_self (variable v)) refl

-- A thread that sets a variable to another value, while the variable's first listener calls
-- addListener on it, never comes out of setValue: whatever other threads do, at most one of its calls on
-- locks returns, that of rdlock in setValue.
pub listener_blocks :
    (p : Platform same) (v i : ℕ) (throws : Bool) (listeners : List Listener)
    (held : List (Lock × Mode)) (more : List (Action Lock)) (ws : List (Worker Lock)) (n : ℕ)
    (vs : List (Worker Lock))
    → get_elem? ws i ≡ some (record { held = held; rest = setting v throws listeners more })
    → Steps p ws n vs
    → (w : Worker Lock) × (get_elem? vs i ≡ some w)
      × (length (setting v throws listeners more) ≤ length w.rest + 1)
listener_blocks p v i throws listeners held more ws n vs at run =
    let count = one_call p v i listeners held more throws in
    elim (first_call p v i listeners held more throws ws vs at run) [
      | inl before ↦ (_, before, omega arith)
      | inr inside ↦ (_, inside, omega (arith, count))
    ]
