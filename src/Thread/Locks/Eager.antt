-- ===== src/Thread/Locks/Eager.antt =====
-- A platform that gives a lock to whoever asks first, as soon as it is free.
use web_framework.Base.{◌≡◌, refl, Bool, true, false, List, [], ◌∷◌, any, arith}
use web_framework.Thread.Locks.{Mode, Worker, conflicts, is_free, is_unheld, Platform}

module _ {L : Type 0} (same : L → L → Bool) where
  conflicts_le :
      (l : L) (m : Mode) (held : List (L × Mode))
      → any (λ k. same l k.0) held ≡ false
      → any (conflicts same (l, m)) held ≡ false
  conflicts_le l m [] none_held = refl
  conflicts_le l m ((k, n) ∷ held) none_held =
      let rest : any (λ x. same l x.0) held ≡ false = ground arith in
      ground (arith, conflicts_le l m held rest)

  pub is_unheld-is_free :
      (l : L) (m : Mode) (ws : List (Worker L))
      → is_unheld same l ws ≡ true
      → is_free same (l, m) ws ≡ true
  is_unheld-is_free l m [] unheld = refl
  is_unheld-is_free l m (w ∷ ws) unheld =
      let here : any (λ x. same l x.0) w.held ≡ false = ground arith in
      ground (arith, conflicts_le l m w.held here, is_unheld-is_free l m ws (ground arith))

  abbrev pub eager : ((l : L) → same l l ≡ true) → Platform same
  eager self = record {
    may_take = λ ws i h. is_free same h ws;
    takes_free = λ ws i h e. e;
    gives_unheld = λ ws i w h at wanted unheld.
        (i, w, h, at, wanted, self h.0, is_unheld-is_free h.0 h.1 ws unheld);
  }
