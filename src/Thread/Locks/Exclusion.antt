-- ===== src/Thread/Locks/Exclusion.antt =====
-- What may be held while a lock is free (components/thread.h).
use web_framework.Base.{
  ℕ, zero, suc, ◌≡◌, sym, ap, ◌∙◌, Bool, true, false, List, [], ◌∷◌, any, some, get_elem?, arith,
}
use mathlib.Core.List.{Memᴰ}
use mathlib.Core.List.Memᴰ.{head, tail}
use web_framework.Thread.Locks.{Mode, Worker, conflicts, is_free}

any-Memᴰ {ℓ} :
    {A : Type ℓ} (p : A → Bool) (ks : List A) {k : A} → any p ks ≡ false → Memᴰ k ks → p k ≡ false
any-Memᴰ p [] free has = elim has [ ]
any-Memᴰ p (x ∷ ks) free (head e) = ap p e ∙ ground arith
any-Memᴰ p (x ∷ ks) free (tail has) = any-Memᴰ p ks (ground arith) has

module _ {L : Type 0} (same : L → L → Bool) where
  pub is_free-Memᴰ :
      (h : L × Mode) (ws : List (Worker L)) (j : ℕ) {u : Worker L} (k : L × Mode)
      → is_free same h ws ≡ true
      → get_elem? ws j ≡ some u
      → Memᴰ k u.held
      → conflicts same h k ≡ false
  is_free-Memᴰ h [] j k free at has = cc
  is_free-Memᴰ h (w ∷ ws) zero {u} k free at has =
      let e : w ≡ u = cc in any-Memᴰ (conflicts same h) u.held (rw (sym e) (ground arith)) has
  is_free-Memᴰ h (w ∷ ws) (suc j) k free at has = is_free-Memᴰ h ws j k (ground arith) at has
