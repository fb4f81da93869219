-- ===== src/Runtime/Sleeping/Clock.antt =====
-- src/runtime.rs, `block_on` of a future that sleeps: a clock that never goes back.
use mini_async_runtime.Base.{ℕ, zero, suc, ◌≤◌, arith}

-- The state after `n` readings of the clock.
abbrev pub after : {U : Type 0} → (U → U × ℕ) → ℕ → U → U
after instant_now zero u = u
after instant_now (suc n) u = after instant_now n (instant_now u).0

module _ {U : Type 0} (instant_now : U → U × ℕ) where
  -- From `u'` on, each reading is at least what it is one reading further on from `u`.
  abbrev pub Later : U → U → Type 0
  Later u u' =
      (m : ℕ)
      → (instant_now (after instant_now (suc m) u)).1 ≤ (instant_now (after instant_now m u')).1

  module _ (advances : (u : U) → (instant_now u).1 ≤ (instant_now (instant_now u).0).1) where
    pub after-advances :
        (m : ℕ) (u : U)
        → (instant_now (after instant_now m u)).1
          ≤ (instant_now (after instant_now m (instant_now u).0)).1
    after-advances zero u = advances u
    after-advances (suc m) u = after-advances m (instant_now u).0

    not_before : (m : ℕ) (u : U) → (instant_now u).1 ≤ (instant_now (after instant_now m u)).1
    not_before zero u = omega arith
    not_before (suc m) u = omega (arith, advances u, not_before m (instant_now u).0)

    pub after_mono :
        (k m : ℕ) (u : U)
        → k ≤ m
        → (instant_now (after instant_now k u)).1 ≤ (instant_now (after instant_now m u)).1
    after_mono zero m u le = not_before m u
    after_mono (suc k) zero u le = absurd (omega arith)
    after_mono (suc k) (suc m) u le = after_mono k m (instant_now u).0 (omega arith)
