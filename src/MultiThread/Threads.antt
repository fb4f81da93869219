-- ===== src/MultiThread/Threads.antt =====
-- How many of the first `n` threads stand at a place, as one of them moves.
use mini_async_runtime.Base.{
  ℕ, zero, suc, ◌+◌, ◌≤◌, ◌<◌, ◌≡◌, refl, Bool, true, false, if◌then◌else◌, ◌==◌, ltb, ◌||◌, ==_iff,
  arith, Bool-cases, inl, inr,
}

module _ {ℓ} {A : Type ℓ} where
  abbrev pub update : (ℕ → A) → ℕ → A → ℕ → A
  update pc i p j = if i == j then p else pc j

  pub count : (A → Bool) → ℕ → (ℕ → A) → ℕ
  count at zero pc = 0
  count at (suc n) pc = (if at (pc n) then 1 else 0) + count at n pc

  count-update_late :
      (at : A → Bool) (n : ℕ) (pc : ℕ → A) (i : ℕ) (p : A)
      → n ≤ i
      → count at n (update pc i p) ≡ count at n pc
  unfolding count
  count-update_late at zero pc i p le = refl
  count-update_late at (suc n) pc i p le = ground (arith, count-update_late at n pc i p)

  -- One place loses the thread that moves, the other gains it.
  pub count-update :
      (at : A → Bool) (n : ℕ) (pc : ℕ → A) (i : ℕ) (p : A)
      → i < n
      → count at n (update pc i p) + (if at (pc i) then 1 else 0)
        ≡ count at n pc + (if at p then 1 else 0)
  unfolding count
  count-update at zero pc i p lt = absurd (omega arith)
  count-update at (suc n) pc i p lt = elim (Bool-cases (i == n)) [
    | inl last ↦ ground (arith, ==_iff i n, count-update_late at n pc i p)
    | inr below ↦ ground (arith, count-update at n pc i p)
  ]

  pub count-pos :
      (at : A → Bool) (n : ℕ) (pc : ℕ → A) (i : ℕ) → i < n → at (pc i) ≡ true → 0 < count at n pc
  unfolding count
  count-pos at zero pc i lt h = absurd (omega arith)
  count-pos at (suc n) pc i lt h = ground (arith, ==_iff i n, count-pos at n pc i)

  -- Two threads at a place count twice.
  pub count-two :
      (at : A → Bool) (n : ℕ) (pc : ℕ → A) (i j : ℕ)
      → i < j
      → j < n
      → at (pc i) ≡ true
      → at (pc j) ≡ true
      → 1 < count at n pc
  unfolding count
  count-two at zero pc i j lt lt' h k = absurd (omega arith)
  count-two at (suc n) pc i j lt lt' h k =
      ground (arith, ==_iff j n, count-two at n pc i j, count-pos at n pc i)

  pub count-some :
      (at : A → Bool) (n : ℕ) (pc : ℕ → A)
      → 0 < count at n pc
      → (i : ℕ) × (i < n) × (at (pc i) ≡ true)
  unfolding count
  count-some at zero pc h = absurd (omega arith)
  count-some at (suc n) pc h = elim (Bool-cases (at (pc n))) [
    | inl here ↦ (n, omega arith, here)
    | inr elsewhere ↦
        let (i, lt, found) = count-some at n pc (ground arith) in (i, omega arith, found)
  ]

  pub count_mono :
      (at by : A → Bool) (n : ℕ) (pc : ℕ → A)
      → ((p : A) → at p ≡ true → by p ≡ true)
      → count at n pc ≤ count by n pc
  unfolding count
  count_mono at by zero pc sub = omega arith
  count_mono at by (suc n) pc sub = ground (arith, sub (pc n), count_mono at by n pc sub)

  pub count-none : (at : A → Bool) (n : ℕ) (p : A) → at p ≡ false → count at n (λ _. p) ≡ 0
  unfolding count
  count-none at zero p h = refl
  count-none at (suc n) p h = ground (arith, count-none at n p h)

  count-all :
      (at : A → Bool) (n k : ℕ) (p q : A)
      → n ≤ k
      → count at n (λ i. if ltb i k then p else q) ≡ (if at p then n else 0)
  unfolding count
  count-all at zero k p q le = ground arith
  count-all at (suc n) k p q le = ground (arith, count-all at n k p q)

  -- The first threads stand at one place, the others at another.
  pub count-first :
      (at : A → Bool) (n k : ℕ) (p q : A)
      → k ≤ n
      → at q ≡ false
      → count at n (λ i. if ltb i k then p else q) ≡ (if at p then k else 0)
  unfolding count
  count-first at zero k p q le h = ground arith
  count-first at (suc n) k p q le h = ground (arith, count-first at n k p q, count-all at n k p q)

  pub count_or :
      (at by : A → Bool) (n : ℕ) (pc : ℕ → A)
      → count (λ p. at p || by p) n pc ≤ count at n pc + count by n pc
  unfolding count
  count_or at by zero pc = omega arith
  count_or at by (suc n) pc = ground (arith, count_or at by n pc)
