-- ===== src/Waker/Holding.antt =====
-- `std::task::Waker`: the wakers that a program holds, and one taken out of them.
use mini_async_runtime.Base.{
  Pick, skip, take_at, Takes, front, later, ℕ, zero, suc, ◌≡◌, none, some, List, [], ◌∷◌, lookup,
  if◌then◌else◌, ◌==◌, ==_iff, refl, arith,
}
use mini_async_runtime.Waker.{Held}

abbrev pub ids : Held → List ℕ
ids [] = []
ids ((p, id) ∷ ws) = id ∷ ids ws

-- The tasks of what is picked.
abbrev pub pick_ids : Pick (ℕ × ℕ) → Pick ℕ
pick_ids none = none
pick_ids (some ((p, id), rest)) = some (id, ids rest)

skip-ids : (w : ℕ × ℕ) (t : Pick (ℕ × ℕ)) → skip (w.1) (pick_ids t) ≡ pick_ids (skip w t)
unfolding skip
skip-ids w none = refl
skip-ids w (some t) = refl

pub take_at-ids : (i : ℕ) (ws : Held) → take_at i (ids ws) ≡ pick_ids (take_at i ws)
unfolding take_at
take_at-ids i [] = refl
take_at-ids zero (w ∷ ws) = refl
take_at-ids (suc i) (w ∷ ws) = rw (take_at-ids i ws, skip-ids w (take_at i ws))

-- No two wakers have the same pointer.
abbrev pub Distinct : Held → Type 0
Distinct [] = Unit
Distinct ((p, id) ∷ ws) = (lookup p ws ≡ none) × Distinct ws

pub Takes-lookup :
    {ws rest : Held} {w : ℕ × ℕ}
    → Distinct ws
    → Takes ws w rest
    → (Distinct rest
        × (lookup (w.0) ws ≡ some (w.1))
        × ((j : ℕ) → lookup j rest ≡ (if w.0 == j then none else lookup j ws)))
unfolding lookup
Takes-lookup d front = (d.1, ground arith, λ j. ground (arith, ==_iff _ j))
Takes-lookup d (later {x} {y} t) =
    let (distinct, found, others) = Takes-lookup (d.1) t in
    (
      (ground (arith, others (x.0), d.0), distinct),
      ground arith,
      λ j. ground (arith, others j, d.0, found, ==_iff (x.0) j, ==_iff (y.0) j),
    )
