-- ===== src/Base/Picks.antt =====
-- One element taken out of a list.
use Prim.Native.Nat.{ℕ, zero, suc}
use mathlib.Core.Path.{◌≡◌, refl}
use mathlib.Core.List.{List, [], ◌∷◌}
use mathlib.Core.Option.{Option, none, some}
use native.Mathlib.Omega.{arith}
use mini_async_runtime.Base.Lists.{length}

-- One element, and the others.
abbrev pub Pick : Type 0 → Type 0
Pick A = Option (A × List A)

unfoldable pub skip : {A : Type 0} → A → Pick A → Pick A
skip x none = none
skip x (some (y, ys)) = some (y, x ∷ ys)

-- The element at a place.
unfoldable pub take_at : {A : Type 0} → ℕ → List A → Pick A
unfolding skip
take_at i [] = none
take_at zero (x ∷ xs) = some (x, xs)
take_at (suc i) (x ∷ xs) = skip x (take_at i xs)

-- `Takes xs y ys`: `xs` is `y` at some place, among `ys`.
pub data Takes {A : Type 0} : List A → A → List A → Type 0 where
  front : {x : A} {xs : List A} → Takes (x ∷ xs) x xs
  later : {x y : A} {xs ys : List A} → Takes xs y ys → Takes (x ∷ xs) y (x ∷ ys)

abbrev pub TakesAt : {A : Type 0} → List A → Pick A → Type 0
TakesAt xs none = Unit
TakesAt xs (some (y, ys)) = Takes xs y ys

skip-TakesAt :
    {A : Type 0} (x : A) (xs : List A) (t : Pick A) → TakesAt xs t → TakesAt (x ∷ xs) (skip x t)
unfolding skip
skip-TakesAt x xs none h = tt
skip-TakesAt x xs (some (y, ys)) h = later h

pub take_at-Takes : {A : Type 0} (i : ℕ) (xs : List A) → TakesAt xs (take_at i xs)
unfolding take_at
take_at-Takes i [] = tt
take_at-Takes zero (x ∷ xs) = front
take_at-Takes (suc i) (x ∷ xs) = skip-TakesAt x xs (take_at i xs) (take_at-Takes i xs)

pub Takes-length :
    {A : Type 0} {xs ys : List A} {y : A} → Takes xs y ys → length xs ≡ suc (length ys)
Takes-length front = refl
Takes-length (later t) = ground (arith, Takes-length t)
