-- ===== src/Base/Orders.antt =====
-- Two lists with the same elements, in any order.
use mathlib.Core.List.{List, [], ◌∷◌, ◌++◌}

pub data Permutes {ℓ} {A : Type ℓ} : List A → List A → Type ℓ where
  none_left : Permutes [] []
  keeps : (x : A) {xs ys : List A} → Permutes xs ys → Permutes (x ∷ xs) (x ∷ ys)
  swaps : (x y : A) (xs : List A) → Permutes (x ∷ y ∷ xs) (y ∷ x ∷ xs)
  follows : {xs ys zs : List A} → Permutes xs ys → Permutes ys zs → Permutes xs zs

module _ {ℓ} {A : Type ℓ} where
  pub Permutes-refl : (xs : List A) → Permutes xs xs
  Permutes-refl [] = none_left
  Permutes-refl (x ∷ xs) = keeps x (Permutes-refl xs)

  pub Permutes-sym : {xs ys : List A} → Permutes xs ys → Permutes ys xs
  Permutes-sym none_left = none_left
  Permutes-sym (keeps x p) = keeps x (Permutes-sym p)
  Permutes-sym (swaps x y xs) = swaps y x xs
  Permutes-sym (follows p q) = follows (Permutes-sym q) (Permutes-sym p)

  pub Permutes-append :
      (zs : List A) {xs ys : List A} → Permutes xs ys → Permutes (zs ++ xs) (zs ++ ys)
  Permutes-append [] p = p
  Permutes-append (z ∷ zs) p = keeps z (Permutes-append zs p)

  pub Permutes-snoc : (x : A) (xs : List A) → Permutes (x ∷ xs) (xs ++ x ∷ [])
  Permutes-snoc x [] = keeps x none_left
  Permutes-snoc x (y ∷ xs) = follows (swaps x y xs) (keeps y (Permutes-snoc x xs))
