-- ===== src/Base/Tests.antt =====
-- Boolean tests on the native numbers, the conditional, and case splits that keep the equation.
use Prim.Native.Nat.{ℕ, ◌^◌, compare, Ordering}
use mathlib.Core.Path.{◌≡◌, refl, sym, subst}
use mathlib.Core.Logic.{◌↔◌, ◌⊎◌, inl, inr}
use mathlib.Core.Bool.{Bool, true, false}
use mathlib.Core.Option.{Option, none, some}
use native.Mathlib.Omega.{arith}

abbrev pub ltb : ℕ → ℕ → Bool
ltb a b = elim (compare a b) [ Ordering.lt ↦ true | _ ↦ false ]

abbrev pub leb : ℕ → ℕ → Bool
leb a b = elim (compare a b) [ Ordering.gt ↦ false | _ ↦ true ]

infix 50 ◌==◌
abbrev pub ◌==◌ : ℕ → ℕ → Bool
a == b = elim (compare a b) [ Ordering.eq ↦ true | _ ↦ false ]

infix 1 if◌then◌else◌
abbrev pub if◌then◌else◌ {ℓ} : {A : Type ℓ} → Bool → A → A → A
if true then x else y = x
if false then x else y = y

pub ==_iff : (a b : ℕ) → ((a == b) ≡ true) ↔ (a ≡ b)
==_iff a b = ground arith

pub Bool-cases : (b : Bool) → (b ≡ true) ⊎ (b ≡ false)
Bool-cases true = inl refl
Bool-cases false = inr refl

pub Option-cases {ℓ} : {A : Type ℓ} (o : Option A) → (o ≡ none) ⊎ ((a : A) × (o ≡ some a))
Option-cases none = inl refl
Option-cases (some a) = inr (a, refl)

-- The number of values of a `usize` on the 64-bit targets that `libc::epoll` has.
abbrev pub usize_mod : ℕ
usize_mod = 2 ^ 64

-- A property of the branch that is taken is one of the conditional.
pub by-true {ℓ κ} :
    {A : Type ℓ} (P : A → Type κ) {b : Bool} {x : A} (y : A)
    → b ≡ true
    → P x
    → P (if b then x else y)
by-true P {b} {x} y e h = subst (λ c. P (if c then x else y)) (sym e) h

pub by-false {ℓ κ} :
    {A : Type ℓ} (P : A → Type κ) {b : Bool} (x : A) {y : A}
    → b ≡ false
    → P y
    → P (if b then x else y)
by-false P {b} x {y} e h = subst (λ c. P (if c then x else y)) (sym e) h
