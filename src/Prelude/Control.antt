-- ===== src/Prelude/Control.antt =====
-- The conditional, and splits on computed values that keep the equation.
use mathlib.Core.Path.{◌≡◌, refl}
use Prim.Native.Nat.{ℕ, zero, suc, ◌<◌}
use native.Mathlib.Omega.{arith}
use mathlib.Core.Logic.{◌↔◌, ◌⊎◌, inl, inr}
use mathlib.Core.Bool.{Bool, true, false}
use mathlib.Core.Option.{Option, none, some}

infix 1 if◌then◌else◌
abbrev pub if◌then◌else◌ {ℓ} : {A : Type ℓ} → Bool → A → A → A
if true then x else y = x
if false then x else y = y

pub Bool-cases : (b : Bool) → (b ≡ true) ⊎ (b ≡ false)
Bool-cases true = inl refl
Bool-cases false = inr refl

pub Option-cases {ℓ} : {A : Type ℓ} (o : Option A) → (o ≡ none) ⊎ ((a : A) × (o ≡ some a))
Option-cases none = inl refl
Option-cases (some a) = inr (a, refl)

abbrev pub is_some {ℓ} : {A : Type ℓ} → Option A → Bool
is_some none = false
is_some (some a) = true

-- `a < b`.
abbrev pub ltb : ℕ → ℕ → Bool
ltb a zero = false
ltb zero (suc b) = true
ltb (suc a) (suc b) = ltb a b

pub ltb_iff : (a b : ℕ) → (ltb a b ≡ true) ↔ (a < b)
ltb_iff a zero = (λ h. cc, λ h. absurd (omega arith))
ltb_iff zero (suc b) = (λ h. omega arith, λ h. refl)
ltb_iff (suc a) (suc b) =
    (λ h. omega (arith, (ltb_iff a b).0 h), λ h. (ltb_iff a b).1 (omega arith))
