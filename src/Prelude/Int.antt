-- ===== src/Prelude/Int.antt =====
-- Go's `int`, as an integer. `negsuc n` is -(n + 1).
use keyring.Prelude.{ℕ, ◌≡◌, ◌≢◌, ◌↔◌, Bool, false, arith, refl, ◌==◌, nat_eq}

pub data ℤ : Type 0 where
  pos : ℕ → ℤ
  negsuc : ℕ → ℤ

pub is_zero : ℤ → Bool
is_zero (pos n) = n == 0
is_zero (negsuc n) = false

pub is_zero_iff : (x : ℤ) → (is_zero x ≡ false) ↔ (x ≢ pos 0)
unfolding is_zero
is_zero_iff (pos n) = (λ h e. ground arith, λ h. ground arith)
is_zero_iff (negsuc n) = (λ h e. ground arith, λ h. refl)
