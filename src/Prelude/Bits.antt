-- ===== src/Prelude/Bits.antt =====
-- `|` on numbers whose bits lie apart.
use Prim.Native.Nat.{
  ℕ, zero, suc, ◌+◌, ◌*◌, ◌/◌, ◌%◌, ◌^◌, ◌≤◌, ◌<◌, max, digits, bit_or, bit_or-bitwise,
}
use mathlib.Core.Path.{◌≡◌, refl, sym}
use native.Mathlib.Omega.{arith}
use native.Mathlib.Nat.{pow-suc, mul_assoc}

abbrev or_digits : ℕ → ℕ → ℕ → ℕ
or_digits = digits (λ b. b) max

-- Any fuel from the first number on will do.
or_digits-enough : (a n m b : ℕ) → a ≤ n → a ≤ m → or_digits n a b ≡ or_digits m a b
or_digits-enough zero zero zero b p q = refl
or_digits-enough zero zero (suc m) b p q = refl
or_digits-enough zero (suc n) zero b p q = refl
or_digits-enough zero (suc n) (suc m) b p q = refl
or_digits-enough (suc a) zero m b p q = absurd (omega arith)
or_digits-enough (suc a) (suc n) zero b p q = absurd (omega arith)
or_digits-enough (suc a) (suc n) (suc m) b p q =
    omega (arith, or_digits-enough (suc a / 2) n m (b / 2) (omega arith) (omega arith))

bit_or-halves : (a b : ℕ) → bit_or a b ≡ bit_or (a / 2) (b / 2) * 2 + max (a % 2) (b % 2)
bit_or-halves zero b = omega (arith, bit_or-bitwise 0 b, bit_or-bitwise 0 (b / 2))
bit_or-halves (suc a) b = omega (
  arith,
  bit_or-bitwise (suc a) b,
  bit_or-bitwise (suc a / 2) (b / 2),
  or_digits-enough (suc a / 2) a (suc a / 2) (b / 2) (omega arith) (omega arith),
)

-- Where the first number has only bits below those of the second, `|` adds.
pub bit_or-add : (k a b : ℕ) → a < 2 ^ k → bit_or a (b * 2 ^ k) ≡ a + b * 2 ^ k
bit_or-add zero a b h =
    let none_set : a ≡ 0 = omega arith in rw none_set (omega (arith, bit_or-bitwise 0 (b * 1)))
bit_or-add (suc k) a b h =
    let even : b * 2 ^ suc k ≡ b * 2 ^ k * 2 = simp pow-suc (sym (mul_assoc b (2 ^ k) 2)) in
    let half : b * 2 ^ suc k / 2 ≡ b * 2 ^ k = omega (arith, even) in
    rw (bit_or-halves a (b * 2 ^ suc k), half, bit_or-add k (a / 2) b (omega (arith, pow-suc 2 k)))
      (omega (arith, even))
