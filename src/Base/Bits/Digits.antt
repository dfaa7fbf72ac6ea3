-- ===== src/Base/Bits/Digits.antt =====
-- The lowest binary digit of `&` and `|`, from the recursion that the native operations stand for.
use Prim.Native.Nat.{
  ℕ, zero, suc, ◌+◌, ◌*◌, ◌/◌, ◌%◌, ◌≤◌, min, max, bit_and, bit_or, digits, bit_and-bitwise,
  bit_or-bitwise,
}
use mathlib.Core.Path.{◌≡◌, refl, ap}
use native.Mathlib.Omega.{arith}

module _ (z : ℕ → ℕ) (f : ℕ → ℕ → ℕ) where
  -- Any fuel that covers the first word gives one result.
  digits_irrelevant : (m n a b : ℕ) → a ≤ m → a ≤ n → digits z f m a b ≡ digits z f n a b
  digits_irrelevant zero zero a b h k = refl
  digits_irrelevant (suc m) zero zero b h k = refl
  digits_irrelevant (suc m) zero (suc a) b h k = absurd (omega arith)
  digits_irrelevant zero (suc n) zero b h k = refl
  digits_irrelevant zero (suc n) (suc a) b h k = absurd (omega arith)
  digits_irrelevant (suc m) (suc n) zero b h k = refl
  digits_irrelevant (suc m) (suc n) (suc a) b h k =
      ap (λ t. t * 2 + f (suc a % 2) (b % 2))
        (digits_irrelevant m n (suc a / 2) (b / 2) (omega arith) (omega arith))

  digits_shrink :
      (a b : ℕ)
      → digits z f (suc a) (suc a) b
        ≡ digits z f (suc a / 2) (suc a / 2) (b / 2) * 2 + f (suc a % 2) (b % 2)
  digits_shrink a b =
      ap (λ t. t * 2 + f (suc a % 2) (b % 2))
        (digits_irrelevant a (suc a / 2) (suc a / 2) (b / 2) (omega arith) (omega arith))

pub bit_and_step : (a b : ℕ) → bit_and a b ≡ bit_and (a / 2) (b / 2) * 2 + min (a % 2) (b % 2)
bit_and_step zero b = omega (arith, bit_and-bitwise 0 b, bit_and-bitwise 0 (b / 2))
bit_and_step (suc a) b = omega (
  arith,
  bit_and-bitwise (suc a) b,
  bit_and-bitwise (suc a / 2) (b / 2),
  digits_shrink (λ y. 0) min a b,
)

pub bit_or_step : (a b : ℕ) → bit_or a b ≡ bit_or (a / 2) (b / 2) * 2 + max (a % 2) (b % 2)
bit_or_step zero b = omega (arith, bit_or-bitwise 0 b, bit_or-bitwise 0 (b / 2))
bit_or_step (suc a) b = omega (
  arith,
  bit_or-bitwise (suc a) b,
  bit_or-bitwise (suc a / 2) (b / 2),
  digits_shrink (λ y. y) max a b,
)
