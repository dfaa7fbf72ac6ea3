-- ===== src/Base/Bits.antt =====
-- `&` and `|` at variables: an operation on two words split at bit `k` works on the two parts.
-- With it a mask is a remainder, and `|` of words with no bit in common is their sum.
mod Digits
use Digits.{bit_and_step, bit_or_step}
use Prim.Native.Nat.{ℕ, zero, suc, ◌+◌, ◌-◌, ◌*◌, ◌/◌, ◌%◌, ◌^◌, ◌≤◌, ◌<◌, bit_and, bit_or}
use mathlib.Core.Path.{◌≡◌, refl, ap, ◌∙◌}
use native.Mathlib.Nat.{pow-suc, one-le-pow}
use native.Mathlib.Omega.{arith}

mul-two-pow : (q k : ℕ) → q * 2 ^ suc k ≡ 2 * (q * 2 ^ k)
mul-two-pow q k = omega (arith, ap (λ (t : ℕ). q * t) (pow-suc 2 k))

-- By induction on a bound of the word that is halved.
pub bit_and-zero : (a : ℕ) → bit_and a 0 ≡ 0
bit_and-zero a = below a a (omega arith)
  where
    below : (n a : ℕ) → a ≤ n → bit_and a 0 ≡ 0
    below zero zero h = refl
    below zero (suc a) h = absurd (omega arith)
    below (suc n) zero h = refl
    below (suc n) (suc a) h =
        omega (arith, bit_and_step (suc a) 0, below n (suc a / 2) (omega arith))

pub bit_or-zero : (a : ℕ) → bit_or a 0 ≡ a
bit_or-zero a = below a a (omega arith)
  where
    below : (n a : ℕ) → a ≤ n → bit_or a 0 ≡ a
    below zero zero h = refl
    below zero (suc a) h = absurd (omega arith)
    below (suc n) zero h = refl
    below (suc n) (suc a) h =
        omega (arith, bit_or_step (suc a) 0, below n (suc a / 2) (omega arith))

pub zero-bit_or : (b : ℕ) → bit_or 0 b ≡ b
zero-bit_or b = below b b (omega arith)
  where
    below : (n b : ℕ) → b ≤ n → bit_or 0 b ≡ b
    below zero zero h = refl
    below zero (suc b) h = absurd (omega arith)
    below (suc n) zero h = refl
    below (suc n) (suc b) h =
        omega (arith, bit_or_step 0 (suc b), below n (suc b / 2) (omega arith))

-- `&` of two words split at bit `k`.
pub bit_and_split :
    (k p q s r : ℕ)
    → s < 2 ^ k
    → r < 2 ^ k
    → bit_and (p * 2 ^ k + s) (q * 2 ^ k + r) ≡ bit_and p q * 2 ^ k + bit_and s r
bit_and_split zero p q zero zero hs hr = ground (arith, bit_and-zero 0)
bit_and_split zero p q zero (suc r) hs hr = absurd (omega arith)
bit_and_split zero p q (suc s) r hs hr = absurd (omega arith)
bit_and_split (suc k) p q s r hs hr = ground (
  arith,
  bit_and_step (p * 2 ^ suc k + s) (q * 2 ^ suc k + r),
  bit_and_step s r,
  mul-two-pow p k,
  mul-two-pow q k,
  mul-two-pow (bit_and p q) k,
  pow-suc 2 k,
  bit_and_split k p q (s / 2) (r / 2),
)

-- `|` of two words split at bit `k`.
pub bit_or_split :
    (k p q s r : ℕ)
    → s < 2 ^ k
    → r < 2 ^ k
    → bit_or (p * 2 ^ k + s) (q * 2 ^ k + r) ≡ bit_or p q * 2 ^ k + bit_or s r
bit_or_split zero p q zero zero hs hr = ground (arith, bit_or-zero 0)
bit_or_split zero p q zero (suc r) hs hr = absurd (omega arith)
bit_or_split zero p q (suc s) r hs hr = absurd (omega arith)
bit_or_split (suc k) p q s r hs hr = ground (
  arith,
  bit_or_step (p * 2 ^ suc k + s) (q * 2 ^ suc k + r),
  bit_or_step s r,
  mul-two-pow p k,
  mul-two-pow q k,
  mul-two-pow (bit_or p q) k,
  pow-suc 2 k,
  bit_or_split k p q (s / 2) (r / 2),
)

-- A high field `|` a low field is their sum.
pub bit_or_high_low : (k q r : ℕ) → r < 2 ^ k → bit_or (q * 2 ^ k) r ≡ q * 2 ^ k + r
bit_or_high_low k q r h =
    ground (arith, bit_or_split k q 0 0 r (omega arith) h, bit_or-zero q, zero-bit_or r)

-- The same with the low field first.
pub bit_or_low_high : (k q r : ℕ) → r < 2 ^ k → bit_or r (q * 2 ^ k) ≡ q * 2 ^ k + r
bit_or_low_high k q r h =
    ground (arith, bit_or_split k 0 q r 0 h (omega arith), bit_or-zero r, zero-bit_or q)

-- A word that fits `k` bits is kept by the mask of `k` ones.
pub bit_and_ones : (k a : ℕ) → a < 2 ^ k → bit_and a (2 ^ k - 1) ≡ a
bit_and_ones zero zero h = refl
bit_and_ones zero (suc a) h = absurd (omega arith)
bit_and_ones (suc k) a h =
    ground
      (arith, bit_and_step a (2 ^ suc k - 1), pow-suc 2 k, one-le-pow k 2, bit_and_ones k (a / 2))

-- `&` with a word of `k` bits, and `|` of two of them, have `k` bits.
pub bit_and-bound : (k a b : ℕ) → b < 2 ^ k → bit_and a b < 2 ^ k
bit_and-bound zero a zero h = omega (arith, bit_and-zero a)
bit_and-bound zero a (suc b) h = absurd (omega arith)
bit_and-bound (suc k) a b h = omega (
  arith,
  bit_and_step a b,
  pow-suc 2 k,
  bit_and-bound k (a / 2) (b / 2) (omega (arith, h, pow-suc 2 k)),
)

pub bit_or-bound : (k a b : ℕ) → a < 2 ^ k → b < 2 ^ k → bit_or a b < 2 ^ k
bit_or-bound zero zero zero g h = omega (arith, bit_or-zero 0)
bit_or-bound zero zero (suc b) g h = absurd (omega arith)
bit_or-bound zero (suc a) b g h = absurd (omega arith)
bit_or-bound (suc k) a b g h = omega (
  arith,
  bit_or_step a b,
  pow-suc 2 k,
  bit_or-bound k (a / 2) (b / 2) (omega (arith, g, pow-suc 2 k)) (omega (arith, h, pow-suc 2 k)),
)
