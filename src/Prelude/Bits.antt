-- ===== src/Prelude/Bits.antt =====
-- The bit operations by their lowest digit.
use Prim.Native.Nat.{
  ℕ, zero, suc, ◌+◌, ◌-◌, ◌*◌, ◌/◌, ◌%◌, ◌≤◌, ◌<◌, max, min, differ, digits, bit_and,
  bit_and-bitwise, bit_or, bit_xor, bit_or-bitwise, bit_xor-bitwise,
}
use mathlib.Core.Path.{◌≡◌, refl, ap, ◌∙◌}
use native.Mathlib.Omega.{arith}

module _ (z : ℕ → ℕ) (f : ℕ → ℕ → ℕ) where
  -- Fuel that the first number does not need makes no difference.
  enough_fuel : (n m a b : ℕ) → a ≤ n → a ≤ m → digits z f n a b ≡ digits z f m a b
  enough_fuel zero zero a b h k = refl
  enough_fuel zero (suc m) zero b h k = refl
  enough_fuel (suc n) zero zero b h k = refl
  enough_fuel (suc n) (suc m) zero b h k = refl
  enough_fuel zero m (suc a) b h k = absurd (omega arith)
  enough_fuel (suc n) zero (suc a) b h k = absurd (omega arith)
  enough_fuel (suc n) (suc m) (suc a) b h k =
      ap (λ d. d * 2 + f (suc a % 2) (b % 2))
        (enough_fuel n m (suc a / 2) (b / 2) (omega arith) (omega arith))

  low_digit :
      (a b : ℕ)
      → digits z f (suc a) (suc a) b
        ≡ digits z f (suc a / 2) (suc a / 2) (b / 2) * 2 + f (suc a % 2) (b % 2)
  low_digit a b =
      ap (λ d. d * 2 + f (suc a % 2) (b % 2))
        (enough_fuel a (suc a / 2) (suc a / 2) (b / 2) (omega arith) (omega arith))

zero-bit_or : (b : ℕ) → bit_or 0 b ≡ b
zero-bit_or b = bit_or-bitwise 0 b

pub bit_or_halves : (a b : ℕ) → bit_or a b ≡ bit_or (a / 2) (b / 2) * 2 + max (a % 2) (b % 2)
bit_or_halves zero b = omega (arith, zero-bit_or b, zero-bit_or (b / 2))
bit_or_halves (suc a) b = omega (
  arith,
  bit_or-bitwise (suc a) b,
  bit_or-bitwise (suc a / 2) (b / 2),
  low_digit (λ c. c) max a b,
)

zero-bit_xor : (b : ℕ) → bit_xor 0 b ≡ b
zero-bit_xor b = bit_xor-bitwise 0 b

zero-differ : (b : ℕ) → differ 0 b ≡ b
zero-differ b = refl

pub bit_xor_halves : (a b : ℕ) → bit_xor a b ≡ bit_xor (a / 2) (b / 2) * 2 + differ (a % 2) (b % 2)
bit_xor_halves zero b = omega (arith, zero-bit_xor b, zero-bit_xor (b / 2), zero-differ (b % 2))
bit_xor_halves (suc a) b = omega (
  arith,
  bit_xor-bitwise (suc a) b,
  bit_xor-bitwise (suc a / 2) (b / 2),
  low_digit (λ c. c) differ a b,
)

bit_or-zero_upto : (n a : ℕ) → a ≤ n → bit_or a 0 ≡ a
bit_or-zero_upto n zero h = zero-bit_or 0
bit_or-zero_upto zero (suc a) h = absurd (omega arith)
bit_or-zero_upto (suc n) (suc a) h =
    omega (arith, bit_or_halves (suc a) 0, bit_or-zero_upto n (suc a / 2) (omega arith))

pub bit_or-zero : (a : ℕ) → bit_or a 0 ≡ a
bit_or-zero a = bit_or-zero_upto a a (omega arith)

-- Below an even number the lowest digit is the other's.
bit_or_even : (a b : ℕ) → bit_or (a * 2) b ≡ bit_or a (b / 2) * 2 + b % 2
bit_or_even a b =
    let half : a * 2 / 2 ≡ a = omega arith in
    let low : a * 2 % 2 ≡ 0 = omega arith in bit_or_halves (a * 2) b ∙ rw (half, low) (omega arith)

abbrev pub times_two : ℕ → ℕ → ℕ
times_two zero a = a
times_two (suc k) a = times_two k a * 2

abbrev pub halves : ℕ → ℕ → ℕ
halves zero b = b
halves (suc k) b = halves k (b / 2)

-- Digits that the first number has not are added.
pub bit_or_low : (k a b : ℕ) → halves k b ≡ 0 → bit_or (times_two k a) b ≡ times_two k a + b
bit_or_low zero a b h = rw h (omega (arith, bit_or-zero a))
bit_or_low (suc k) a b h = omega (arith, bit_or_even (times_two k a) b, bit_or_low k a (b / 2) h)

differ-zero : (r : ℕ) → differ r 0 ≡ r
differ-zero zero = refl
differ-zero (suc r) = refl

bit_xor-zero_upto : (n a : ℕ) → a ≤ n → bit_xor a 0 ≡ a
bit_xor-zero_upto n zero h = zero-bit_xor 0
bit_xor-zero_upto zero (suc a) h = absurd (omega arith)
bit_xor-zero_upto (suc n) (suc a) h = omega (
  arith,
  bit_xor_halves (suc a) 0,
  bit_xor-zero_upto n (suc a / 2) (omega arith),
  differ-zero (suc a % 2),
)

differ_one : (r : ℕ) → r < 2 → differ r 1 ≡ 1 - r
differ_one zero h = refl
differ_one (suc zero) h = refl
differ_one (suc (suc r)) h = absurd (omega arith)

-- the last digit turned over
pub bit_xor_one : (b : ℕ) → bit_xor b 1 ≡ b / 2 * 2 + (1 - b % 2)
bit_xor_one b = omega (
  arith,
  bit_xor_halves b 1,
  bit_xor-zero_upto (b / 2) (b / 2) (omega arith),
  differ_one (b % 2) (omega arith),
)

bit_and_halves : (a b : ℕ) → bit_and a b ≡ bit_and (a / 2) (b / 2) * 2 + min (a % 2) (b % 2)
bit_and_halves zero b = omega (arith, bit_and-bitwise 0 b, bit_and-bitwise 0 (b / 2))
bit_and_halves (suc a) b = omega (
  arith,
  bit_and-bitwise (suc a) b,
  bit_and-bitwise (suc a / 2) (b / 2),
  low_digit (λ c. zero) min a b,
)

bit_and-zero_upto : (n a : ℕ) → a ≤ n → bit_and a 0 ≡ 0
bit_and-zero_upto n zero h = bit_and-bitwise 0 0
bit_and-zero_upto zero (suc a) h = absurd (omega arith)
bit_and-zero_upto (suc n) (suc a) h =
    omega (arith, bit_and_halves (suc a) 0, bit_and-zero_upto n (suc a / 2) (omega arith))

-- the last digit
pub bit_and_one : (a : ℕ) → bit_and a 1 ≡ a % 2
bit_and_one a = omega (arith, bit_and_halves a 1, bit_and-zero_upto (a / 2) (a / 2) (omega arith))
