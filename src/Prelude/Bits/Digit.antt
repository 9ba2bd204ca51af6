-- ===== src/Prelude/Bits/Digit.antt =====
-- The laws of the native bit operations for the lowest binary digit.
use Prim.Native.Nat.{
  ℕ, zero, suc, ◌+◌, ◌*◌, ◌/◌, ◌%◌, ◌≤◌, ◌<◌, min, max, bit_and, bit_or, bit_xor, differ, digits,
  bitwise, bit_and-bitwise, bit_or-bitwise, bit_xor-bitwise,
}
use mathlib.Core.Path.{◌≡◌, refl, ap}
use native.Mathlib.Omega.{arith}

-- The library's recursion takes its first operand for fuel; any larger number serves.
module _ (z : ℕ → ℕ) (f : ℕ → ℕ → ℕ) where
  no_digits : (y s t : ℕ) → digits z f s 0 y ≡ digits z f t 0 y
  no_digits y zero zero = refl
  no_digits y zero (suc t) = refl
  no_digits y (suc s) zero = refl
  no_digits y (suc s) (suc t) = refl

  enough_digits : (x y s t : ℕ) → x ≤ s → x ≤ t → digits z f s x y ≡ digits z f t x y
  enough_digits zero y s t xs xt = no_digits y s t
  enough_digits (suc x) y zero t xs xt = absurd (omega arith)
  enough_digits (suc x) y (suc s) zero xs xt = absurd (omega arith)
  enough_digits (suc x) y (suc s) (suc t) xs xt =
      rw (enough_digits (suc x / 2) (y / 2) s t (omega arith) (omega arith))

  lowest_digit :
      (x y : ℕ)
      → bitwise z f (suc x) y ≡ bitwise z f (suc x / 2) (y / 2) * 2 + f (suc x % 2) (y % 2)
  lowest_digit x y =
      ap (λ (t : ℕ). t * 2 + f (suc x % 2) (y % 2))
        (enough_digits (suc x / 2) (y / 2) x (suc x / 2) (omega arith) (omega arith))

pub or_digit : (a b : ℕ) → bit_or a b ≡ bit_or (a / 2) (b / 2) * 2 + max (a % 2) (b % 2)
or_digit zero b = simp bit_or-bitwise (omega arith)
or_digit (suc a) b = simp bit_or-bitwise (lowest_digit (λ b. b) max a b)

pub and_digit : (a b : ℕ) → bit_and a b ≡ bit_and (a / 2) (b / 2) * 2 + min (a % 2) (b % 2)
and_digit zero b = simp bit_and-bitwise (omega arith)
and_digit (suc a) b = simp bit_and-bitwise (lowest_digit (λ b. zero) min a b)

differ_bits : (x y : ℕ) → x < 2 → y < 2 → differ x y ≡ (x + y) % 2
differ_bits zero y p q = omega arith
differ_bits (suc zero) zero p q = refl
differ_bits (suc zero) (suc zero) p q = refl
differ_bits (suc zero) (suc (suc y)) p q = absurd (omega arith)
differ_bits (suc (suc x)) y p q = absurd (omega arith)

pub xor_digit : (a b : ℕ) → bit_xor a b ≡ bit_xor (a / 2) (b / 2) * 2 + (a + b) % 2
xor_digit zero b = simp bit_xor-bitwise (omega arith)
xor_digit (suc a) b = simp bit_xor-bitwise (
    omega (
      arith,
      lowest_digit (λ b. b) differ a b,
      differ_bits (suc a % 2) (b % 2) (omega arith) (omega arith),
    ))
