-- ===== src/Prelude/Bits.antt =====
-- `&`, `|` and `^` with shifted fields and low masks, as arithmetic, at every width.
mod Digit
use Digit.{and_digit, or_digit, xor_digit}
use Prim.Native.Nat.{ℕ, zero, suc, ◌+◌, ◌-◌, ◌*◌, ◌/◌, ◌%◌, ◌^◌, ◌≤◌, ◌<◌, bit_and, bit_or, bit_xor}
use mathlib.Core.Path.{◌≡◌, refl, ap}
use native.Mathlib.Omega.{arith}
use native.Mathlib.Nat.{pow-suc, one-le-pow}

or_zero_upto : (n a : ℕ) → a ≤ n → bit_or a 0 ≡ a
or_zero_upto n zero h = refl
or_zero_upto zero (suc a) h = absurd (omega arith)
or_zero_upto (suc n) (suc a) h =
    omega (arith, or_digit (suc a) 0, or_zero_upto n (suc a / 2) (omega arith))

and_zero_upto : (n a : ℕ) → a ≤ n → bit_and a 0 ≡ 0
and_zero_upto n zero h = refl
and_zero_upto zero (suc a) h = absurd (omega arith)
and_zero_upto (suc n) (suc a) h =
    omega (arith, and_digit (suc a) 0, and_zero_upto n (suc a / 2) (omega arith))

pub bit_or-zero : (a : ℕ) → bit_or a 0 ≡ a
bit_or-zero a = or_zero_upto a a (omega arith)

pub bit_and-zero : (a : ℕ) → bit_and a 0 ≡ 0
bit_and-zero a = and_zero_upto a a (omega arith)

xor_zero_upto : (n a : ℕ) → a ≤ n → bit_xor a 0 ≡ a
xor_zero_upto n zero h = refl
xor_zero_upto zero (suc a) h = absurd (omega arith)
xor_zero_upto (suc n) (suc a) h =
    omega (arith, xor_digit (suc a) 0, xor_zero_upto n (suc a / 2) (omega arith))

pub bit_xor-zero : (a : ℕ) → bit_xor a 0 ≡ a
bit_xor-zero a = xor_zero_upto a a (omega arith)

-- Doubling the power moves the factor 2 to the front.
pub twice_pow : (q k : ℕ) → q * 2 ^ suc k ≡ 2 * (q * 2 ^ k)
twice_pow q k = omega (arith, ap (λ (t : ℕ). q * t) (pow-suc 2 k))

-- `(q << k) | r` is a sum where `r` has at most `k` bits.
pub bit_or-shifted : (k q r : ℕ) → r < 2 ^ k → bit_or (q * 2 ^ k) r ≡ q * 2 ^ k + r
bit_or-shifted zero q r h = ground (arith, bit_or-zero q)
bit_or-shifted (suc k) q r h = ground (
  arith,
  twice_pow q k,
  twice_pow 1 k,
  or_digit (q * 2 ^ suc k) r,
  bit_or-shifted k q (r / 2) (omega (arith, twice_pow 1 k)),
)

mask_ones : (k q r : ℕ) → r < 2 ^ k → bit_and (q * 2 ^ k + r) (2 ^ k - 1) ≡ r
mask_ones zero q r h = rw bit_and-zero (omega arith)
mask_ones (suc k) q r h = ground (
  arith,
  one-le-pow k 2,
  twice_pow q k,
  twice_pow 1 k,
  and_digit (q * 2 ^ suc k + r) (2 ^ suc k - 1),
  mask_ones k q (r / 2) (omega (arith, twice_pow 1 k)),
)

-- `a & (1 << k - 1)` is the remainder.
pub bit_and-ones : (k a : ℕ) → bit_and a (2 ^ k - 1) ≡ a % 2 ^ k
bit_and-ones k a = ground (arith, one-le-pow k 2, mask_ones k (a / 2 ^ k) (a % 2 ^ k))

mask_shifted : (k q r m : ℕ) → r < 2 ^ k → bit_and (q * 2 ^ k + r) (m * 2 ^ k) ≡ bit_and q m * 2 ^ k
mask_shifted zero q r m h = ground arith
mask_shifted (suc k) q r m h = ground (
  arith,
  twice_pow q k,
  twice_pow m k,
  twice_pow 1 k,
  twice_pow (bit_and q m) k,
  and_digit (q * 2 ^ suc k + r) (m * 2 ^ suc k),
  mask_shifted k q (r / 2) m (omega (arith, twice_pow 1 k)),
)

-- `a & (m << k)` looks only at the bits of `a` from `k` on.
pub bit_and-shifted : (k a m : ℕ) → bit_and a (m * 2 ^ k) ≡ bit_and (a / 2 ^ k) m * 2 ^ k
bit_and-shifted k a m = ground (arith, one-le-pow k 2, mask_shifted k (a / 2 ^ k) (a % 2 ^ k) m)

-- `a ^ (1 << k - 1)` is the complement in `k` bits.
pub bit_xor-ones : (k a : ℕ) → a < 2 ^ k → bit_xor a (2 ^ k - 1) ≡ 2 ^ k - 1 - a
bit_xor-ones zero a h = ground (arith, bit_xor-zero a)
bit_xor-ones (suc k) a h = ground (
  arith,
  one-le-pow k 2,
  twice_pow 1 k,
  xor_digit a (2 ^ suc k - 1),
  bit_xor-ones k (a / 2) (omega (arith, twice_pow 1 k)),
)

or_comm_upto : (n a b : ℕ) → a + b ≤ n → bit_or a b ≡ bit_or b a
or_comm_upto zero zero zero h = refl
or_comm_upto zero (suc a) b h = absurd (omega arith)
or_comm_upto zero zero (suc b) h = absurd (omega arith)
or_comm_upto (suc n) zero zero h = refl
or_comm_upto (suc n) (suc a) b h = omega (
  arith,
  or_digit (suc a) b,
  or_digit b (suc a),
  or_comm_upto n (suc a / 2) (b / 2) (omega arith),
)
or_comm_upto (suc n) zero (suc b) h =
    omega
      (arith, or_digit 0 (suc b), or_digit (suc b) 0, or_comm_upto n 0 (suc b / 2) (omega arith))

pub bit_or_comm : (a b : ℕ) → bit_or a b ≡ bit_or b a
bit_or_comm a b = or_comm_upto (a + b) a b (omega arith)

-- `x | 1` sets the lowest bit.
pub bit_or-one : (x : ℕ) → bit_or x 1 ≡ x / 2 * 2 + 1
bit_or-one x = omega (arith, or_digit x 1, bit_or-zero (x / 2))
