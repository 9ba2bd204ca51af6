-- ===== src/Ron60/Order.antt =====
-- The order of ron.go.
use go_rdx.Prelude.{ℕ, ◌+◌, ◌%◌, ◌^◌, ◌<◌, ◌≡◌, ◌≢◌, arith, true, false}
use go_rdx.Prelude.Bits.{bit_and-ones}
use go_rdx.Ron60.{ron60_top, ron60_bottom, rank, less, is_valid}

pub rank_lem : (a : ℕ) → rank a ≡ (a + 2 ^ 54) % 2 ^ 60
unfolding rank
rank_lem a = omega (arith, bit_and-ones 60 ((a + 2 ^ 54) % 2 ^ 64))

pub is_valid_lem : (a : ℕ) → is_valid a ≡ true → a < 2 ^ 60
unfolding is_valid
is_valid_lem a h = ground (arith, bit_and-ones 60 a)

-- On valid numbers Less is a strict linear order: irreflexive, transitive, and numbers of which
-- neither is less are equal.
pub less_linear :
    (a b c : ℕ)
    → is_valid a ≡ true
    → is_valid b ≡ true
    → (less a a ≡ false)
      × (less a b ≡ true → less b c ≡ true → less a c ≡ true)
      × (less a b ≡ false → less b a ≡ false → a ≡ b)
unfolding less
less_linear a b c h k = (
  ground arith,
  λ p q. ground arith,
  λ p q. ground (arith, rank_lem a, rank_lem b, is_valid_lem a h, is_valid_lem b k),
)

-- Ron60Top is above, and Ron60Bottom below, every other valid number.
less_ends :
    (a : ℕ)
    → is_valid a ≡ true
    → (a ≢ ron60_top → less a ron60_top ≡ true) × (a ≢ ron60_bottom → less ron60_bottom a ≡ true)
unfolding less
less_ends a h = (
  λ p. ground (arith, rank_lem a, rank_lem ron60_top, is_valid_lem a h),
  λ p. ground (arith, rank_lem a, rank_lem ron60_bottom, is_valid_lem a h),
)
