-- ===== src/Tlv/Case.antt =====
-- The case bit of a type byte.
use go_rdx.Prelude.{
  ℕ, ◌+◌, ◌≤◌, ◌<◌, ◌≡◌, refl, arith, bit_and, bit_or, Bool, true, ◌&&◌, ◌==◌, if◌then◌else◌,
  holds_under, holds_under_lem,
}
use go_rdx.Tlv.{lower, upper, is_upper, case_bit}

abbrev pub IsUpper : ℕ → Type 0
IsUpper lit = (b'A' ≤ lit) × (lit ≤ b'Z')

abbrev case_test : ℕ → Bool
case_test b =
    if is_upper b
    then (bit_or b case_bit == b + 32)
      && ((upper b == b)
          && ((upper (b + 32) == b)
              && ((bit_and b case_bit == 0) && (bit_and (b + 32) case_bit == 32))))
    else true

case_table : holds_under case_test 128 ≡ true
unfolding holds_under
case_table = refl

-- The case bit is clear in a capital letter, and set in the small letter 32 above it.
pub case_lem :
    (lit : ℕ)
    → IsUpper lit
    → (lower lit ≡ lit + 32)
      × (upper lit ≡ lit)
      × (upper (lit + 32) ≡ lit)
      × (bit_and lit case_bit ≡ 0)
      × (bit_and (lit + 32) case_bit ≡ 32)
case_lem lit h = ground (arith, λ (p : lit < 128). holds_under_lem case_test 128 lit p case_table)
