-- ===== src/Ron60/Tests.antt =====
-- The theorems on ron.go at concrete numbers, and runs.
use go_rdx.Prelude.{ℕ, ◌*◌, ◌^◌, ◌≡◌, refl, true, false}
use go_rdx.Ron60.{new_ron60, uint64, less, is_valid}
use go_rdx.Ron60.Order.{less_linear}

one_digit : new_ron60 5 ≡ 5 * 2 ^ 54
unfolding new_ron60
one_digit = refl

back_again : uint64 (new_ron60 0x1041) ≡ 0x1041
unfolding uint64 new_ron60
back_again = refl

valid_five : is_valid 5 ≡ true
unfolding is_valid
valid_five = refl

valid_six : is_valid 6 ≡ true
unfolding is_valid
valid_six = refl

less_linear_example :
    (less 5 5 ≡ false)
    × (less 5 6 ≡ true → less 6 7 ≡ true → less 5 7 ≡ true)
    × (less 5 6 ≡ false → less 6 5 ≡ false → ◌≡◌ {A = ℕ} 5 6)
less_linear_example = less_linear 5 6 7 valid_five valid_six
