-- ===== src/Ron60.antt =====
-- ron.go: 60-bit numbers of up to ten RON64 digits, left-aligned, in an order that wraps.
pub mod Order
mod Tests
use go_rdx.Prelude.{
  ℕ, zero, suc, ◌+◌, ◌-◌, ◌*◌, ◌/◌, ◌%◌, ◌^◌, bit_and, bit_xor, Bool, ltb, leb, ◌==◌, if◌then◌else◌,
}

-- `Mask60bit`, `Ron60Top`, `ron60bit`, `Ron60Bottom` and `Ron60Inc`.
abbrev pub mask60bit : ℕ
mask60bit = 2 ^ 60 - 1

abbrev pub ron60_top : ℕ
ron60_top = 2 ^ 60 - 1 - 2 ^ 54

abbrev pub ron60bit : ℕ
ron60bit = 2 ^ 54

abbrev pub ron60_bottom : ℕ
ron60_bottom = 63 * 2 ^ 54

abbrev pub ron60_inc : ℕ
ron60_inc = 2 ^ 42

-- The number of binary digits of `x`, at most `k`: `64 - bits.LeadingZeros64(x)` at `k` = 64.
unfoldable pub bit_len : ℕ → ℕ → ℕ
bit_len zero x = 0
bit_len (suc k) x = if x == 0 then 0 else suc (bit_len k (x / 2))

-- `bits.TrailingZeros64` at `k` = 64.
unfoldable pub trailing_zeros : ℕ → ℕ → ℕ
trailing_zeros zero x = 0
trailing_zeros (suc k) x = if x % 2 == 0 then suc (trailing_zeros k (x / 2)) else 0

unfoldable pub is_valid : ℕ → Bool
is_valid r = r == bit_and r mask60bit

unfoldable pub new_ron60 : ℕ → ℕ
unfolding bit_len
new_ron60 x =
    let y = bit_and x mask60bit in
    let shift = (64 - bit_len 64 y - 4) / 6 * 6 in
    if y == 0 then ron60_top else y * 2 ^ shift % 2 ^ 64

unfoldable pub uint64 : ℕ → ℕ
unfolding trailing_zeros
uint64 r = if r == ron60_top then 0 else r / 2 ^ (trailing_zeros 64 r / 6 * 6)

-- `(uint64(a) + ron60bit) & Mask60bit`
unfoldable pub rank : ℕ → ℕ
rank a = bit_and ((a + ron60bit) % 2 ^ 64) mask60bit

unfoldable pub less : ℕ → ℕ → Bool
unfolding rank
less a b = ltb (rank a) (rank b)

-- The position of the bit that Fit adds, from the highest bit in which the numbers differ.
unfoldable pub fit_shift : ℕ → ℕ
fit_shift lz =
    let rem = lz % 6 in
    if ltb rem 4 then lz - rem else if leb 6 lz then lz - (rem + 6) else lz - rem

unfoldable pub fit : ℕ → ℕ → ℕ
unfolding less bit_len fit_shift
fit a b =
    if less b ((a + 2) % 2 ^ 64) then 0 else (a + 2 ^ fit_shift (bit_len 64 (bit_xor a b))) % 2 ^ 64
