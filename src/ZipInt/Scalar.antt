-- ===== src/ZipInt/Scalar.antt =====
-- ZipUint64 and UnzipUint64, and the float coding on top of them.
use go_rdx.Prelude.{
  ℕ, zero, suc, ◌+◌, ◌*◌, ◌/◌, ◌%◌, ◌^◌, ◌≤◌, ◌<◌, ◌≡◌, refl, ◌∙◌, arith, List, [], ◌∷◌, length,
  byte, le_value, IsU64, IsByte, All, le_value-lt, le_value-lt_wide,
}
use go_rdx.Prelude.Order.{lt_wf}
use go_rdx.Prelude.Bits.{bit_or-shifted, twice_pow}
use go_rdx.ZipInt.{
  byte_shrinks, zip_loop, zip_uint64, unzip_uint64, reverse_bits, zip_float64, unzip_float64,
}
use mathlib.Core.WellFounded.{Acc}
use mathlib.Core.Logic.{dif_pos, dif_neg}
use native.Mathlib.Decide.{dec_lt}
use native.Mathlib.Bridge.{le_prop}
use native.Mathlib.Nat.{pow-suc}

-- No zero byte at the end, where it would be overlong.
abbrev pub IsMinimal : List ℕ → Type 0
IsMinimal [] = Unit
IsMinimal (b ∷ []) = 0 < b
IsMinimal (b ∷ c ∷ bs) = IsMinimal (c ∷ bs)

-- Up to eight bytes, UnzipUint64 is the little-endian value: nothing is shifted out.
pub unzip_uint64-eq-le_value :
    (bs : List ℕ) → All IsByte bs → length bs ≤ 8 → unzip_uint64 bs ≡ le_value bs
unfolding unzip_uint64 le_value
unzip_uint64-eq-le_value [] h k = refl
unzip_uint64-eq-le_value (b ∷ bs) (p, h) k =
    let ih = unzip_uint64-eq-le_value bs h (omega arith) in
    let below : le_value bs < 256 ^ 7 = le_value-lt_wide 7 bs h (omega arith) in
    let kept : le_value bs * 2 ^ 8 % 2 ^ 64 ≡ le_value bs * 2 ^ 8 = omega arith in
    rw (ih, kept, bit_or-shifted 8 (le_value bs) b p) (omega arith)

zip_loop-value : (v : ℕ) (w : Acc ◌<◌ v) → le_value (zip_loop v w) ≡ v
unfolding zip_loop le_value
zip_loop-value v (Acc.intro _ smaller) =
    grind (arith, λ (p : v / 256 < v). zip_loop-value (v / 256) (smaller (v / 256) p))

zip_loop-IsByte : (v : ℕ) (w : Acc ◌<◌ v) → All IsByte (zip_loop v w)
unfolding zip_loop
zip_loop-IsByte v (Acc.intro _ smaller) =
    grind (arith, λ (p : v / 256 < v). zip_loop-IsByte (v / 256) (smaller (v / 256) p))

length-zip_loop : (k v : ℕ) (w : Acc ◌<◌ v) → v < 256 ^ k → length (zip_loop v w) ≤ k
unfolding zip_loop
length-zip_loop zero v (Acc.intro _ smaller) h = grind arith
length-zip_loop (suc k) v (Acc.intro _ smaller) h =
    grind
      (arith, pow-suc 256 k, λ (p : v / 256 < v). length-zip_loop k (v / 256) (smaller (v / 256) p))

-- ZipUint64 writes at most eight bytes for a uint64, so the loop stays inside its buffer.
pub length-zip_uint64 : (v : ℕ) → IsU64 v → length (zip_uint64 v) ≤ 8
unfolding zip_uint64
length-zip_uint64 v h = length-zip_loop 8 v (lt_wf.apply v) (omega arith)

pub zip_uint64-IsByte : (v : ℕ) → All IsByte (zip_uint64 v)
unfolding zip_uint64
zip_uint64-IsByte v = zip_loop-IsByte v (lt_wf.apply v)

zip_uint64-fits : (k v : ℕ) → v < 256 ^ k → length (zip_uint64 v) ≤ k
unfolding zip_uint64
zip_uint64-fits k v h = length-zip_loop k v (lt_wf.apply v) h

zip_uint64-value : (v : ℕ) → le_value (zip_uint64 v) ≡ v
unfolding zip_uint64
zip_uint64-value v = zip_loop-value v (lt_wf.apply v)

-- UnzipUint64 reads back every uint64 that ZipUint64 writes.
pub unzip_uint64-zip : (v : ℕ) → IsU64 v → unzip_uint64 (zip_uint64 v) ≡ v
unzip_uint64-zip v h =
    unzip_uint64-eq-le_value (zip_uint64 v) (zip_uint64-IsByte v) (length-zip_uint64 v h)
    ∙ zip_uint64-value v

-- No byte string of at most eight bytes is shorter than what ZipUint64 writes for its value.
zip_uint64_shortest :
    (bs : List ℕ)
    → All IsByte bs
    → length bs ≤ 8
    → length (zip_uint64 (unzip_uint64 bs)) ≤ length bs
zip_uint64_shortest bs h k =
    rw (unzip_uint64-eq-le_value bs h k)
      (zip_uint64-fits (length bs) (le_value bs) (le_value-lt bs h))

minimal_pos : (b : ℕ) (bs : List ℕ) → IsMinimal (b ∷ bs) → 0 < le_value (b ∷ bs)
unfolding le_value
minimal_pos b [] h = omega arith
minimal_pos b (c ∷ bs) h = omega (arith, minimal_pos c bs h)

IsMinimal-tail : (b : ℕ) (bs : List ℕ) → IsMinimal (b ∷ bs) → IsMinimal bs
IsMinimal-tail b [] h = tt
IsMinimal-tail b (c ∷ bs) h = h

zip_loop-le_value :
    (bs : List ℕ) (v : ℕ) (w : Acc ◌<◌ v)
    → All IsByte bs
    → IsMinimal bs
    → le_value bs ≡ v
    → zip_loop v w ≡ bs
unfolding zip_loop le_value
zip_loop-le_value [] v (Acc.intro _ smaller) h m e = grind arith
zip_loop-le_value (b ∷ bs) v (Acc.intro _ smaller) (p, h) m e =
    let low : byte v ≡ b = omega arith in
    let high : le_value bs ≡ v / 256 = omega arith in
    let positive : 0 < v = omega (arith, minimal_pos b bs m) in
    grind (
      arith,
      λ (q : v / 256 < v).
          zip_loop-le_value bs (v / 256) (smaller (v / 256) q) h (IsMinimal-tail b bs m) high,
    )

zip_uint64-le_value : (bs : List ℕ) → All IsByte bs → IsMinimal bs → zip_uint64 (le_value bs) ≡ bs
unfolding zip_uint64
zip_uint64-le_value bs h m = zip_loop-le_value bs (le_value bs) (lt_wf.apply (le_value bs)) h m refl

-- A byte string of at most eight bytes with no zero byte at its end is what ZipUint64 writes for
-- its value, so no other such string has that value.
pub zip_uint64-unzip :
    (bs : List ℕ) → All IsByte bs → length bs ≤ 8 → IsMinimal bs → zip_uint64 (unzip_uint64 bs) ≡ bs
zip_uint64-unzip bs h k m = rw (unzip_uint64-eq-le_value bs h k) (zip_uint64-le_value bs h m)

IsMinimal-cons :
    (b : ℕ) (bs : List ℕ) → 0 < b + 256 * le_value bs → IsMinimal bs → IsMinimal (b ∷ bs)
unfolding le_value
IsMinimal-cons b [] h m = omega arith
IsMinimal-cons b (c ∷ bs) h m = m

zip_loop-IsMinimal : (v : ℕ) (w : Acc ◌<◌ v) → IsMinimal (zip_loop v w)
unfolding zip_loop
zip_loop-IsMinimal v (Acc.intro _ smaller) = elim (dec_lt 0 v) [
  | yes p ↦ rw (dif_pos (dec_lt 0 v) le_prop p) (
      IsMinimal-cons (byte v) (zip_loop (v / 256) (smaller (v / 256) (byte_shrinks v p)))
        (omega (arith, zip_loop-value (v / 256) (smaller (v / 256) (byte_shrinks v p))))
        (zip_loop-IsMinimal (v / 256) (smaller (v / 256) (byte_shrinks v p))))
  | no p ↦ rw (dif_neg (dec_lt 0 v) p) tt
]

-- ZipUint64 leaves no zero byte at the end.
pub zip_uint64-IsMinimal : (v : ℕ) → IsMinimal (zip_uint64 v)
unfolding zip_uint64
zip_uint64-IsMinimal v = zip_loop-IsMinimal v (lt_wf.apply v)

reverse_bits_step : (k x : ℕ) → reverse_bits (suc k) x ≡ x % 2 * 2 ^ k + reverse_bits k (x / 2)
unfolding reverse_bits
reverse_bits_step k x = refl

-- The top bit of the word becomes the lowest bit of the reversed word.
reverse_bits_top :
    (k r b : ℕ)
    → r < 2 ^ k
    → b < 2
    → reverse_bits (suc k) (r + b * 2 ^ k) ≡ b + 2 * reverse_bits k r
reverse_bits_top zero r b h p = unfold reverse_bits in omega arith
reverse_bits_top (suc k) r b h p =
    let half : (r + b * 2 ^ suc k) / 2 ≡ r / 2 + b * 2 ^ k = omega (arith, twice_pow b k) in
    let low : (r + b * 2 ^ suc k) % 2 ≡ r % 2 = omega (arith, twice_pow b k) in
    rw (reverse_bits_step (suc k), half, low)
      (omega (
        arith,
        reverse_bits_top k (r / 2) b (omega (arith, twice_pow 1 k)) p,
        reverse_bits_step k r,
        twice_pow (r % 2) k,
      ))

bit_times : (b p : ℕ) → b < 2 → b * p ≤ p
bit_times zero p h = omega arith
bit_times (suc zero) p h = omega arith
bit_times (suc (suc b)) p h = absurd (omega arith)

reverse_bits-lt : (k x : ℕ) → reverse_bits k x < 2 ^ k
reverse_bits-lt zero x = unfold reverse_bits in omega arith
reverse_bits-lt (suc k) x = omega (
  arith,
  bit_times (x % 2) (2 ^ k) (omega arith),
  reverse_bits_step k x,
  reverse_bits-lt k (x / 2),
  twice_pow 1 k,
)

-- Reversing the bits twice changes nothing.
reverse_bits_twice : (k x : ℕ) → x < 2 ^ k → reverse_bits k (reverse_bits k x) ≡ x
reverse_bits_twice zero x h = unfold reverse_bits in omega arith
reverse_bits_twice (suc k) x h =
    let inner : reverse_bits (suc k) x ≡ reverse_bits k (x / 2) + x % 2 * 2 ^ k =
      omega (arith, reverse_bits_step k x) in
    rw inner (
      omega (
        arith,
        reverse_bits_top k (reverse_bits k (x / 2)) (x % 2) (reverse_bits-lt k (x / 2))
            (omega arith),
        reverse_bits_twice k (x / 2) (omega (arith, twice_pow 1 k)),
      ))

-- UnzipFloat64 reads back every bit pattern that ZipFloat64 writes.
pub unzip_float64-zip : (bits : ℕ) → IsU64 bits → unzip_float64 (zip_float64 bits) ≡ bits
unfolding unzip_float64 zip_float64
unzip_float64-zip bits h =
    rw (unzip_uint64-zip (reverse_bits 64 bits) (reverse_bits-lt 64 bits))
      (reverse_bits_twice 64 bits h)

pub length-zip_float64 : (bits : ℕ) → IsU64 bits → length (zip_float64 bits) ≤ 8
unfolding zip_float64
length-zip_float64 bits h = length-zip_uint64 (reverse_bits 64 bits) (reverse_bits-lt 64 bits)
