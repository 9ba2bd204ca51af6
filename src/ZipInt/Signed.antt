-- ===== src/ZipInt/Signed.antt =====
-- ZigZagInt64 and ZagZigUint64, and the integer coding on top of them.
use go_rdx.Prelude.{
  ℕ, ◌+◌, ◌-◌, ◌*◌, ◌/◌, ◌%◌, ◌^◌, ◌≤◌, ◌<◌, ◌≡◌, ap, ◌∙◌, arith, length, IsU64, bit_and, inl, inr,
  ◌⊎◌,
}
use go_rdx.Prelude.Int.{ℤ, pos, negsuc, IsInt64}
use go_rdx.Prelude.Bits.{bit_xor-ones, bit_xor-zero, bit_and-ones}
use go_rdx.ZipInt.{zig_zag_int64, zag_zig_uint64, zip_int64, unzip_int64}
use go_rdx.ZipInt.Scalar.{unzip_uint64-zip, length-zip_uint64}

-- n and -n - 1 become 2 n and 2 n + 1.
abbrev pub interleave : ℤ → ℕ
interleave (pos n) = 2 * n
interleave (negsuc n) = 2 * n + 1

-- ZigZagInt64 interleaves the non-negative and the negative integers.
pub zig_zag_int64-interleave : (i : ℤ) → IsInt64 i → zig_zag_int64 i ≡ interleave i
unfolding zig_zag_int64
zig_zag_int64-interleave (pos n) h = rw bit_xor-zero (omega arith)
zig_zag_int64-interleave (negsuc n) h =
    omega (arith, bit_xor-ones 64 ((2 ^ 64 - 1 - n % 2 ^ 64) * 2 % 2 ^ 64) (omega arith))

zag_zig_even : (n : ℕ) → n < 2 ^ 63 → zag_zig_uint64 (2 * n) ≡ pos n
unfolding zag_zig_uint64
zag_zig_even n h =
    let half : 2 * n / 2 ≡ n = omega arith in
    let low : bit_and (2 * n) 1 ≡ 0 = omega (arith, bit_and-ones 1 (2 * n)) in
    rw (half, low, bit_xor-zero) (ground arith)

zag_zig_odd : (n : ℕ) → n < 2 ^ 63 → zag_zig_uint64 (2 * n + 1) ≡ negsuc n
unfolding zag_zig_uint64
zag_zig_odd n h =
    let half : (2 * n + 1) / 2 ≡ n = omega arith in
    let low : bit_and (2 * n + 1) 1 ≡ 1 = omega (arith, bit_and-ones 1 (2 * n + 1)) in
    rw (half, low, bit_xor-ones 64 n (omega arith)) (ground arith)

zag_zig-interleave : (i : ℤ) → IsInt64 i → zag_zig_uint64 (interleave i) ≡ i
zag_zig-interleave (pos n) h = zag_zig_even n h
zag_zig-interleave (negsuc n) h = zag_zig_odd n h

-- ZagZigUint64 undoes ZigZagInt64 on every int64.
pub zag_zig-zig_zag : (i : ℤ) → IsInt64 i → zag_zig_uint64 (zig_zag_int64 i) ≡ i
zag_zig-zig_zag i h = rw (zig_zag_int64-interleave i h) (zag_zig-interleave i h)

half_cases : (u : ℕ) → (u ≡ 2 * (u / 2)) ⊎ (u ≡ 2 * (u / 2) + 1)
half_cases u = omega arith

-- ZigZagInt64 undoes ZagZigUint64 on every uint64, and the integer between is an int64.
zig_zag-zag_zig :
    (u : ℕ) → IsU64 u → IsInt64 (zag_zig_uint64 u) × (zig_zag_int64 (zag_zig_uint64 u) ≡ u)
zig_zag-zag_zig u h = elim (half_cases u) [
  | inl e ↦
      let back : zag_zig_uint64 u ≡ pos (u / 2) =
        ap zag_zig_uint64 e ∙ zag_zig_even (u / 2) (omega arith) in
      rw back (omega arith, zig_zag_int64-interleave (pos (u / 2)) (omega arith) ∙ omega arith)
  | inr e ↦
      let back : zag_zig_uint64 u ≡ negsuc (u / 2) =
        ap zag_zig_uint64 e ∙ zag_zig_odd (u / 2) (omega arith) in
      rw back (omega arith, zig_zag_int64-interleave (negsuc (u / 2)) (omega arith) ∙ omega arith)
]

interleave-IsU64 : (i : ℤ) → IsInt64 i → IsU64 (interleave i)
interleave-IsU64 (pos n) h = omega arith
interleave-IsU64 (negsuc n) h = omega arith

pub zig_zag_int64-IsU64 : (i : ℤ) → IsInt64 i → IsU64 (zig_zag_int64 i)
zig_zag_int64-IsU64 i h = rw (zig_zag_int64-interleave i h) (interleave-IsU64 i h)

-- UnzipInt64 reads back every int64 that ZipInt64 writes, in at most eight bytes.
pub unzip_int64-zip :
    (i : ℤ) → IsInt64 i → (unzip_int64 (zip_int64 i) ≡ i) × (length (zip_int64 i) ≤ 8)
unfolding unzip_int64 zip_int64
unzip_int64-zip i h = (
  rw (unzip_uint64-zip (zig_zag_int64 i) (zig_zag_int64-IsU64 i h)) (zag_zig-zig_zag i h),
  length-zip_uint64 (zig_zag_int64 i) (zig_zag_int64-IsU64 i h),
)
