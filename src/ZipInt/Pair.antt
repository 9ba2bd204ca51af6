-- ===== src/ZipInt/Pair.antt =====
-- ZipUint64Pair and UnzipUint64Pair, UnzipUint32Pair, Uint32Pair.
use go_rdx.Prelude.{
  ℕ, ◌*◌, ◌%◌, ◌^◌, ◌≤◌, ◌<◌, ◌≡◌, arith, List, leb, ◌==◌, if◌then◌else◌, length, le_bytes,
  le_value, IsU64, IsByte, All,
}
use go_rdx.ZipInt.{
  byte_len, zip_uint64_pair, unzip_uint64_pair, unzip_uint32_pair, uint32_pair, uint32_unpair,
}
use go_rdx.Prelude.Bits.{bit_or-shifted, bit_or_comm}

-- The five values of `byteLen`.
data Width : Type 0 where
  none one two four eight : Width

abbrev size : Width → ℕ
size none = 0
size one = 1
size two = 2
size four = 4
size eight = 8

-- The width that `byteLen` finds.
width_of : ℕ → Width
width_of n =
    if leb n 0xff
    then (if n == 0 then none else one)
    else if leb n 0xffff
    then two
    else if leb n 0xffffffff
    then four
    else eight

-- A uint64 fits the bytes that `byteLen` counts.
width_fits : (n : ℕ) → IsU64 n → (byte_len n ≡ size (width_of n)) × (n < 256 ^ size (width_of n))
unfolding byte_len width_of
width_fits n h = ground arith

module _ (big lil : ℕ) where
  pair_by_width :
      (v w : Width)
      → byte_len big ≡ size v
      → byte_len lil ≡ size w
      → big < 256 ^ size v
      → lil < 256 ^ size w
      → unzip_uint64_pair (zip_uint64_pair big lil) ≡ (big, lil)
  unfolding zip_uint64_pair unzip_uint64_pair le_bytes le_value
  pair_by_width none none e f p q = rw (e, f, zip_uint64_pair) (ground arith)
  pair_by_width none _ e f p q = rw (e, f, zip_uint64_pair) (ground arith)
  pair_by_width one none e f p q = rw (e, f, zip_uint64_pair) (ground arith)
  pair_by_width one _ e f p q = rw (e, f, zip_uint64_pair) (ground arith)
  pair_by_width two none e f p q = rw (e, f, zip_uint64_pair) (ground arith)
  pair_by_width two _ e f p q = rw (e, f, zip_uint64_pair) (ground arith)
  pair_by_width four none e f p q = rw (e, f, zip_uint64_pair) (ground arith)
  pair_by_width four _ e f p q = rw (e, f, zip_uint64_pair) (ground arith)
  pair_by_width eight none e f p q = rw (e, f, zip_uint64_pair) (ground arith)
  pair_by_width eight _ e f p q = rw (e, f, zip_uint64_pair) (ground arith)

  abbrev Shape : List ℕ → Type 0
  Shape buf = (length buf ≤ 16) × All IsByte buf

  Shape-by_width :
      (v w : Width)
      → byte_len big ≡ size v
      → byte_len lil ≡ size w
      → Shape (zip_uint64_pair big lil)
        × (size v ≤ 4 → size w ≤ 4 → length (zip_uint64_pair big lil) ≤ 8)
  unfolding zip_uint64_pair le_bytes
  Shape-by_width none none e f = rw (e, f, zip_uint64_pair) (ground arith)
  Shape-by_width none _ e f = rw (e, f, zip_uint64_pair) (ground arith)
  Shape-by_width one none e f = rw (e, f, zip_uint64_pair) (ground arith)
  Shape-by_width one _ e f = rw (e, f, zip_uint64_pair) (ground arith)
  Shape-by_width two none e f = rw (e, f, zip_uint64_pair) (ground arith)
  Shape-by_width two _ e f = rw (e, f, zip_uint64_pair) (ground arith)
  Shape-by_width four none e f = rw (e, f, zip_uint64_pair) (ground arith)
  Shape-by_width four _ e f = rw (e, f, zip_uint64_pair) (ground arith)
  Shape-by_width eight none e f = rw (e, f, zip_uint64_pair) (ground arith)
  Shape-by_width eight _ e f = rw (e, f, zip_uint64_pair) (ground arith)

-- UnzipUint64Pair reads back every pair of uint64s that ZipUint64Pair packs.
pub unzip_uint64_pair-zip :
    (big lil : ℕ) → IsU64 big → IsU64 lil → unzip_uint64_pair (zip_uint64_pair big lil) ≡ (big, lil)
unzip_uint64_pair-zip big lil h k =
    let v = width_fits big h in
    let w = width_fits lil k in pair_by_width big lil (width_of big) (width_of lil) v.0 w.0 v.1 w.1

-- A packed pair of uint64s has at most 16 bytes.
pub zip_uint64_pair_shape :
    (big lil : ℕ)
    → IsU64 big
    → IsU64 lil
    → (length (zip_uint64_pair big lil) ≤ 16) × All IsByte (zip_uint64_pair big lil)
zip_uint64_pair_shape big lil h k =
    (Shape-by_width big lil (width_of big) (width_of lil) (width_fits big h).0
      (width_fits lil k).0).0

width_small : (n : ℕ) → n < 2 ^ 32 → size (width_of n) ≤ 4
unfolding width_of
width_small n h = ground arith

unzip_uint32_pair_short :
    (buf : List ℕ) → length buf ≤ 8 → unzip_uint32_pair buf ≡ unzip_uint64_pair buf
unfolding unzip_uint32_pair unzip_uint64_pair
unzip_uint32_pair_short buf h = ground arith

-- UnzipUint32Pair reads back every pair of uint32s that ZipUint64Pair packs.
unzip_uint32_pair-zip :
    (big lil : ℕ)
    → big < 2 ^ 32
    → lil < 2 ^ 32
    → unzip_uint32_pair (zip_uint64_pair big lil) ≡ (big, lil)
unzip_uint32_pair-zip big lil h k =
    let shape =
      Shape-by_width big lil (width_of big) (width_of lil) (width_fits big (omega arith)).0
        (width_fits lil (omega arith)).0 in
    let short = shape.1 (width_small big h) (width_small lil k) in
    rw (unzip_uint32_pair_short (zip_uint64_pair big lil) short)
      (unzip_uint64_pair-zip big lil (omega arith) (omega arith))

-- Uint32Unpair takes apart what Uint32Pair joins.
pub uint32_unpair-pair :
    (a b : ℕ) → a < 2 ^ 32 → b < 2 ^ 32 → uint32_unpair (uint32_pair a b) ≡ (a, b)
unfolding uint32_pair uint32_unpair
uint32_unpair-pair a b h k =
    let wide : b * 2 ^ 32 % 2 ^ 64 ≡ b * 2 ^ 32 = omega arith in
    ground (arith, wide, bit_or_comm a (b * 2 ^ 32), bit_or-shifted 32 b a h)
