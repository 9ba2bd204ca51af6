-- ===== src/ZipInt.antt =====
-- zipint.go: integers as byte strings with the zero bytes left out.
-- A uint64 is a number below 2 ^ 64. A float64 is its IEEE 754 bit pattern, so `Float64bits` and
-- `Float64frombits` are no steps here.
pub mod Pair
pub mod Scalar
pub mod Signed
mod Tests
use go_rdx.Prelude.{
  ℕ, zero, suc, ◌+◌, ◌-◌, ◌*◌, ◌/◌, ◌%◌, ◌^◌, ◌<◌, bit_and, bit_or, bit_xor, arith, List, [], ◌∷◌,
  ◌++◌, leb, ltb, ◌==◌, ◌||◌, if◌then◌else◌, length, take, drop, replicate, get_or, byte, le_bytes,
  le_value, dec_lt,
}
use go_rdx.Prelude.Order.{lt_wf}
use go_rdx.Prelude.Int.{ℤ, to_uint64, to_int64, sign_bits}
use mathlib.Core.WellFounded.{Acc}
use mathlib.Core.Logic.{dite}

unfoldable pub byte_len : ℕ → ℕ
byte_len n =
    if leb n 0xff
    then (if n == 0 then 0 else 1)
    else if leb n 0xffff
    then 2
    else if leb n 0xffffffff
    then 4
    else 8

-- `LittleEndian.PutUint16(ret[..], uint16(v))`, and so for 32 bits; 64 bits need no conversion.
abbrev pub u16 : ℕ → List ℕ
u16 v = le_bytes 2 (v % 2 ^ 16)

abbrev pub u32 : ℕ → List ℕ
u32 v = le_bytes 4 (v % 2 ^ 32)

-- The 16 zeroed bytes of `ret`, as far as the case's writes and its slice let them show.
unfoldable pub zip_by_pattern : ℕ → ℕ → ℕ → List ℕ
zip_by_pattern pat big lil =
    if pat == 0x00
    then []
    else if pat == 0x10
    then byte big ∷ []
    else if pat == 0x01 || pat == 0x11
    then byte big ∷ byte lil ∷ []
    else if pat == 0x20 || pat == 0x21
    then u16 big ++ (byte lil ∷ [])
    else if pat == 0x02 || (pat == 0x12 || pat == 0x22)
    then u16 big ++ u16 lil
    else if pat == 0x40 || pat == 0x41
    then u32 big ++ (byte lil ∷ [])
    else if pat == 0x42
    then u32 big ++ u16 lil
    else if pat == 0x04 || (pat == 0x14 || (pat == 0x24 || pat == 0x44))
    then u32 big ++ u32 lil
    else if pat == 0x80 || pat == 0x81
    then le_bytes 8 big ++ (byte lil ∷ [])
    else if pat == 0x82
    then le_bytes 8 big ++ u16 lil
    else if pat == 0x84
    then le_bytes 8 big ++ u32 lil
    else if pat == 0x08 || (pat == 0x18 || pat == 0x28)
    then u16 big ++ (0 ∷ le_bytes 8 lil)
    else if pat == 0x48
    then u32 big ++ (0 ∷ le_bytes 8 lil)
    else if pat == 0x88
    then le_bytes 8 big ++ le_bytes 8 lil
    else replicate 16 0

unfoldable pub zip_uint64_pair : ℕ → ℕ → List ℕ
unfolding byte_len zip_by_pattern
zip_uint64_pair big lil = zip_by_pattern (bit_or (byte_len big * 2 ^ 4) (byte_len lil)) big lil

-- `LittleEndian.Uint16(buf[lo : lo + 2])` and the like: the number in `n` bytes from `lo` on.
abbrev pub uint_at : List ℕ → ℕ → ℕ → ℕ
uint_at buf lo n = le_value (take n (drop lo buf))

-- A length that is not listed leaves both results zero.
unfoldable pub unzip_by_length : ℕ → List ℕ → ℕ × ℕ
unzip_by_length n buf =
    if n == 0
    then (0, 0)
    else if n == 1
    then (get_or buf 0 0, 0)
    else if n == 2
    then (get_or buf 0 0, get_or buf 1 0)
    else if n == 3
    then (uint_at buf 0 2, get_or buf 2 0)
    else if n == 4
    then (uint_at buf 0 2, uint_at buf 2 2)
    else if n == 5
    then (uint_at buf 0 4, get_or buf 4 0)
    else if n == 6
    then (uint_at buf 0 4, uint_at buf 4 2)
    else if n == 8
    then (uint_at buf 0 4, uint_at buf 4 4)
    else if n == 9
    then (uint_at buf 0 8, get_or buf 8 0)
    else if n == 10
    then (uint_at buf 0 8, uint_at buf 8 2)
    else if n == 11
    then (uint_at buf 0 2, uint_at buf 3 8)
    else if n == 12
    then (uint_at buf 0 8, uint_at buf 8 4)
    else if n == 13
    then (uint_at buf 0 4, uint_at buf 5 8)
    else if n == 16
    then (uint_at buf 0 8, uint_at buf 8 8)
    else (0, 0)

unfoldable pub unzip_uint64_pair : List ℕ → ℕ × ℕ
unfolding unzip_by_length
unzip_uint64_pair buf = unzip_by_length (length buf) buf

unfoldable pub unzip_uint32_pair : List ℕ → ℕ × ℕ
unzip_uint32_pair buf =
    let n = length buf in
    if n == 0
    then (0, 0)
    else if n == 1
    then (get_or buf 0 0, 0)
    else if n == 2
    then (get_or buf 0 0, get_or buf 1 0)
    else if n == 3
    then (uint_at buf 0 2, get_or buf 2 0)
    else if n == 4
    then (uint_at buf 0 2, uint_at buf 2 2)
    else if n == 5
    then (uint_at buf 0 4, get_or buf 4 0)
    else if n == 6
    then (uint_at buf 0 4, uint_at buf 4 2)
    else if n == 8
    then (uint_at buf 0 4, uint_at buf 4 4)
    else (0, 0)

unfoldable pub uint32_pair : ℕ → ℕ → ℕ
uint32_pair a b = bit_or a (b * 2 ^ 32 % 2 ^ 64)

unfoldable pub uint32_unpair : ℕ → ℕ × ℕ
uint32_unpair x = (x % 2 ^ 32, x / 2 ^ 32 % 2 ^ 32)

byte_shrinks : (v : ℕ) → 0 < v → v / 256 < v
byte_shrinks v h = omega arith

-- `for v > 0`: a byte for each round.
unfoldable pub zip_loop : (v : ℕ) → Acc ◌<◌ v → List ℕ
unfolding dec_lt byte_shrinks
zip_loop v (Acc.intro _ smaller) =
    dite (dec_lt 0 v) (λ h. byte v ∷ zip_loop (v / 256) (smaller _ (byte_shrinks v h))) (λ _. [])

unfoldable pub zip_uint64 : ℕ → List ℕ
unfolding zip_loop lt_wf
zip_uint64 v = zip_loop v (lt_wf.apply v)

-- The loop runs from the last byte down to the first: `v <<= 8; v |= uint64(zip[i])`.
unfoldable pub unzip_uint64 : List ℕ → ℕ
unzip_uint64 [] = 0
unzip_uint64 (b ∷ bs) = bit_or (unzip_uint64 bs * 2 ^ 8 % 2 ^ 64) b

-- `uint64(i*2) ^ uint64(i>>63)`
unfoldable pub zig_zag_int64 : ℤ → ℕ
zig_zag_int64 i = bit_xor (to_uint64 i * 2 % 2 ^ 64) (sign_bits i)

unfoldable pub zag_zig_uint64 : ℕ → ℤ
zag_zig_uint64 u =
    let half = u / 2 in let mask = (2 ^ 64 - bit_and u 1) % 2 ^ 64 in to_int64 (bit_xor half mask)

unfoldable pub zip_int64 : ℤ → List ℕ
unfolding zip_uint64 zig_zag_int64
zip_int64 i = zip_uint64 (zig_zag_int64 i)

unfoldable pub unzip_int64 : List ℕ → ℤ
unfolding unzip_uint64 zag_zig_uint64
unzip_int64 zip = zag_zig_uint64 (unzip_uint64 zip)

-- `bits.Reverse64` is this at `k` = 64.
unfoldable pub reverse_bits : ℕ → ℕ → ℕ
reverse_bits zero x = 0
reverse_bits (suc k) x = x % 2 * 2 ^ k + reverse_bits k (x / 2)

unfoldable pub zip_float64 : ℕ → List ℕ
unfolding reverse_bits zip_uint64
zip_float64 bits = zip_uint64 (reverse_bits 64 bits)

unfoldable pub unzip_float64 : List ℕ → ℕ
unfolding reverse_bits unzip_uint64
unzip_float64 zip = reverse_bits 64 (unzip_uint64 zip)
