-- ===== src/Prelude/Bytes.antt =====
-- Bytes, and the fixed-width little-endian numbers of encoding/binary.
use Prim.Native.Nat.{ℕ, zero, suc, ◌+◌, ◌*◌, ◌/◌, ◌%◌, ◌^◌, ◌≤◌, ◌<◌}
use mathlib.Core.Path.{◌≡◌, refl, ap, ap₂}
use mathlib.Core.List.{List, [], ◌∷◌}
use native.Mathlib.Nat.{pow-suc}
use native.Mathlib.Omega.{arith}
use go_rdx.Prelude.Lists.{length, All}

abbrev pub IsByte : ℕ → Type 0
IsByte b = b < 256

abbrev pub IsU64 : ℕ → Type 0
IsU64 v = v < 2 ^ 64

-- `byte(v)`.
abbrev pub byte : ℕ → ℕ
byte v = v % 256

-- `PutUint16`, `PutUint32` and `PutUint64` write `v` in 2, 4 and 8 bytes.
unfoldable pub le_bytes : ℕ → ℕ → List ℕ
le_bytes zero v = []
le_bytes (suc k) v = byte v ∷ le_bytes k (v / 256)

-- `Uint16`, `Uint32` and `Uint64` of a slice of 2, 4 and 8 bytes.
unfoldable pub le_value : List ℕ → ℕ
le_value [] = 0
le_value (b ∷ bs) = b + 256 * le_value bs

pub length-le_bytes : (k v : ℕ) → length (le_bytes k v) ≡ k
unfolding le_bytes
length-le_bytes zero v = refl
length-le_bytes (suc k) v = ap suc (length-le_bytes k (v / 256))

pub le_bytes-IsByte : (k v : ℕ) → All IsByte (le_bytes k v)
unfolding le_bytes
le_bytes-IsByte zero v = tt
le_bytes-IsByte (suc k) v = (omega arith, le_bytes-IsByte k (v / 256))

pub le_value-le_bytes : (k v : ℕ) → v < 256 ^ k → le_value (le_bytes k v) ≡ v
unfolding le_bytes le_value
le_value-le_bytes zero v h = omega arith
le_value-le_bytes (suc k) v h =
    omega (arith, pow-suc 256 k, le_value-le_bytes k (v / 256) (omega (arith, pow-suc 256 k)))

pub le_value-lt : (bs : List ℕ) → All IsByte bs → le_value bs < 256 ^ length bs
unfolding le_value
le_value-lt [] h = omega arith
le_value-lt (b ∷ bs) (p, h) = omega (arith, pow-suc 256 (length bs), le_value-lt bs h)

pub le_bytes-le_value : (bs : List ℕ) → All IsByte bs → le_bytes (length bs) (le_value bs) ≡ bs
unfolding le_bytes le_value
le_bytes-le_value [] h = refl
le_bytes-le_value (b ∷ bs) (p, h) = ap₂ ◌∷◌ (omega arith) (rw shifted (le_bytes-le_value bs h))
  where
    shifted : (b + 256 * le_value bs) / 256 ≡ le_value bs
    shifted = omega arith

pub le_value-lt_wide : (k : ℕ) (bs : List ℕ) → All IsByte bs → length bs ≤ k → le_value bs < 256 ^ k
unfolding le_value
le_value-lt_wide zero [] h p = omega arith
le_value-lt_wide zero (b ∷ bs) h p = absurd (omega arith)
le_value-lt_wide (suc k) [] h p =
    omega (arith, pow-suc 256 k, le_value-lt_wide k [] tt (omega arith))
le_value-lt_wide (suc k) (b ∷ bs) (q, h) p =
    omega (arith, pow-suc 256 k, le_value-lt_wide k bs h (omega arith))
