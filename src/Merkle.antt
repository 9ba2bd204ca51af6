-- ===== src/Merkle.antt =====
-- merkle7574.go: the peaks of a Merkle tree that grows at its right end. The hash is the parameter
-- `sha256`, which takes bytes to bytes.
pub mod Growth
mod Tests
use go_rdx.Prelude.{
  ℕ, zero, suc, Bool, true, false, not, ◌==◌, ◌&&◌, if◌then◌else◌, List, [], ◌∷◌, ◌++◌, Outcome, ok,
  err, panic, ◌>>=◌, Error, out_of_range, bad_sha256_hex, ◌*◌, length, Option, none, some,
}

-- Sha256Zero, and Sha256Merkle7574 before the first Append.
unfoldable pub zeros : ℕ → List ℕ
zeros zero = []
zeros (suc n) = 0 ∷ zeros n

abbrev pub sha256_zero : List ℕ
unfolding zeros
sha256_zero = zeros 32

-- `bytes.Equal`
unfoldable pub sha_equal : List ℕ → List ℕ → Bool
sha_equal [] [] = true
sha_equal [] (b ∷ bs) = false
sha_equal (a ∷ as') [] = false
sha_equal (a ∷ as') (b ∷ bs) = (a == b) && sha_equal as' bs

unfoldable pub is_empty : List ℕ → Bool
unfolding sha_equal zeros
is_empty sha = sha_equal sha sha256_zero

abbrev pub Line : Type 0
Line = List (List ℕ)

-- Clear.
unfoldable pub clear : List ℕ → List ℕ
clear sha = sha256_zero

-- ParseSha256: `hex_decode` is hex.Decode, the bytes that it fills and whether it fails.
unfoldable pub parse_sha256 : (List ℕ → List ℕ × Bool) → List ℕ → List ℕ × Option Error
parse_sha256 hex_decode str =
    let (sha, failed) = hex_decode str in
    if length str == 32 * 2
    then (sha, if failed then some bad_sha256_hex else none)
    else (sha256_zero, some bad_sha256_hex)

module _ (sha256 : List ℕ → List ℕ) where
  unfoldable pub sha256_of : List ℕ → List ℕ
  sha256_of bytes = sha256 bytes

  unfoldable pub merkle2 : List ℕ → List ℕ → List ℕ
  merkle2 a b = sha256 (a ++ b)

  -- The loop of Append from a slot on. Behind the last slot `line[i]` panics, before the test
  -- of `i`, and the test after the loop is never true.
  unfoldable pub append : Line → List ℕ → Outcome Line
  unfolding is_empty merkle2 zeros
  append [] next = panic
  append (slot ∷ line) next =
      if is_empty slot
      then ok (next ∷ line)
      else (append line (merkle2 slot next) >>= λ rest. ok (sha256_zero ∷ rest))

  unfoldable pub concat : Line → List ℕ
  concat [] = []
  concat (slot ∷ line) = slot ++ concat line

  unfoldable pub sum : Line → List ℕ
  unfolding concat
  sum line = sha256 (concat line)
