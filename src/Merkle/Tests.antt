-- ===== src/Merkle/Tests.antt =====
-- Runs of the Merkle tree, with a stand-in for the hash.
use go_rdx.Prelude.{
  ℕ, zero, suc, ◌+◌, ◌%◌, sym, get_or, length-append, ◌++◌, ◌≡◌, ◌≢◌, ◌↔◌, refl, ap, arith, List,
  [], ◌∷◌, length, All, out_of_range, ok, err, panic, false,
}
use go_rdx.Merkle.{sha256_zero, zeros, is_empty, Line, merkle2, append}
use go_rdx.Merkle.Growth.{tree_hash, Holds, NoZero, append-grows, append-panic}

-- A checksum of 32 bytes.
abbrev checksum : List ℕ → List ℕ
checksum bytes = (length bytes % 255 + 1) ∷ zeros 31

abbrev leaf : ℕ → List ℕ
leaf n = n ∷ zeros 31

-- The first byte of the hash is not zero.
never_empty : (h : ℕ) (tail : List ℕ) → ((h + 1) ∷ tail) ≢ sha256_zero
unfolding zeros
never_empty h tail e = absurd (omega (arith, ap (λ l. get_or l 0 0) e))

abbrev two_slots : Line
two_slots = leaf 7 ∷ sha256_zero ∷ []

two_slots-Holds : Holds checksum 0 two_slots (leaf 7 ∷ [])
unfolding tree_hash
two_slots-Holds =
    Holds.taken (leaf 7 ∷ []) refl (never_empty 6 (zeros 31)) (Holds.free Holds.behind)

last_leaf :
    (front : List (List ℕ)) (one : List ℕ)
    → (leaf 7 ∷ leaf 8 ∷ []) ≡ front ++ (one ∷ [])
    → one ≡ leaf 8
last_leaf [] one e = absurd (omega (arith, ap length e))
last_leaf (a ∷ []) one e = sym (ap (λ l. get_or l 1 []) e)
last_leaf (a ∷ b ∷ front) one e =
    absurd (omega (arith, ap length e, length-append front (one ∷ [])))

two_leaves-NoZero : NoZero checksum (leaf 7 ∷ leaf 8 ∷ [])
unfolding tree_hash merkle2
two_leaves-NoZero zero front [] e size = absurd (omega arith)
two_leaves-NoZero zero front (one ∷ []) e size =
    rw (last_leaf front one e) (never_empty 7 (zeros 31))
two_leaves-NoZero zero front (one ∷ two ∷ peak) e size = absurd (omega arith)
two_leaves-NoZero (suc k) front peak e size = never_empty _ (zeros 31)

append-grows_example :
    (line' : Line) × (append checksum two_slots (leaf 8) ≡ ok line')
    × (length line' ≡ 2)
    × Holds checksum 0 line' (leaf 7 ∷ leaf 8 ∷ [])
append-grows_example =
    append-grows checksum (leaf 8) two_leaves-NoZero two_slots-Holds (omega arith)

append-panic_example :
    ((append checksum ((7 ∷ []) ∷ []) (8 ∷ []) ≡ panic)
      ↔ All (λ slot. is_empty slot ≡ false) ((7 ∷ []) ∷ []))
    × (append checksum ((7 ∷ []) ∷ []) (8 ∷ []) ≢ err out_of_range)
append-panic_example = append-panic checksum ((7 ∷ []) ∷ []) (8 ∷ []) out_of_range
