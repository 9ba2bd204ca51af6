-- ===== src/Ident/Order.antt =====
-- The comparisons of identifiers.
use go_rdx.Prelude.{ℕ, ◌-◌, ◌*◌, ◌/◌, ◌^◌, ◌≡◌, ◌↔◌, arith, bit_and, true, IsU64}
use go_rdx.Cmp.{less, eq, flip}
use go_rdx.Prelude.Bits.{bit_and-ones, bit_and-shifted}
use go_rdx.Ident.{RdxId, compare, rev_compare, id_less, base, mask_no_rev}

abbrev pub IsId : RdxId → Type 0
IsId a = IsU64 a.src × IsU64 a.seq

-- `x & MaskNoRev` clears the six revision bits.
pub no_rev_lem : (x : ℕ) → IsU64 x → bit_and x mask_no_rev ≡ x / 64 * 64
no_rev_lem x h = omega (arith, bit_and-shifted 6 x (2 ^ 58 - 1), bit_and-ones 58 (x / 64))

-- RevCompare is a linear order on identifiers: it swaps with its arguments, gives Eq only on equal
-- identifiers, and is transitive.
pub rev_compare_linear :
    (a b c : RdxId)
    → (rev_compare b a ≡ flip (rev_compare a b))
      × ((rev_compare a b ≡ eq) ↔ (a ≡ b))
      × (rev_compare a b ≡ less → rev_compare b c ≡ less → rev_compare a c ≡ less)
unfolding rev_compare
rev_compare_linear a b c = (ground arith, ground arith, λ p q. ground arith)

-- Compare is a linear order up to revisions: it swaps with its arguments, gives Eq exactly on
-- identifiers with the same Base, and is transitive.
pub compare_linear :
    (a b c : RdxId)
    → (compare b a ≡ flip (compare a b))
      × ((compare a b ≡ eq) ↔ (base a ≡ base b))
      × (compare a b ≡ less → compare b c ≡ less → compare a c ≡ less)
unfolding compare base
compare_linear a b c = (ground arith, ground arith, λ p q. ground arith)

-- Less is the strict part of RevCompare.
pub id_less-rev_compare : (a b : RdxId) → (id_less a b ≡ true) ↔ (rev_compare a b ≡ less)
unfolding id_less rev_compare
id_less-rev_compare a b = ground arith
