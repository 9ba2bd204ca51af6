-- ===== src/Ident/Revision.antt =====
-- Revisions: liveness, removal, recovery, replacement.
use go_rdx.Prelude.{
  ℕ, ◌+◌, ◌-◌, ◌*◌, ◌/◌, ◌%◌, ◌^◌, ◌<◌, ◌≡◌, ◌↔◌, ap, arith, bit_and, true, false, ◌==◌, IsU64,
}
use go_rdx.Prelude.Bits.{bit_and-ones, bit_and-shifted, bit_or-one}
use go_rdx.Ident.{RdxId, base, rev, is_live, removed, recovered, replaced, compare, mask_not1}
use go_rdx.Cmp.{less}
use go_rdx.Ident.Order.{no_rev_lem}

is_live_lem : (a : RdxId) → is_live a ≡ (a.seq % 2 == 0)
unfolding is_live
is_live_lem a = ground (arith, bit_and-ones 1 a.seq)

clear_low_bit : (x : ℕ) → IsU64 x → bit_and x mask_not1 ≡ x / 2 * 2
clear_low_bit x h = omega (arith, bit_and-shifted 1 x (2 ^ 63 - 1), bit_and-ones 63 (x / 2))

rev_lem : (a : RdxId) → rev a ≡ a.seq % 64
rev_lem a = unfold rev in bit_and-ones 6 a.seq

at_seq : RdxId → ℕ → RdxId
at_seq a seq = record { src = a.src; seq = seq }

base_lem : (a : RdxId) → IsU64 a.seq → base a ≡ at_seq a (a.seq / 64 * 64)
unfolding base at_seq
base_lem a h = ap (at_seq a) (no_rev_lem a.seq h)

removed_next : (a : RdxId) → IsU64 a.seq → a.seq % 2 ≡ 0 → removed a ≡ at_seq a (a.seq + 1)
unfolding removed at_seq
removed_next a h even = ap (at_seq a) (omega (arith, bit_or-one ((a.seq + 1) % 2 ^ 64)))

recovered_next :
    (a : RdxId) → a.seq < 2 ^ 64 - 2 → a.seq % 2 ≡ 1 → recovered a ≡ at_seq a (a.seq + 1)
unfolding recovered at_seq
recovered_next a h odd = ap (at_seq a) (omega (arith, clear_low_bit ((a.seq + 2) % 2 ^ 64)))

-- Removed makes a live identifier with a uint64 sequence number the next revision of the same
-- identity, and no longer live.
removed_lem :
    (a : RdxId)
    → IsU64 a.seq
    → is_live a ≡ true
    → (base (removed a) ≡ base a) × (is_live (removed a) ≡ false) × (rev (removed a) ≡ rev a + 1)
unfolding at_seq
removed_lem a h live =
    let even : a.seq % 2 ≡ 0 = ground (arith, is_live_lem a) in
    let b = at_seq a (a.seq + 1) in
    rw (removed_next a h even) (
      ground (arith, base_lem a h, base_lem b (omega arith)),
      ground (arith, is_live_lem b),
      ground (arith, rev_lem a, rev_lem b),
    )

-- Recovered makes a removed identifier live again, as long as the addition of two does not
-- overflow. It keeps the identity exactly if the revision was not the last one, 63.
pub recovered_lem :
    (a : RdxId)
    → a.seq < 2 ^ 64 - 2
    → is_live a ≡ false
    → (is_live (recovered a) ≡ true) × ((base (recovered a) ≡ base a) ↔ (rev a < 63))
unfolding at_seq
recovered_lem a h dead =
    let odd : a.seq % 2 ≡ 1 = ground (arith, is_live_lem a) in
    let b = at_seq a (a.seq + 1) in
    rw (recovered_next a h odd) (
      ground (arith, is_live_lem b),
      ground (arith, base_lem a (omega arith), base_lem b (omega arith), rev_lem a),
    )

-- Replaced gives a live identifier of revision 0, whose identity comes after the old one, as
-- long as the sequence number does not overflow.
replaced_lem :
    (a : RdxId)
    → a.seq < 2 ^ 64 - 64
    → (is_live (replaced a) ≡ true) × (rev (replaced a) ≡ 0) × (compare a (replaced a) ≡ less)
unfolding replaced compare
replaced_lem a h =
    let b = replaced a in
    let next : b.seq ≡ a.seq / 64 * 64 + 64 = omega (arith, no_rev_lem a.seq (omega arith)) in
    (
      ground (arith, is_live_lem b),
      ground (arith, rev_lem b),
      ground (arith, no_rev_lem a.seq (omega arith), no_rev_lem b.seq (omega arith)),
    )
