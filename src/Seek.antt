-- ===== src/Seek.antt =====
-- itheap.go: Iter.Seek, which moves a cursor to an identifier.
pub mod Docs
mod Tests
use go_rdx.Prelude.{
  ℕ, zero, suc, Bool, true, false, not, List, if◌then◌else◌, Outcome, ok, out_of_fuel, ◌>>=◌,
}
use go_rdx.Cmp.{Cmp, less, is_below}
use go_rdx.Ident.{RdxId, compare}
use go_rdx.Iter.{Iter, read, iter_id, has_data, is_at_start}

-- The loop: `z` is the comparison of the element that the cursor is at.
unfoldable pub seek_loop : (fuel : ℕ) → RdxId → Cmp → Iter → Outcome (Iter × Cmp)
seek_loop zero id z it = out_of_fuel
seek_loop (suc fuel) id z it =
    let step : Outcome (Iter × Cmp) = do
      (next, more) ← read it
      let go_on : Outcome (Iter × Cmp) =
          (iter_id next >>= λ i. seek_loop fuel id (compare i id) next)
      (if more then go_on else ok (next, z))
    in if is_below z then step else ok (it, z)

unfoldable pub seek : (fuel : ℕ) → RdxId → Iter → Outcome (Iter × Cmp)
unfolding seek_loop
seek fuel id it =
    let sought = λ (at : Iter). (iter_id at >>= λ i. seek_loop fuel id (compare i id) at) in
    let started : Outcome (Iter × Cmp) = do
      (first, more) ← read it
      let at_first = sought first
      (if more then at_first else ok (first, less))
    in let begun = if is_at_start it then started else sought it in
      if has_data it then begun else ok (it, less)
