-- ===== src/Heap.antt =====
-- itheap.go: the binary heap of cursors, over any kind of cursor and any comparison. A list stands
-- for the slice; an index out of range panics. Places stay below twice the length plus three, so
-- `int` does not overflow.
pub mod Order
pub mod Up
pub mod Down
pub mod Next
pub mod Ties
mod Tests
use go_rdx.Prelude.{
  ℕ, zero, suc, ◌+◌, ◌-◌, ◌*◌, ◌/◌, Bool, true, false, not, ◌&&◌, ◌||◌, ltb, leb, ◌==◌,
  if◌then◌else◌, List, [], ◌∷◌, ◌++◌, length, get_elem?, set, take, drop, Option, none, some, Error,
  eos, Outcome, ok, err, panic, out_of_fuel, ◌>>=◌, or_panic,
}
use go_rdx.Cmp.{Cmp, is_below, is_eq}

-- What the heap needs of a cursor: Read, Error and HasFailed, and Record.
pub record Source (A : Type 0) : Type 0 where
  pub read : A → Outcome (A × Bool)
  pub has_failed : A → Bool
  pub error : A → Outcome (Option Error)
  pub record_of : A → Outcome (List ℕ)

-- `ih[i]`
abbrev pub at {ℓ} : {A : Type ℓ} → List A → ℕ → Outcome A
at ih i = or_panic (get_elem? ih i)

unfoldable pub swap : {A : Type 0} → List A → ℕ → ℕ → Outcome (List A)
swap ih i j = do x ← at ih i; y ← at ih j; ok (set (set ih i y) j x)

module _ {A : Type 0} (z : A → A → Outcome Cmp) where
  -- `z(&ih[i], &ih[j]) < Eq`
  unfoldable pub below : List A → ℕ → ℕ → Outcome Bool
  below ih i j = do x ← at ih i; y ← at ih j; c ← z x y; ok (is_below c)

  unfoldable pub up_loop : (fuel : ℕ) → List A → ℕ → Outcome (List A)
  unfolding below swap
  up_loop zero ih a = out_of_fuel
  up_loop (suc fuel) ih a =
      let parent = (a - 1) / 2 in
      let rise = swap ih parent a >>= λ ih'. up_loop fuel ih' parent in
      let step = below ih a parent >>= λ less. if less then rise else ok ih in
      if parent == a then ok ih else step

  unfoldable pub up : List A → ℕ → Outcome (List A)
  unfolding up_loop
  up ih a = up_loop (suc a) ih a

  -- LastUp of an empty heap calls Up with -1, which returns at once.
  unfoldable pub last_up : List A → Outcome (List A)
  unfolding up
  last_up ih = if length ih == 0 then ok ih else up ih (length ih - 1)

  unfoldable pub lesser_child : List A → ℕ → Outcome ℕ
  unfolding below
  lesser_child ih i =
      if ltb (2 * i + 2) (length ih)
      then (below ih (2 * i + 2) (2 * i + 1) >>= λ less. ok (if less then 2 * i + 2 else 2 * i + 1))
      else ok (2 * i + 1)

  unfoldable pub down_loop : (fuel : ℕ) → List A → ℕ → Outcome (List A × ℕ)
  unfolding lesser_child below swap
  down_loop zero ih i = out_of_fuel
  down_loop (suc fuel) ih i =
      let step : Outcome (List A × ℕ) = do
        j ← lesser_child ih i
        less ← below ih j i
        let sink = swap ih i j >>= λ ih'. down_loop fuel ih' j
        if less then sink else ok (ih, i)
      in if ltb (2 * i + 1) (length ih) then step else ok (ih, i)

  -- Down returns whether it moved anything.
  unfoldable pub down : List A → ℕ → Outcome (List A × Bool)
  unfolding down_loop
  down ih i0 = down_loop (length ih + 1) ih i0 >>= λ (ih', i). ok (ih', ltb i0 i)

  -- The queue of EqUp holds the places to compare with the root.
  unfoldable pub eq_loop : (fuel : ℕ) → List ℕ → ℕ → List A → Outcome (List A × ℕ)
  unfolding swap
  eq_loop zero q eqs ih = out_of_fuel
  eq_loop (suc fuel) [] eqs ih = ok (ih, eqs)
  eq_loop (suc fuel) (n ∷ q) eqs ih =
      let step : Outcome (List A × ℕ) = do
        x ← at ih 0
        y ← at ih n
        c ← z x y
        let tied = swap ih eqs n >>= eq_loop fuel (q ++ ((2 * n + 1) ∷ (2 * n + 2) ∷ [])) (eqs + 1)
        let apart = eq_loop fuel q eqs ih
        if is_eq c then tied else apart
      in if ltb n (length ih) then step else ok (ih, eqs)

  unfoldable pub eq_up : List A → Outcome (List A × ℕ)
  unfolding eq_loop
  eq_up ih =
      if ltb (length ih) 2 then ok (ih, length ih) else eq_loop (length ih + 1) (1 ∷ 2 ∷ []) 1 ih

  unfoldable pub remove : List A → ℕ → Outcome (List A)
  unfolding swap down
  remove ih i =
      let l = length ih - 1 in
      swap ih l i >>= λ ih'.
      let short = take l ih' in
      if ltb i l then (down short i >>= λ (ih'', moved). ok ih'') else ok short

  -- The loop of `up` over the places from `i` on, of which `count` are left.
  unfoldable pub ups : (count : ℕ) → List A → ℕ → Outcome (List A)
  unfolding up
  ups zero ih i = ok ih
  ups (suc count) ih i = up ih i >>= λ ih'. ups count ih' (i + 1)

  module _ (source : Source A) where
    -- The cursor at `i` has moved on, `more` says to an element.
    unfoldable pub settle : List A → ℕ → Bool → Outcome (List A)
    unfolding down remove
    settle ih i more = if more then (down ih i >>= λ (ih', moved). ok ih') else remove ih i

    -- NextK, from the place `k - 1` down to the root; it stops at a cursor that has failed.
    unfoldable pub next_k : ℕ → List A → Outcome (List A × Option Error)
    unfolding settle
    next_k zero ih = ok (ih, none)
    next_k (suc i) ih = do
      x ← at ih i
      (x', more) ← source.read x
      let ih' = set ih i x'
      let go_on = settle ih' i more >>= next_k i
      let failed = source.error x' >>= λ e. ok (ih', e)
      (if more || not (source.has_failed x') then go_on else failed)

    -- MergeNext. `merge` merges the tied cursors, and reorders them. The bytes that Go returns with
    -- an error are not modelled.
    unfoldable pub merge_next :
        (List ℕ → List A → Outcome (List ℕ × List A)) → List ℕ → List A → Outcome (List ℕ × List A)
    unfolding eq_up next_k ups
    merge_next merge out ih = do
      (tied, eqlen) ← eq_up ih
      (out', merged) ←
          (if eqlen == 1
            then (do x ← at tied 0; r ← source.record_of x; ok (out ++ r, tied))
            else (do (out', eqs) ← merge out (take eqlen tied); ok (out', eqs ++ drop eqlen tied)))
      (next, e) ← next_k eqlen merged
      sorted ← (if ltb 1 eqlen then ups (length next - eqlen) next eqlen else ok next)
      elim e [ none ↦ ok (out', sorted) | some e' ↦ err e' ]

    -- The loop of HeapMerge.
    unfoldable pub merge_all :
        (List ℕ → List A → Outcome (List ℕ × List A))
        → (fuel : ℕ) → List ℕ
        → List A
        → Outcome (List ℕ)
    unfolding merge_next
    merge_all merge zero out ih = out_of_fuel
    merge_all merge (suc fuel) out ih =
        let rest = merge_next merge out ih >>= λ (out', ih'). merge_all merge fuel out' ih' in
        if length ih == 0 then ok out else rest

    -- IntersectNext from the heap of `l` cursors that it starts with. It ends when all cursors
    -- stand at equal elements, or when one has ended, which empties the heap. A cursor of the heap
    -- has data.
    unfoldable pub intersect_loop : (fuel : ℕ) → ℕ → List A → Outcome (Option A × List A)
    unfolding eq_up next_k
    intersect_loop zero l ih = out_of_fuel
    intersect_loop (suc fuel) l ih = do
      (tied, eqlen) ← eq_up ih
      first ← at tied 0
      (next, e) ← next_k eqlen tied
      let found = if eqlen == l then some first else none
      let again = intersect_loop fuel l next
      elim e [
        | some e' ↦ err e'
        | none ↦
            if not (length next == l)
            then ok (found, [])
            else if eqlen == l
            then ok (found, next)
            else again
      ]

    unfoldable pub intersect_next : (fuel : ℕ) → List A → Outcome (Option A × List A)
    unfolding intersect_loop
    intersect_next fuel ih = if length ih == 0 then err eos else intersect_loop fuel (length ih) ih
