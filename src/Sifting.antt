-- ===== src/Sifting.antt =====
-- heap.go: the loops that restore a heap over any `sort.Interface`: a state with a length, a test of
-- two places and a swap of two places, which are parameters. Places are small enough that
-- `2*i + 1` does not overflow.
mod Fuel
use go_rdx.Prelude.{
  ℕ, zero, suc, ◌+◌, ◌-◌, ◌*◌, ◌/◌, Bool, not, ltb, leb, ◌==◌, ◌&&◌, ◌||◌, if◌then◌else◌,
}

module _ {S : Type 0} (len : S → ℕ) (less : S → ℕ → ℕ → Bool) (swap : S → ℕ → ℕ → S) where
  -- One more round than `a` is enough, since the parent is a smaller place.
  unfoldable pub up_loop : (fuel : ℕ) → S → ℕ → S
  up_loop zero ih a = ih
  up_loop (suc fuel) ih a =
      let parent = (a - 1) / 2 in
      let rest = up_loop fuel (swap ih a parent) parent in
      if parent == a || not (less ih a parent) then ih else rest

  unfoldable pub heap_up : S → S
  unfolding up_loop
  heap_up ih = if len ih == 0 then ih else up_loop (len ih) ih (len ih - 1)

  -- The lesser of the children of `i`, of which the first is there.
  unfoldable pub lesser_child : ℕ → S → ℕ → ℕ
  lesser_child n ih i =
      if ltb (2 * i + 2) n && less ih (2 * i + 2) (2 * i + 1) then 2 * i + 2 else 2 * i + 1

  unfoldable pub down_loop : (fuel : ℕ) → ℕ → S → ℕ → S
  unfolding lesser_child
  down_loop zero n ih i = ih
  down_loop (suc fuel) n ih i =
      let j = lesser_child n ih i in
      let rest = down_loop fuel n (swap ih i j) j in
      if leb n (2 * i + 1) || not (less ih j i) then ih else rest

  unfoldable pub heap_down_n : S → ℕ → S
  unfolding down_loop
  heap_down_n ih i0 = down_loop (len ih) (len ih) ih i0

  unfoldable pub heap_down : S → S
  unfolding heap_down_n
  heap_down ih = heap_down_n ih 0
