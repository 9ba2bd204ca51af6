-- ===== src/Sifting/Fuel.antt =====
-- The fuel of the loops is enough: more gives the same.
use go_rdx.Prelude.{
  ℕ, zero, suc, ◌+◌, ◌-◌, ◌*◌, ◌/◌, ◌≤◌, ◌<◌, ◌≡◌, refl, arith, Bool, true, leb, ◌==◌, Bool-cases,
  inl, inr,
}
use go_rdx.Sifting.{up_loop, lesser_child, down_loop}

module _ {S : Type 0} (less : S → ℕ → ℕ → Bool) (swap : S → ℕ → ℕ → S) (len : S → ℕ) where
  up_loop_enough :
      (n m : ℕ) (ih : S) (a : ℕ)
      → a < n
      → a < m
      → up_loop len less swap n ih a ≡ up_loop len less swap m ih a
  unfolding up_loop
  up_loop_enough zero m ih a h k = absurd (omega arith)
  up_loop_enough (suc n) zero ih a h k = absurd (omega arith)
  up_loop_enough (suc n) (suc m) ih a h k =
      let parent = (a - 1) / 2 in
      elim (Bool-cases (parent == a)) [
        | inl e ↦ rw e
        | inr e ↦
            let up : parent < a = ground arith in
            rw (up_loop_enough n m (swap ih a parent) parent (omega arith) (omega arith))
      ]

  down_loop_enough :
      (f g n : ℕ) (ih : S) (i : ℕ)
      → n ≤ i + f
      → n ≤ i + g
      → down_loop len less swap f n ih i ≡ down_loop len less swap g n ih i
  unfolding down_loop lesser_child
  down_loop_enough zero zero n ih i h k = refl
  down_loop_enough zero (suc g) n ih i h k =
      let over : leb n (2 * i + 1) ≡ true = ground arith in rw over
  down_loop_enough (suc f) zero n ih i h k =
      let over : leb n (2 * i + 1) ≡ true = ground arith in rw over
  down_loop_enough (suc f) (suc g) n ih i h k =
      let j = lesser_child len less swap n ih i in
      let below : i < j = ground arith in
      rw (down_loop_enough f g n (swap ih i j) j (omega arith) (omega arith))
