-- ===== src/Heap/Down.antt =====
-- Down restores the order of a heap in which only the cursor at one place may be too high.
use go_rdx.Prelude.{
  ℕ, zero, suc, ◌+◌, ◌-◌, ◌*◌, ◌≤◌, ◌<◌, ◌≡◌, ◌≢◌, arith, Bool, true, ltb, ltb→lt, List, length,
  get_or, Outcome, ok, Perm, Bool-cases, inl, inr,
}
use mathlib.Core.List.Perm
use go_rdx.Prelude.Places.{exchange, length-exchange, get_or-exchange, exchange-Perm}
use go_rdx.Cmp.{Cmp, is_below}
use go_rdx.Heap.{lesser_child, down_loop, down}
use go_rdx.Heap.Order.{Compares, parent, InOrder, AllSound, IsHeapFrom, below_lem, swap-exchange}

module _ {A : Type 0} (P : A → Type 0) (order : A → A → Cmp) (d : A) where
  -- The edges from `lo` on are in order but those below `i`, and the children of `i` are in order
  -- with its parent.
  pub record DownInv (lo : ℕ) (ih : List A) (i : ℕ) : Type 0 where
    pub sound : AllSound P order d ih
    pub edges :
        (c : ℕ)
        → 0 < c
        → c < length ih
        → lo ≤ parent c
        → parent c ≢ i
        → InOrder P order d ih (parent c) c
    pub bridged :
        (c : ℕ)
        → 0 < c
        → c < length ih
        → parent c ≡ i
        → 0 < i
        → lo ≤ parent i
        → InOrder P order d ih (parent i) c

  -- A child of `i` that is above none of its children.
  record IsLesserChild (ih : List A) (i j : ℕ) : Type 0 where
    inside : j < length ih
    child : parent j ≡ i
    later : i < j
    least : (c : ℕ) → 0 < c → c < length ih → parent c ≡ i → InOrder P order d ih j c

  module _ (z : A → A → Outcome Cmp) (compares : Compares P order z) where
    lesser_child-IsLesserChild :
        (ih : List A) (i : ℕ)
        → AllSound P order d ih
        → 2 * i + 1 < length ih
        → (j : ℕ) × (lesser_child z ih i ≡ ok j) × IsLesserChild ih i j
    unfolding lesser_child
    lesser_child-IsLesserChild ih i sound h =
        let w = compares.weak_order in
        let l = get_or ih (2 * i + 1) d in
        let r = get_or ih (2 * i + 2) d in
        elim (Bool-cases (ltb (2 * i + 2) (length ih))) [
          | inl both ↦
              let run =
                below_lem P order d z compares ih (2 * i + 2) (2 * i + 1) sound
                  (ltb→lt (2 * i + 2) (length ih) both) h in
              elim (Bool-cases (is_below (order r l))) [
                | inl less ↦ (
                  2 * i + 2,
                  rw (both, run, less),
                  record {
                    inside = ltb→lt (2 * i + 2) (length ih) both;
                    child = omega arith;
                    later = omega arith;
                    least = λ c p k e. ground (arith, w.strict r, w.asym r l less);
                  },
                )
                | inr more ↦ (
                  2 * i + 1,
                  rw (both, run, more),
                  record {
                    inside = h;
                    child = omega arith;
                    later = omega arith;
                    least = λ c p k e. ground (arith, w.strict l);
                  },
                )
              ]
          | inr one ↦ (
            2 * i + 1,
            rw one,
            record {
              inside = h;
              child = omega arith;
              later = omega arith;
              least = λ c p k e. ground (arith, w.strict l);
            },
          )
        ]

    sink-DownInv :
        (lo : ℕ) (ih : List A) (i j : ℕ)
        → DownInv lo ih i
        → IsLesserChild ih i j
        → is_below (order (get_or ih j d) (get_or ih i d)) ≡ true
        → DownInv lo (exchange d ih i j) j
    sink-DownInv lo ih i j v m less =
        let w = compares.weak_order in
        let size = length-exchange d ih i j in
        let hi : i < length ih = omega (arith, m.later, m.inside) in
        let here = λ (c : ℕ). get_or-exchange d ih i j c hi m.inside in
        let x = get_or ih i d in
        let y = get_or ih j d in
        record {
          sound = λ c h. ground (arith, here c, size, v.sound c, v.sound i hi, v.sound j m.inside);
          edges = λ c p k q n. ground (
            arith,
            here c,
            here (parent c),
            size,
            m.child,
            m.later,
            m.least c,
            v.edges c,
            v.bridged j,
            w.asym y x less,
          );
          bridged = λ c p k e q b.
              ground (arith, here c, here (parent j), size, m.child, m.later, v.edges c);
        }

    down_loop_restores :
        (fuel lo : ℕ) (ih : List A) (i : ℕ)
        → length ih - i < fuel
        → DownInv lo ih i
        → (ih' : List A) × (i' : ℕ) × (down_loop z fuel ih i ≡ ok (ih', i'))
          × AllSound P order d ih'
          × IsHeapFrom P order d lo ih'
          × Perm ih' ih
    unfolding down_loop
    down_loop_restores zero lo ih i f v = absurd (omega arith)
    down_loop_restores (suc fuel) lo ih i f v = elim (Bool-cases (ltb (2 * i + 1) (length ih))) [
      | inl more ↦
          let (j, child, m) =
            lesser_child-IsLesserChild ih i v.sound (ltb→lt (2 * i + 1) (length ih) more) in
          let hi : i < length ih = omega (arith, m.later, m.inside) in
          let under = below_lem P order d z compares ih j i v.sound m.inside hi in
          elim (Bool-cases (is_below (order (get_or ih j d) (get_or ih i d)))) [
            | inl less ↦
                let (ih', i', run, sound, heap, same) =
                  down_loop_restores fuel lo (exchange d ih i j) j
                    (omega (arith, m.later, length-exchange d ih i j))
                    (sink-DownInv lo ih i j v m less) in
                (
                  ih',
                  i',
                  rw (more, child, under, less, swap-exchange d ih i j hi m.inside, run),
                  sound,
                  heap,
                  Perm.trans same (exchange-Perm d ih i j hi m.inside),
                )
            | inr settled ↦ (
              ih,
              i,
              rw (more, child, under, settled),
              v.sound,
              λ c h k q. ground (
                arith,
                v.edges c,
                m.least c,
                compares.weak_order.weak (get_or ih c d) (get_or ih j d) (get_or ih i d),
              ),
              Perm.rfl,
            )
          ]
      | inr leaf ↦ (ih, i, rw leaf, v.sound, λ c h k q. ground (arith, v.edges c), Perm.rfl)
    ]

    -- For a comparison that returns on sound cursors and whose `below` is a strict weak order on
    -- them: Down returns a heap of the same cursors, given sound cursors that are a heap but for
    -- the cursor at `i`, which may stand too high; so for the part of the tree whose parents are
    -- at `lo` or later.
    pub down_restores :
        (lo : ℕ) (ih : List A) (i : ℕ)
        → DownInv lo ih i
        → (ih' : List A) × (moved : Bool) × (down z ih i ≡ ok (ih', moved))
          × AllSound P order d ih'
          × IsHeapFrom P order d lo ih'
          × Perm ih' ih
    unfolding down
    down_restores lo ih i v =
        let (ih', i', run, sound, heap, same) =
          down_loop_restores (length ih + 1) lo ih i (omega arith) v in
        (ih', ltb i i', rw run, sound, heap, same)
