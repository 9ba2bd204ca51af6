-- ===== src/Heap/Up.antt =====
-- Up restores the order of a heap in which only the cursor at one place may be too low.
use go_rdx.Prelude.{
  ℕ, zero, suc, ◌<◌, ◌≡◌, ◌≢◌, arith, true, ◌==◌, List, length, get_or, Outcome, ok, Perm,
  Bool-cases, inl, inr,
}
use mathlib.Core.List.Perm
use go_rdx.Prelude.Places.{exchange, length-exchange, get_or-exchange, exchange-Perm}
use go_rdx.Cmp.{Cmp, is_below}
use go_rdx.Heap.{up_loop, up}
use go_rdx.Heap.Order.{Compares, parent, InOrder, AllSound, IsHeap, below_lem, swap-exchange}

module _ {A : Type 0} (P : A → Type 0) (order : A → A → Cmp) (d : A) where
  -- All edges are in order but the one above `a`, and the children of `a` are below its parent.
  pub record UpInv (ih : List A) (a : ℕ) : Type 0 where
    pub inside : a < length ih
    pub sound : AllSound P order d ih
    pub edges : (c : ℕ) → 0 < c → c < length ih → c ≢ a → InOrder P order d ih (parent c) c
    pub bridged :
        (c : ℕ) → 0 < c → c < length ih → parent c ≡ a → 0 < a → InOrder P order d ih (parent a) c

  module _ (z : A → A → Outcome Cmp) (compares : Compares P order z) where
    rise-UpInv :
        (ih : List A) (a : ℕ)
        → UpInv ih a
        → 0 < a
        → is_below (order (get_or ih a d) (get_or ih (parent a) d)) ≡ true
        → UpInv (exchange d ih (parent a) a) (parent a)
    rise-UpInv ih a v pos under =
        let w = compares.weak_order in
        let size = length-exchange d ih (parent a) a in
        let above : parent a < length ih = omega (arith, v.inside) in
        let here = λ (c : ℕ). get_or-exchange d ih (parent a) a c above v.inside in
        let x = get_or ih a d in
        let p = get_or ih (parent a) d in
        record {
          inside = omega (arith, v.inside, size);
          sound = λ c h.
              ground (arith, here c, size, v.sound c, v.sound a v.inside, v.sound (parent a) above);
          edges = λ c h k n. ground (
            arith,
            here c,
            here (parent c),
            size,
            v.edges c,
            v.bridged c,
            w.asym x p under,
            w.weak (get_or ih c d) p x,
          );
          bridged = λ c h k e q. ground (
            arith,
            here c,
            here (parent (parent a)),
            size,
            v.edges c,
            v.edges (parent a),
            w.weak (get_or ih c d) p (get_or ih (parent (parent a)) d),
          );
        }

    up_loop_restores :
        (fuel : ℕ) (ih : List A) (a : ℕ)
        → a < fuel
        → UpInv ih a
        → (ih' : List A) × (up_loop z fuel ih a ≡ ok ih')
          × AllSound P order d ih'
          × IsHeap P order d ih'
          × Perm ih' ih
    unfolding up_loop
    up_loop_restores zero ih a f v = absurd (omega arith)
    up_loop_restores (suc fuel) ih a f v = elim (Bool-cases (parent a == a)) [
      | inl root ↦ (ih, rw root, v.sound, λ c h k. ground (arith, v.edges c), Perm.rfl)
      | inr deeper ↦
          let above : parent a < length ih = ground (arith, v.inside) in
          let under = below_lem P order d z compares ih a (parent a) v.sound v.inside above in
          elim (Bool-cases (is_below (order (get_or ih a d) (get_or ih (parent a) d)))) [
            | inl less ↦
                let (ih', run, sound, heap, same) =
                  up_loop_restores fuel (exchange d ih (parent a) a) (parent a) (ground arith)
                    (rise-UpInv ih a v (ground arith) less) in
                (
                  ih',
                  rw (deeper, under, less, swap-exchange d ih (parent a) a above v.inside, run),
                  sound,
                  heap,
                  Perm.trans same (exchange-Perm d ih (parent a) a above v.inside),
                )
            | inr settled ↦ (
              ih,
              rw (deeper, under, settled),
              v.sound,
              λ c h k. ground (arith, v.edges c),
              Perm.rfl,
            )
          ]
    ]

    -- For a comparison that returns on sound cursors and whose `below` is a strict weak order on
    -- them: Up returns a heap of the same cursors, given sound cursors that are a heap but for the
    -- cursor at `a`, which may stand too low.
    pub up_restores :
        (ih : List A) (a : ℕ)
        → UpInv ih a
        → (ih' : List A) × (up z ih a ≡ ok ih')
          × AllSound P order d ih'
          × IsHeap P order d ih'
          × Perm ih' ih
    unfolding up
    up_restores ih a v = up_loop_restores (suc a) ih a (omega arith) v
