-- ===== src/Heap/Order.antt =====
-- The order of a heap, for a comparison that gives a result on sound cursors.
use go_rdx.Prelude.{ℕ, ◌-◌, ◌/◌, ◌≤◌, ◌<◌, ◌≡◌, false, List, length, get_or, Outcome, ok}
use go_rdx.Prelude.Places.{get_elem?-get_or, exchange}
use go_rdx.Cmp.{Cmp, is_below, IsWeakOrder}
use go_rdx.Heap.{swap, below}

-- `z` compares sound cursors by `order`, whose "is below" is a strict weak order.
pub record Compares {A : Type 0} (P : A → Type 0) (order : A → A → Cmp) (z : A → A → Outcome Cmp)
    : Type 0 where
  pub gives : (x y : A) → P x → P y → z x y ≡ ok (order x y)
  pub weak_order : IsWeakOrder (λ x y. is_below (order x y))

abbrev pub parent : ℕ → ℕ
parent c = (c - 1) / 2

-- `d` stands for the places behind the end.
module _ {A : Type 0} (P : A → Type 0) (order : A → A → Cmp) (d : A) where
  -- The cursor at `i` is not above the one at `c`.
  abbrev pub InOrder : List A → ℕ → ℕ → Type 0
  InOrder ih i c = is_below (order (get_or ih c d) (get_or ih i d)) ≡ false

  abbrev pub AllSound : List A → Type 0
  AllSound ih = (i : ℕ) → i < length ih → P (get_or ih i d)

  -- The edges whose parent is at `lo` or later are in order.
  abbrev pub IsHeapFrom : ℕ → List A → Type 0
  IsHeapFrom lo ih = (c : ℕ) → 0 < c → c < length ih → lo ≤ parent c → InOrder ih (parent c) c

  abbrev pub IsHeap : List A → Type 0
  IsHeap ih = (c : ℕ) → 0 < c → c < length ih → InOrder ih (parent c) c

  module _ (z : A → A → Outcome Cmp) (compares : Compares P order z) where
    pub below_lem :
        (ih : List A) (i j : ℕ)
        → AllSound ih
        → i < length ih
        → j < length ih
        → below z ih i j ≡ ok (is_below (order (get_or ih i d) (get_or ih j d)))
    unfolding below
    below_lem ih i j sound hi hj = rw (
      get_elem?-get_or d ih i hi,
      get_elem?-get_or d ih j hj,
      compares.gives (get_or ih i d) (get_or ih j d) (sound i hi) (sound j hj),
    )

pub swap-exchange :
    {A : Type 0} (d : A) (ih : List A) (i j : ℕ)
    → i < length ih
    → j < length ih
    → swap ih i j ≡ ok (exchange d ih i j)
unfolding swap
swap-exchange d ih i j hi hj = rw (get_elem?-get_or d ih i hi, get_elem?-get_or d ih j hj)
