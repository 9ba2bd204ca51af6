-- ===== src/Heap/Tests.antt =====
-- The theorems on the heap at concrete heaps, of numbers that stand for cursors.
use go_rdx.Prelude.{
  ℕ, zero, suc, ◌*◌, ◌<◌, ◌≡◌, ◌≢◌, refl, arith, Bool, true, false, not, ◌||◌, leb, List, [], ◌∷◌,
  ◌++◌, none, Outcome, ok, panic, Perm,
}
use go_rdx.Cmp.{Cmp, eq, by_num, is_below, is_eq}
use go_rdx.Heap.{Source, up, down, eq_up, next_k, merge_all}
use go_rdx.Heap.Order.{Compares, InOrder, parent, AllSound, IsHeap, IsHeapFrom}
use go_rdx.Heap.Up.{UpInv, up_restores}
use go_rdx.Heap.Down.{DownInv, down_restores}
use go_rdx.Heap.Next.{next_k-more}
use go_rdx.Heap.Ties.{Fronted, eq_up_fronts}

abbrev Any : ℕ → Type 0
Any n = Unit {0}

abbrev order : ℕ → ℕ → Cmp
order a b = by_num a b eq

abbrev compare : ℕ → ℕ → Outcome Cmp
compare a b = ok (order a b)

compare-Compares : Compares Any order compare
compare-Compares = record {
  gives = λ x y p q. refl;
  weak_order = record {
    strict = λ x. ground arith;
    weak = λ x y z p q. ground arith;
    asym = λ x y p. ground arith;
  };
}

ties_lem : (x y : ℕ) → is_eq (order x y) ≡ not (is_below (order x y) || is_below (order y x))
ties_lem x y = ground arith

-- A cursor moves on to ten times its number, and ends behind 50.
abbrev tens : Source ℕ
tens = record {
  read = λ n. ok (n * 10, leb n 5);
  has_failed = λ n. false;
  error = λ n. ok none;
  record_of = λ n. ok (n ∷ []);
}

-- The children of the root of a heap of three.
only_three : (Q : ℕ → Type 0) → Q 1 → Q 2 → (c : ℕ) → 0 < c → c < 3 → Q c
only_three Q one two zero h k = absurd (omega arith)
only_three Q one two (suc zero) h k = one
only_three Q one two (suc (suc zero)) h k = two
only_three Q one two (suc (suc (suc c))) h k = absurd (omega arith)

-- The leaf 3 stands too low.
low_leaf-UpInv : UpInv Any order 0 (5 ∷ 7 ∷ 3 ∷ []) 2
low_leaf-UpInv = record {
  inside = omega arith;
  sound = λ i h. tt;
  edges = λ c h k n.
      only_three (λ c. c ≢ 2 → InOrder Any order 0 (5 ∷ 7 ∷ 3 ∷ []) (parent c) c) (λ n. refl)
        (λ n. absurd (n refl)) c h k n;
  bridged = λ c h k e p. absurd (omega arith);
}

up_restores_example :
    (ih' : List ℕ) × (up compare (5 ∷ 7 ∷ 3 ∷ []) 2 ≡ ok ih')
    × AllSound Any order 0 ih'
    × IsHeap Any order 0 ih'
    × Perm ih' (5 ∷ 7 ∷ 3 ∷ [])
up_restores_example =
    up_restores Any order 0 compare compare-Compares (5 ∷ 7 ∷ 3 ∷ []) 2 low_leaf-UpInv

-- The root 9 stands too high.
high_root-DownInv : DownInv Any order 0 0 (9 ∷ 4 ∷ 6 ∷ []) 0
high_root-DownInv = record {
  sound = λ i h. tt;
  edges = λ c h k q n. absurd (omega arith);
  bridged = λ c h k e p q. absurd (omega arith);
}

down_restores_example :
    (ih' : List ℕ) × (moved : Bool) × (down compare (9 ∷ 4 ∷ 6 ∷ []) 0 ≡ ok (ih', moved))
    × AllSound Any order 0 ih'
    × IsHeapFrom Any order 0 0 ih'
    × Perm ih' (9 ∷ 4 ∷ 6 ∷ [])
down_restores_example =
    down_restores Any order 0 compare compare-Compares 0 (9 ∷ 4 ∷ 6 ∷ []) 0 high_root-DownInv

three-IsHeap : IsHeap Any order 0 (4 ∷ 6 ∷ 4 ∷ [])
three-IsHeap c h k =
    only_three (λ c. InOrder Any order 0 (4 ∷ 6 ∷ 4 ∷ []) (parent c) c) refl refl c h k

eq_up_fronts_example :
    (now : List ℕ) × (k : ℕ) × (eq_up compare (4 ∷ 6 ∷ 4 ∷ []) ≡ ok (now, k))
    × Fronted Any order 0 compare compare-Compares ties_lem
        (4 ∷ 6 ∷ 4 ∷ [])
        (λ i h. tt)
        three-IsHeap
        k
        now
eq_up_fronts_example =
    eq_up_fronts Any order 0 compare compare-Compares ties_lem (4 ∷ 6 ∷ 4 ∷ []) (λ i h. tt)
      three-IsHeap (omega arith)

next_k-more_example :
    (ih' : List ℕ) × (next_k compare tens 1 (4 ∷ 6 ∷ 4 ∷ []) ≡ ok (ih', none))
    × AllSound Any order 0 ih'
    × IsHeap Any order 0 ih'
    × Perm ih' (40 ∷ 6 ∷ 4 ∷ [])
next_k-more_example =
    next_k-more Any order 0 compare compare-Compares tens 4 40 (6 ∷ 4 ∷ []) (λ i h. tt) three-IsHeap
      refl tt

-- Sorted lists of numbers as cursors, which stand at their first number.
abbrev head : List ℕ → ℕ
head [] = 0
head (n ∷ ns) = n

abbrev by_head : List ℕ → List ℕ → Outcome Cmp
by_head a b = ok (by_num (head a) (head b) eq)

abbrev step : List ℕ → Outcome (List ℕ × Bool)
step [] = ok ([], false)
step (n ∷ []) = ok ([], false)
step (n ∷ m ∷ ns) = ok (m ∷ ns, true)

abbrev lists : Source (List ℕ)
lists = record {
  read = step;
  has_failed = λ a. false;
  error = λ a. ok none;
  record_of = λ a. ok (head a ∷ []);
}

-- Tied cursors are merged into one number.
abbrev merge_tied : List ℕ → List (List ℕ) → Outcome (List ℕ × List (List ℕ))
merge_tied out [] = panic
merge_tied out (a ∷ eqs) = ok (out ++ (head a ∷ []), a ∷ eqs)

-- Eight lists in the order in which Heapize leaves them. After the first round the heap is out of
-- order, so 4 comes twice, and before 2.
eight_out_of_order :
    merge_all by_head lists merge_tied 20 [] (
      (0 ∷ 7 ∷ 10 ∷ [])
      ∷ (0 ∷ 11 ∷ [])
      ∷ (4 ∷ [])
      ∷ (0 ∷ 10 ∷ [])
      ∷ (5 ∷ [])
      ∷ (7 ∷ 11 ∷ [])
      ∷ (7 ∷ [])
      ∷ (2 ∷ 4 ∷ [])
      ∷ [])
    ≡ ok (0 ∷ 4 ∷ 2 ∷ 4 ∷ 5 ∷ 7 ∷ 10 ∷ 11 ∷ [])
unfolding merge_all
eight_out_of_order = refl
