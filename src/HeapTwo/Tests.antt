-- ===== src/HeapTwo/Tests.antt =====
-- Runs of Heap2 on numbers that stand for cursors: a cursor moves on to ten times its number.
use go_rdx.Prelude.{ℕ, ◌*◌, ◌≡◌, refl, Bool, true, ltb, List, [], ◌∷◌, ◌++◌, Outcome, ok}
use go_rdx.Sifting.{heap_up, heap_down_n}
use go_rdx.HeapTwo.{Heap2, make_heap2, read_merged}

abbrev move_on : ℕ → Outcome (ℕ × Bool)
move_on n = ok (n * 10, ltb n 50)

abbrev below_500 : ℕ → Bool
below_500 n = ltb n 500

abbrev write_first : List ℕ → List ℕ → Outcome (List ℕ)
write_first [] out = ok out
write_first (n ∷ ns) out = ok (out ++ (n ∷ []))

abbrev empty_heap : Heap2 ℕ
empty_heap = record { inputs = []; out = []; oldlen = 0 }

abbrev three : Heap2 ℕ
three = make_heap2 ltb write_first move_on below_500 (60 ∷ 4 ∷ 4 ∷ []) empty_heap

-- The two least are merged into one.
ties_merged :
    read_merged ltb write_first move_on below_500 three
    ≡ ok (record { inputs = 40 ∷ 60 ∷ 40 ∷ []; out = 4 ∷ []; oldlen = 0 }, true)
unfolding read_merged make_heap2 heap_up heap_down_n
ties_merged = refl
