-- ===== src/Merge/Tests.antt =====
-- Runs of the mergers.
use go_rdx.Prelude.{ℕ, ◌≡◌, refl, false, List, [], ◌∷◌}
use go_rdx.Prelude.Int.{ltb_ℤ}
use go_rdx.ZipInt.{unzip_int64, unzip_float64, zip_float64}
use go_rdx.Compare.{float_lt}
use go_rdx.Merge.{
  float_beats, winner, pick, merge_values_f, merge_values_i, merge_values_r, merge_values_s,
}
use go_rdx.Merge.Winner.{Occurs}
use go_rdx.Merge.Values.{
  SameValues, merge_values_s-SameValues, merge_values_i-max, merge_values_assoc, WriteSame,
}
use go_rdx.Ident.{base, unzip_id}

turned : (a b : List ℕ) (v : List ℕ) → Occurs v (a ∷ b ∷ []) → Occurs v (b ∷ a ∷ [])
turned a b v (Occurs.head e) = Occurs.tail (Occurs.head e)
turned a b v (Occurs.tail (Occurs.head e)) = Occurs.head e
turned a b v (Occurs.tail (Occurs.tail m)) = elim m [ ]

swapped : (a b : List ℕ) → SameValues (a ∷ b ∷ []) (b ∷ a ∷ [])
swapped a b = (turned a b, turned b a)

merge_values_s-SameValues_example :
    merge_values_s [] ((1 ∷ 2 ∷ []) ∷ (3 ∷ []) ∷ [])
    ≡ merge_values_s [] ((3 ∷ []) ∷ (1 ∷ 2 ∷ []) ∷ [])
merge_values_s-SameValues_example =
    merge_values_s-SameValues [] ((1 ∷ 2 ∷ []) ∷ (3 ∷ []) ∷ []) ((3 ∷ []) ∷ (1 ∷ 2 ∷ []) ∷ [])
      (swapped (1 ∷ 2 ∷ []) (3 ∷ []))

merge_values_i-max_example :
    (w : List ℕ) × (merge_values_i (9 ∷ []) ((6 ∷ []) ∷ (5 ∷ []) ∷ []) ≡ 9 ∷ w)
    × Occurs w ((6 ∷ []) ∷ (5 ∷ []) ∷ [])
    × (ltb_ℤ (unzip_int64 w) (unzip_int64 (5 ∷ [])) ≡ false)
merge_values_i-max_example =
    merge_values_i-max (9 ∷ []) (6 ∷ []) ((5 ∷ []) ∷ []) (5 ∷ []) (Occurs.tail (Occurs.head refl))

merge_values_assoc_example :
    (merge_values_s [] (merge_values_s [] ((1 ∷ []) ∷ []) ∷ merge_values_s [] ((2 ∷ []) ∷ []) ∷ [])
      ≡ merge_values_s [] ((1 ∷ []) ∷ (2 ∷ []) ∷ []))
    × WriteSame unzip_int64
        (merge_values_i []
          (merge_values_i [] ((1 ∷ []) ∷ []) ∷ merge_values_i [] ((2 ∷ []) ∷ []) ∷ []))
        (merge_values_i [] ((1 ∷ []) ∷ (2 ∷ []) ∷ []))
        []
    × WriteSame
        (λ v. base (unzip_id v))
        (merge_values_r []
          (merge_values_r [] ((1 ∷ []) ∷ []) ∷ merge_values_r [] ((2 ∷ []) ∷ []) ∷ []))
        (merge_values_r [] ((1 ∷ []) ∷ (2 ∷ []) ∷ []))
        []
merge_values_assoc_example = merge_values_assoc [] (1 ∷ []) (2 ∷ []) [] []

abbrev one : List ℕ
one = zip_float64 0x3ff0000000000000

abbrev two : List ℕ
two = zip_float64 0x4000000000000000

abbrev not_a_number : List ℕ
not_a_number = zip_float64 0x7ff8000000000000

-- 1, NaN and 2 merged at once and from the inside.
nan_merges :
    (merge_values_f [] (one ∷ not_a_number ∷ two ∷ []) ≡ two)
    × (merge_values_f [] (one ∷ merge_values_f [] (not_a_number ∷ two ∷ []) ∷ []) ≡ one)
unfolding merge_values_f float_beats winner pick float_lt zip_float64 unzip_float64
nan_merges = (refl, refl)
