-- ===== src/Merge.antt =====
-- rdx.go: the merge of the values of FIRST elements. Every merger appends one of the values.
pub mod Winner
pub mod Values
pub mod Elements
mod Tests
use go_rdx.Prelude.{ℕ, Bool, if◌then◌else◌, List, [], ◌∷◌, ◌++◌}
use go_rdx.Prelude.Int.{ltb_ℤ}
use go_rdx.Cmp.{is_below}
use go_rdx.Ident
use go_rdx.Ident.{unzip_id}
use go_rdx.ZipInt.{unzip_int64, unzip_float64}
use go_rdx.Compare.{float_lt, bytes_order}

-- The loop, with the winner so far; `beats b win` is the test that replaces `win` by `b`.
unfoldable pub pick : {A : Type 0} → (A → A → Bool) → A → List A → A
pick beats win [] = win
pick beats win (b ∷ bs) = pick beats (if beats b win then b else win) bs

-- The first value wins at once; without values `win` stays nil.
unfoldable pub winner : (List ℕ → List ℕ → Bool) → List (List ℕ) → List ℕ
unfolding pick
winner beats [] = []
winner beats (b ∷ bs) = pick beats b bs

unfoldable pub float_beats : List ℕ → List ℕ → Bool
float_beats b win = float_lt (unzip_float64 win) (unzip_float64 b)

unfoldable pub integer_beats : List ℕ → List ℕ → Bool
integer_beats b win = ltb_ℤ (unzip_int64 win) (unzip_int64 b)

unfoldable pub reference_beats : List ℕ → List ℕ → Bool
reference_beats b win = is_below (Ident.compare (unzip_id win) (unzip_id b))

unfoldable pub string_beats : List ℕ → List ℕ → Bool
string_beats b win = is_below (bytes_order win b)

unfoldable pub merge_values_f : List ℕ → List (List ℕ) → List ℕ
unfolding winner float_beats
merge_values_f out bare = out ++ winner float_beats bare

unfoldable pub merge_values_i : List ℕ → List (List ℕ) → List ℕ
unfolding winner integer_beats
merge_values_i out bare = out ++ winner integer_beats bare

unfoldable pub merge_values_r : List ℕ → List (List ℕ) → List ℕ
unfolding winner reference_beats
merge_values_r out bare = out ++ winner reference_beats bare

unfoldable pub merge_values_s : List ℕ → List (List ℕ) → List ℕ
unfolding winner string_beats
merge_values_s out bare = out ++ winner string_beats bare

unfoldable pub merge_values_t : List ℕ → List (List ℕ) → List ℕ
unfolding merge_values_s
merge_values_t = merge_values_s
