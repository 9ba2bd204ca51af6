-- ===== src/Merge/Elements.antt =====
-- rdx.go and itheap.go: the merge of documents. HeapMerge puts a cursor on each input into a heap,
-- and MergeSameSpotElements merges those that stand at the same place, with HeapMerge for the
-- content of containers.
pub mod Single
mod Tests
use go_rdx.Prelude.{
  ℕ, zero, suc, ◌+◌, ◌-◌, Bool, ◌&&◌, ltb, ◌==◌, if◌then◌else◌, List, [], ◌∷◌, ◌++◌, length, take,
  drop, byte, Option, none, some, Error, bad_rdx_record, Outcome, ok, err, out_of_fuel, ◌>>=◌,
}
use go_rdx.Cmp.{Cmp, eq, is_below, is_above}
use go_rdx.Ident.{RdxId, zip_id, id_less}
use go_rdx.Tlv.{Closed, open_tlv, close_tlv}
use go_rdx.Iter.{
  Iter, new_iter, read, has_failed, iter_error, iter_record, iter_lit, iter_id, value, is_plex,
  lit_float, lit_integer, lit_reference, lit_string, lit_term, lit_tuple, lit_linear, lit_euler,
  lit_multix,
}
use go_rdx.Compare.{
  compare_lww, compare_tuple, compare_linear, compare_euler, compare_multix, is_same,
}
use go_rdx.Heap.{Source, at, swap, last_up, merge_all}
use go_rdx.Merge.{merge_values_f, merge_values_i, merge_values_r, merge_values_s, merge_values_t}

abbrev pub Order : Type 0
Order = Iter → Iter → Outcome Cmp

abbrev pub cursors : Source Iter
cursors = record {
  read = read;
  has_failed = has_failed;
  error = iter_error;
  record_of = iter_record;
}

-- The loop of Iterize, and of Heapize with LastUp after each input that is not empty.
unfoldable pub cursor_on : List Iter → List ℕ → Outcome (List Iter)
cursor_on heap r = do
  (it, more) ← read (new_iter r)
  e ← iter_error it
  let failed : Outcome (List Iter) = elim e [ none ↦ ok heap | some e' ↦ err e' ]
  (if more then ok (heap ++ it ∷ []) else failed)

unfoldable pub heapize_loop : Order → List (List ℕ) → List Iter → Outcome (List Iter)
unfolding cursor_on last_up
heapize_loop z [] heap = ok heap
heapize_loop z (r ∷ rdx) heap =
    (if length r == 0 then ok heap else (cursor_on heap r >>= last_up z)) >>= heapize_loop z rdx

unfoldable pub heapize : List (List ℕ) → Order → Outcome (List Iter)
unfolding heapize_loop
heapize rdx z = heapize_loop z rdx []

unfoldable pub iterize_loop : List (List ℕ) → List Iter → Outcome (List Iter)
unfolding cursor_on
iterize_loop [] heap = ok heap
iterize_loop (r ∷ rdx) heap =
    (if length r == 0 then ok heap else cursor_on heap r) >>= iterize_loop rdx

unfoldable pub iterize : List (List ℕ) → Outcome (List Iter)
unfolding iterize_loop
iterize rdx = iterize_loop rdx []

-- The variables of the loop of MergeSameSpotElements: the cursors, of which the first `live` are
-- not dropped, the number that tie with the first, and the latest identifier of those.
pub record Spot : Type 0 where
  pub ih : List Iter
  pub live : ℕ
  pub tied : ℕ
  pub id : RdxId

-- Revisions of one container are merged; of all else the last one wins.
unfoldable pub spot_order : Order
spot_order a b =
    is_same a b >>= λ same. if same && is_plex (iter_lit a) then ok eq else compare_lww a b

unfoldable pub spot_wins : Spot → ℕ → Outcome Spot
unfolding swap
spot_wins s i = do
  ih ← swap s.ih 0 i
  first ← at ih 0
  id ← iter_id first
  ok (record s { ih = ih; tied = 1; id = id })

unfoldable pub spot_loses : Spot → ℕ → Outcome Spot
unfolding swap
spot_loses s i = swap s.ih (s.live - 1) i >>= λ ih. ok (record s { ih = ih; live = s.live - 1 })

unfoldable pub spot_ties : Spot → ℕ → Outcome Spot
unfolding swap
spot_ties s i = do
  ih ← swap s.ih s.tied i
  it ← at ih s.tied
  id ← iter_id it
  ok (record s { ih = ih; tied = s.tied + 1; id = if id_less s.id id then id else s.id })

-- The loop from the place `i` on. A round moves on or drops a cursor.
unfoldable pub spot_loop : (fuel : ℕ) → Spot → ℕ → Outcome Spot
unfolding spot_order spot_wins spot_loses spot_ties
spot_loop zero s i = out_of_fuel
spot_loop (suc fuel) s i =
    let step : Outcome Spot = do
      first ← at s.ih 0
      it ← at s.ih i
      c ← spot_order first it
      s' ←
          (if is_below c
            then spot_wins s i
            else if is_above c
            then spot_loses s i
            else spot_ties s i)
      spot_loop fuel s' (if is_above c then i else i + 1)
    in if ltb i s.live then step else ok s

unfoldable pub values_of : List Iter → Outcome (List (List ℕ))
values_of [] = ok []
values_of (it ∷ its) = do v ← value it; vs ← values_of its; ok (v ∷ vs)

-- The switch on the type; `sub` is HeapMerge.
unfoldable pub merge_contents :
    (Order → List ℕ → List (List ℕ) → Outcome (List ℕ))
    → ℕ
    → List ℕ
    → List (List ℕ)
    → Outcome (List ℕ)
unfolding merge_values_f merge_values_i merge_values_r merge_values_s merge_values_t
merge_contents sub lit out vals =
    if lit == lit_float
    then ok (merge_values_f out vals)
    else if lit == lit_integer
    then ok (merge_values_i out vals)
    else if lit == lit_reference
    then ok (merge_values_r out vals)
    else if lit == lit_string
    then ok (merge_values_s out vals)
    else if lit == lit_term
    then ok (merge_values_t out vals)
    else if lit == lit_tuple
    then sub compare_tuple out vals
    else if lit == lit_linear
    then sub compare_linear out vals
    else if lit == lit_euler
    then sub compare_euler out vals
    else if lit == lit_multix
    then sub compare_multix out vals
    else err bad_rdx_record

-- MergeSameSpotElements returns the bytes, and the cursors in the order it leaves them in.
unfoldable pub merge_same_spot :
    (Order → List ℕ → List (List ℕ) → Outcome (List ℕ))
    → List ℕ
    → List Iter
    → Outcome (List ℕ × List Iter)
unfolding spot_loop values_of merge_contents
merge_same_spot sub out ih = do
  first ← at ih 0
  id ← iter_id first
  s ← spot_loop (length ih + 1) (record { ih = ih; live = length ih; tied = 1; id = id }) 1
  winner ← at s.ih 0
  let lit = iter_lit winner
  let key = zip_id s.id
  vals ← values_of (take s.tied s.ih)
  (opened, stack) ← open_tlv out lit []
  merged ← merge_contents sub lit (opened ++ (byte (length key) ∷ key)) vals
  let closed = close_tlv merged lit stack
  elim closed.error [ none ↦ ok (closed.out, s.ih) | some e ↦ err e ]

-- HeapMerge, with fuel for the rounds and for the depth of nesting.
unfoldable pub heap_merge : (depth fuel : ℕ) → Order → List ℕ → List (List ℕ) → Outcome (List ℕ)
unfolding heapize merge_same_spot merge_all
heap_merge zero fuel z out inputs = out_of_fuel
heap_merge (suc depth) fuel z out inputs = do
  heap ← heapize inputs z
  merge_all z cursors (merge_same_spot (heap_merge depth fuel)) fuel out heap

-- Merge, of tuples at the top.
unfoldable pub merge : (depth fuel : ℕ) → List ℕ → List (List ℕ) → Outcome (List ℕ)
unfolding heap_merge
merge depth fuel out bare = heap_merge depth fuel compare_tuple out bare
