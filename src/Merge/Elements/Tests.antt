-- ===== src/Merge/Elements/Tests.antt =====
-- Runs of the merge.
use go_rdx.Prelude.{◌≡◌, arith, [], ◌∷◌, ok}
use go_rdx.Compare.{compare_multix}
use go_rdx.Iter.Streams.{Written, stream_of}
use go_rdx.Merge.Elements.{heap_merge}
use go_rdx.Merge.Elements.Single.{heap_merge-single}

abbrev a_term : Written
a_term = record {
  lit = b'T';
  key = 3 ∷ [];
  val = b'A' ∷ [];
  up = omega arith;
  key_fits = omega arith;
  fits = omega arith;
}

heap_merge-single_example :
    heap_merge 1 3 compare_multix (9 ∷ []) (stream_of (a_term ∷ a_term ∷ []) ∷ [])
    ≡ ok (9 ∷ stream_of (a_term ∷ a_term ∷ []))
heap_merge-single_example =
    heap_merge-single 0 3 compare_multix (9 ∷ []) a_term (a_term ∷ []) (omega arith)
