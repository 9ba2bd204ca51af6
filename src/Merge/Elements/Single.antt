-- ===== src/Merge/Elements/Single.antt =====
-- The merge of one document is that document.
use go_rdx.Prelude.{
  ℕ, zero, suc, ◌+◌, ◌<◌, ◌≡◌, refl, ap, sym, ◌∙◌, arith, List, [], ◌∷◌, ◌++◌, length, append_assoc,
  append-nil, none, Outcome, ok,
}
use go_rdx.Tlv.{write_tlkv}
use go_rdx.Iter.{Iter, new_iter, iter_error, has_failed}
use go_rdx.Iter.Reading.{read_lem, rest_lem, nonempty}
use go_rdx.Iter.Standing.{Stands, iter_record-Stands, read-Stands}
use go_rdx.Iter.Streams.{Written, stream_of, ended, fresh_rest, written_nonempty}
use go_rdx.Heap.{
  eq_up, next_k, settle, down, down_loop, remove, swap, last_up, up, up_loop, merge_next, merge_all,
}
use go_rdx.Merge.Elements.{
  Order, cursors, merge_same_spot, cursor_on, heapize, heapize_loop, heap_merge,
}

module _ (z : Order) (merge : List ℕ → List Iter → Outcome (List ℕ × List Iter)) where
  -- A round writes the record, and goes on to the next or ends.
  next_round :
      (it : Iter) (w w' : Written) (ws : List Written) (out : List ℕ)
      → Stands it w (w' ∷ ws)
      → (it' : Iter) × Stands it' w' ws
        × (merge_next z cursors merge out (it ∷ [])
            ≡ ok (out ++ write_tlkv [] w.lit w.key w.val, it' ∷ []))
  unfolding merge_next eq_up next_k settle down down_loop
  next_round it w w' ws out s =
      let (it', reads, s') =
        read-Stands it w' ws s.is_at.no_error (nonempty it s.is_at) (rest_lem s.is_at) in
      (it', s', rw (iter_record-Stands it w (w' ∷ ws) s, reads) refl)

  last_round :
      (it : Iter) (w : Written) (out : List ℕ)
      → Stands it w []
      → merge_next z cursors merge out (it ∷ []) ≡ ok (out ++ write_tlkv [] w.lit w.key w.val, [])
  unfolding merge_next eq_up next_k settle remove swap has_failed
  last_round it w out s =
      let at = s.is_at in
      let reads = read_lem it [] at.no_error (nonempty it at) (rest_lem at) ∙ ended it in
      rw (iter_record-Stands it w [] s, reads, at.no_error) refl

  merge_all-Stands :
      (ws : List Written) (w : Written) (it : Iter) (fuel : ℕ) (out : List ℕ)
      → length ws + 1 < fuel
      → Stands it w ws
      → merge_all z cursors merge fuel out (it ∷ []) ≡ ok (out ++ stream_of (w ∷ ws))
  unfolding merge_all
  merge_all-Stands ws w it zero out h s = absurd (omega arith)
  merge_all-Stands ws w it (suc zero) out h s = absurd (omega arith)
  merge_all-Stands [] w it (suc (suc fuel)) out h s =
      rw (last_round it w out s)
        (ap (λ (t : List ℕ). ok (out ++ t)) (sym (append-nil (write_tlkv [] w.lit w.key w.val))))
  merge_all-Stands (w' ∷ ws) w it (suc fuel) out h s =
      let (it', s', round) = next_round it w w' ws out s in
      let ih =
        merge_all-Stands ws w' it' fuel (out ++ write_tlkv [] w.lit w.key w.val) (omega arith) s' in
      rw (round, ih)
        (ap ok (append_assoc out (write_tlkv [] w.lit w.key w.val) (stream_of (w' ∷ ws))))

iter_error_none : (it : Iter) → it.errndx ≡ 0 → iter_error it ≡ ok none
unfolding iter_error
iter_error_none it e = rw e

-- HeapMerge of a single document of records that WriteTLKV wrote, each of a type that is a capital
-- letter, with an identifier of fewer than 250 bytes, and with identifier, value and one more byte of
-- less than 2 ^ 30 bytes together, gives back the document, in any order of elements, with a round
-- for each record and one more.
pub heap_merge-single :
    (depth fuel : ℕ) (z : Order) (out : List ℕ) (w : Written) (ws : List Written)
    → length ws + 1 < fuel
    → heap_merge (suc depth) fuel z out (stream_of (w ∷ ws) ∷ []) ≡ ok (out ++ stream_of (w ∷ ws))
unfolding heap_merge heapize heapize_loop cursor_on last_up up up_loop
heap_merge-single depth fuel z out w ws h =
    let bytes = stream_of (w ∷ ws) in
    let full = written_nonempty w.lit w.key w.val (stream_of ws) in
    let (it, reads, s) = read-Stands (new_iter bytes) w ws refl full (fresh_rest bytes) in
    rw (full, reads, iter_error_none it s.is_at.no_error)
      (merge_all-Stands z (merge_same_spot (heap_merge depth fuel)) ws w it fuel out h s)
