-- ===== src/Normal/Docs.antt =====
-- Normalize of a document of FIRST elements, tuples and lists.
use go_rdx.Prelude.{
  ℕ, zero, suc, ◌<◌, ◌≤◌, ◌≡◌, refl, ap, ◌∙◌, arith, Bool, true, false, ◌==◌, List, [], ◌∷◌, ◌++◌,
  length, append-nil, ◌⊎◌, inl, inr, Option, none, Outcome, ok,
}
use go_rdx.Ident.{RdxId, zip_id}
use go_rdx.Ident.Order.{IsId}
use go_rdx.Tlv.Case.{IsUpper}
use go_rdx.Tlv.{Mark, new_mark, top_lit, write_tlkv, close_tlv}
use go_rdx.Tlv.Nesting.{open_tlv-capital}
use go_rdx.Iter.{
  Iter, is_first, rest, has_data, has_failed, new_iter, lit_tuple, lit_linear, lit_euler,
}
use go_rdx.Iter.Reading.{IsAt, nonempty, rest_lem, value_lem, iter_lit_lem, iter_id_lem}
use go_rdx.Iter.Streams.{fresh_rest}
use go_rdx.Element.{write_rdx}
use go_rdx.Element.RoundTrip.{unzip_id-zip, length-zip_id}
use go_rdx.Element.Nesting.{open_element, close_tlv-element}
use go_rdx.Element.Docs.{
  write_rdx-append, Doc, end, leaf, node, print, not_empty, size, IsWhole, Before, read-Before,
  plex_letter,
}
use go_rdx.Merge.Elements.{Order}
use go_rdx.Normal.{
  Norm, Chunked, closed_norm, shortest, append_norm, breaks, norm_loop, join_chunks, normalize,
}

module _ (utf8_valid : List ℕ → Bool) where
  -- The same document with every value in its shortest form; its containers are tuples and lists.
  pub data Shortens : Doc → Doc → Type 0 where
    end_short : Shortens end end
    leaf_short :
        {lit : ℕ} {id : RdxId} {val val' : List ℕ} {rest rest' : Doc}
        → shortest utf8_valid lit val ≡ ok val'
        → Shortens rest rest'
        → Shortens (leaf lit id val rest) (leaf lit id val' rest')
    node_short :
        {lit : ℕ} {id : RdxId} {inside inside' rest rest' : Doc}
        → ((lit ≡ lit_tuple) ⊎ (lit ≡ lit_linear))
        → Shortens inside inside'
        → Shortens rest rest'
        → Shortens (node lit id inside rest) (node lit id inside' rest')

  append_norm-first :
      (sub : Option Order → List ℕ → List ℕ → List Mark → Outcome Norm) (to : List ℕ) (it : Iter)
      (stack : List Mark) (lit : ℕ) (id : RdxId) (val val' tail : List ℕ)
      → IsAt it lit (zip_id id) val tail
      → is_first lit ≡ true
      → IsId id
      → shortest utf8_valid lit val ≡ ok val'
      → append_norm utf8_valid sub to it stack ≡ ok (write_tlkv to lit (zip_id id) val', stack)
  unfolding append_norm
  append_norm-first sub to it stack lit id val val' tail at f i s =
      rw (value_lem at, iter_id_lem at, iter_lit_lem at, unzip_id-zip id i, f, s) refl

  module _ (sub : Option Order → List ℕ → List ℕ → List Mark → Outcome Norm) (to : List ℕ)
      (it : Iter) (stack : List Mark) (lit : ℕ) (id : RdxId) (val full tail : List ℕ)
      (at : IsAt it lit (zip_id id) val tail) (i : IsId id) (up : IsUpper lit)
      (plex : is_first lit ≡ false)
      (filled : sub none (open_element to lit (zip_id id)) val (new_mark (length to) lit ∷ stack)
        ≡ ok (open_element to lit (zip_id id) ++ full, new_mark (length to) lit ∷ stack)) where
    closes :
        closed_norm (
          close_tlv
            (open_element to lit (zip_id id) ++ full)
            lit
            (new_mark (length to) lit ∷ stack))
        ≡ ok (write_tlkv to lit (zip_id id) full, stack)
    closes =
        rw
          (close_tlv-element to lit (zip_id id) full (new_mark (length to) lit) stack up
            (omega (arith, length-zip_id id i)) refl refl)
          refl

    append_norm-tuple :
        (lit == lit_tuple) ≡ true
        → (top_lit stack == lit_euler) ≡ false
        → append_norm utf8_valid sub to it stack ≡ ok (write_tlkv to lit (zip_id id) full, stack)
    unfolding append_norm
    append_norm-tuple t e =
        rw
          (
            value_lem at,
            iter_id_lem at,
            iter_lit_lem at,
            unzip_id-zip id i,
            plex,
            t,
            open_tlv-capital to lit stack up,
          )
          (rw (filled, e) closes)

    append_norm-linear :
        (lit == lit_tuple) ≡ false
        → (lit == lit_linear) ≡ true
        → append_norm utf8_valid sub to it stack ≡ ok (write_tlkv to lit (zip_id id) full, stack)
    unfolding append_norm
    append_norm-linear n t =
        rw
          (
            value_lem at,
            iter_id_lem at,
            iter_lit_lem at,
            unzip_id-zip id i,
            plex,
            n,
            t,
            open_tlv-capital to lit stack up,
          )
          (rw filled closes)

    append_norm-container :
        ((lit ≡ lit_tuple) ⊎ (lit ≡ lit_linear))
        → (top_lit stack == lit_euler) ≡ false
        → append_norm utf8_valid sub to it stack ≡ ok (write_tlkv to lit (zip_id id) full, stack)
    append_norm-container shape e = elim shape [
      | inl t ↦ append_norm-tuple (ground (arith, t)) e
      | inr l ↦ append_norm-linear (ground (arith, l)) (ground (arith, l))
    ]

  shape_lem :
      (lit : ℕ)
      → ((lit ≡ lit_tuple) ⊎ (lit ≡ lit_linear))
      → (is_first lit ≡ false) × ((lit == lit_euler) ≡ false)
  unfolding is_first
  shape_lem lit shape = ground arith

  -- The loop from where the cursor stands before `d` writes the shortened `d'`.
  abbrev Loops : (depth room : ℕ) → Doc → Doc → Type 0
  Loops depth room d d' =
      (fuel : ℕ) (it : Iter) (s : Chunked)
      → size d < fuel
      → Before it d
      → (top_lit s.stack == lit_euler) ≡ false
      → (last : Iter) × (norm_loop fuel (append_norm utf8_valid (normalize utf8_valid depth room))
            none it s
          ≡ ok (last, record s { norm = s.norm ++ print d' }))
        × (has_failed last ≡ false)

  normalize-Loops :
      (depth room : ℕ) (d d' : Doc) (out : List ℕ) (stack : List Mark)
      → IsWhole d
      → size d < room
      → (top_lit stack == lit_euler) ≡ false
      → Shortens d d'
      → Loops depth room d d'
      → normalize utf8_valid (suc depth) room none out (print d) stack ≡ ok (out ++ print d', stack)
  unfolding normalize join_chunks
  normalize-Loops depth room _ _ out stack w h e end_short loops =
      unfold print in rw (append-nil out)
  normalize-Loops depth room d d' out stack w h e short loops =
      let full : (length (print d) == 0) ≡ false = not_empty d (omega arith) in
      let (it, reads, before) =
        read-Before (new_iter (print d)) d w refl full (fresh_rest (print d)) in
      let (last, runs, fine) =
        loops room it (record { norm = out; from = length out; chunks = []; stack = stack }) h
          before e in
      rw (full, reads, runs) (rw fine refl)

  -- One round: the element is written, and the cursor goes on.
  next_round :
      (append : List ℕ → Iter → List Mark → Outcome Norm) (fuel : ℕ) (it : Iter) (s : Chunked)
      (lit : ℕ) (key val out : List ℕ) (rest : Doc)
      → IsAt it lit key val (print rest)
      → IsWhole rest
      → append s.norm it s.stack ≡ ok (out, s.stack)
      → (next : Iter) × Before next rest
        × (norm_loop (suc fuel) append none it s
            ≡ norm_loop fuel append none next (record s { norm = out }))
  unfolding norm_loop breaks has_data
  next_round append fuel it s lit key val out rest at w e =
      let (next, reads, before) =
        read-Before it rest w at.no_error (nonempty it at) (rest_lem at) in
      (next, before, rw (nonempty it at, e) (rw reads refl))

  -- The end of the loop with these bytes.
  abbrev at_end : Iter → Chunked → List ℕ → Outcome (Iter × Chunked)
  at_end last s norm = ok (last, record s { norm = norm })

  written :
      (s : Chunked) (last : Iter) (lit : ℕ) (id : RdxId) (val : List ℕ) (after : Doc)
      → at_end last s (write_tlkv s.norm lit (zip_id id) val ++ print after)
        ≡ at_end last s (s.norm ++ (write_rdx [] lit id val ++ print after))
  written s last lit id val after =
      ap (at_end last s) (write_rdx-append s.norm lit id val (print after))

  loops :
      (d d' : Doc)
      → Shortens d d'
      → IsWhole d
      → (depth room : ℕ) → size d ≤ depth
      → size d ≤ room
      → Loops depth room d d'
  unfolding print top_lit
  loops _ _ end_short w depth room a b zero it s h before e = absurd (omega arith)
  loops _ _ end_short w depth room a b (suc fuel) it s h before e =
      (it, unfold norm_loop in rw (before.0, append-nil s.norm), before.1)
  loops _ _ _ w depth room a b zero it s h before e = absurd (omega arith)
  loops (leaf lit id val after) (leaf _ _ val' after') (leaf_short short more) w depth room a b
        (suc fuel) it s h at e =
      let (f, i, fits, w') = w in
      let append = append_norm utf8_valid (normalize utf8_valid depth room) in
      let out = write_tlkv s.norm lit (zip_id id) val' in
      let wrote =
        append_norm-first (normalize utf8_valid depth room) s.norm it s.stack lit id val val'
          (print after) at f i short in
      let (next, before, round) =
        next_round append fuel it s lit (zip_id id) val out after at w' wrote in
      let (last, runs, fine) =
        loops after after' more w' depth room (omega arith) (omega arith) fuel next
          (record s { norm = out }) (omega arith) before e in
      (last, round ∙ runs ∙ written s last lit id val' after', fine)
  loops (node lit id inside after) (node _ _ inside' after') (node_short shape within more) w zero
        room a b (suc fuel) it s h at e =
      absurd (omega arith)
  loops (node lit id inside after) (node _ _ inside' after') (node_short shape within more) w
        (suc depth) room a b (suc fuel) it s h at e =
      let (f, i, fits, v, w') = w in
      let append = append_norm utf8_valid (normalize utf8_valid (suc depth) room) in
      let out = write_tlkv s.norm lit (zip_id id) (print inside') in
      let marks = new_mark (length s.norm) lit ∷ s.stack in
      let filled =
        normalize-Loops depth room inside inside' (open_element s.norm lit (zip_id id)) marks v
          (omega arith) (shape_lem lit shape).1 within
          (loops inside inside' within v depth room (omega arith) (omega arith)) in
      let wrote =
        append_norm-container (normalize utf8_valid (suc depth) room) s.norm it s.stack lit id
          (print inside) (print inside') (print after) at i (plex_letter lit f)
          (shape_lem lit shape).0 filled shape e in
      let (next, before, round) =
        next_round append fuel it s lit (zip_id id) (print inside) out after at w' wrote in
      let (last, runs, fine) =
        loops after after' more w' (suc depth) room (omega arith) (omega arith) fuel next
          (record s { norm = out }) (omega arith) before e in
      (last, round ∙ runs ∙ written s last lit id (print inside') after', fine)

  -- Normalize of a document of FIRST elements, tuples and lists, whose identifiers are of two
  -- uint64s and whose values are within the limits of Read, in a container that is not a map,
  -- with a unit of depth and of fuel for each element and one more: where every value has a
  -- shortest form, it writes the same document with every value in that form, behind what was
  -- there, and leaves the stack as it was.
  pub normalize-Shortens :
      (d d' : Doc) (out : List ℕ) (stack : List Mark) (depth fuel : ℕ)
      → Shortens d d'
      → IsWhole d
      → (top_lit stack == lit_euler) ≡ false
      → size d < depth
      → size d < fuel
      → normalize utf8_valid depth fuel none out (print d) stack ≡ ok (out ++ print d', stack)
  normalize-Shortens d d' out stack zero fuel short w e h k = absurd (omega arith)
  normalize-Shortens d d' out stack (suc depth) fuel short w e h k =
      normalize-Loops depth fuel d d' out stack w k e short
        (loops d d' short w depth fuel (omega arith) (omega arith))
