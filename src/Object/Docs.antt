-- ===== src/Object/Docs.antt =====
-- ObjectReader on a map.
use go_rdx.Prelude.{
  ℕ, zero, suc, ◌<◌, ◌≡◌, ◌≢◌, Bool-cases, inl, inr, refl, arith, true, false, ◌==◌, List, [],
  length, ok,
}
use go_rdx.Prelude.Int.{ℤ}
use go_rdx.Ident.{RdxId}
use go_rdx.Iter.{Iter, is_first, is_plex, new_iter, rest, read, lit_euler, lit_tuple, lit_term}
use go_rdx.Iter.Reading.{IsAt, nonempty, rest_lem, value_lem, iter_lit_lem}
use go_rdx.Iter.Streams.{fresh_rest}
use go_rdx.Element.Docs.{Doc, end, leaf, node, print, size, IsWhole, Before, read-Before, not_empty}
use go_rdx.Jdr.Renderer.{iter_string}
use go_rdx.Object.{ObjectReader, new_object_reader, read_pair}

-- What Read skips: elements that are no tuples, and tuples that are empty or do not start with a term.
pub data Skipped : Doc → Doc → Type 0 where
  none_skipped : {d : Doc} → Skipped d d
  first_skipped :
      {lit : ℕ} {id : RdxId} {val : List ℕ} {after d : Doc}
      → Skipped after d
      → Skipped (leaf lit id val after) d
  list_skipped :
      {lit : ℕ} {id : RdxId} {inside after d : Doc}
      → (lit == lit_tuple) ≡ false
      → Skipped after d
      → Skipped (node lit id inside after) d
  nested_skipped :
      {lit name : ℕ} {id i : RdxId} {val : List ℕ} {fields after d : Doc}
      → (name == lit_term) ≡ false
      → Skipped after d
      → Skipped (node lit id (leaf name i val fields) after) d
  container_skipped :
      {lit shape : ℕ} {id i : RdxId} {inner fields after d : Doc}
      → Skipped after d
      → Skipped (node lit id (node shape i inner fields) after) d
  hollow_skipped :
      {lit : ℕ} {id : RdxId} {after d : Doc} → Skipped after d → Skipped (node lit id end after) d

-- The cursor stands before the document, and can step.
pub record Ready (it : Iter) (d : Doc) : Type 0 where
  pub no_error : it.errndx ≡ 0
  pub some_bytes : (length it.bytes == 0) ≡ false
  pub ahead : rest it ≡ ok (print d)

ready :
    (it : Iter) {lit : ℕ} {key val : List ℕ} (d : Doc) → IsAt it lit key val (print d) → Ready it d
ready it d at = record { no_error = at.no_error; some_bytes = nonempty it at; ahead = rest_lem at }

first_no_tuple : (lit : ℕ) → is_first lit ≡ true → (lit == lit_tuple) ≡ false
unfolding is_first
first_no_tuple lit f = ground (arith, f)

plex_no_term : (lit : ℕ) → is_plex lit ≡ true → (lit == lit_term) ≡ false
unfolding is_plex
plex_no_term lit f = ground (arith, f)

-- A cursor without bytes reads nothing.
nothing_read : read (new_iter (print end)) ≡ ok (new_iter [], false)
unfolding read print
nothing_read = refl

Skipped-size : {d e : Doc} → size e ≢ 0 → Skipped d e → size d ≢ 0
Skipped-size h none_skipped = h
Skipped-size h (first_skipped s) = omega arith
Skipped-size h (list_skipped differs s) = omega arith
Skipped-size h (nested_skipped differs s) = omega arith
Skipped-size h (container_skipped s) = omega arith
Skipped-size h (hollow_skipped s) = omega arith

module _ (sprint_float : ℕ → List ℕ) (sprint_int : ℤ → List ℕ) where
  -- The reader after a pair of this key, fields behind the key, and elements behind the pair.
  abbrev pub Finds : ℕ → ObjectReader → List ℕ → Doc → Doc → Type 0
  Finds fuel o key fields after =
      (o' : ObjectReader) × (read_pair sprint_float sprint_int fuel o ≡ ok (o', true))
      × (o'.key ≡ key)
      × Before o'.val fields
      × Ready o'.it after

  read_pair-Finds :
      (fuel : ℕ) (o : ObjectReader) (id i : RdxId) (key : List ℕ) (fields after : Doc)
      → IsWhole (node lit_tuple id (leaf lit_term i key fields) after)
      → Ready o.it (node lit_tuple id (leaf lit_term i key fields) after)
      → Finds (suc fuel) o key fields after
  unfolding read_pair iter_string
  read_pair-Finds fuel o id i key fields after w at =
      let (p, fit, fits, v, w') = w in
      let inside = leaf lit_term i key fields in
      let (it, reads, here) =
        read-Before o.it (node lit_tuple id inside after) w at.no_error at.some_bytes at.ahead in
      let (name, reads', there) =
        read-Before (new_iter (print inside)) inside v refl (not_empty inside (omega arith))
          (fresh_rest (print inside)) in
      let (f, fit', fits', v') = v in
      let (val, reads'', before) =
        read-Before name fields v' there.no_error (nonempty name there) (rest_lem there) in
      (
        record { it = it; key = key; val = val },
        rw (reads, iter_lit_lem here, value_lem here, reads')
            (rw (iter_lit_lem there, value_lem there, reads'') refl),
        refl,
        before,
        ready it after here,
      )

  finds :
      (d : Doc) (id i : RdxId) (key : List ℕ) (fields after : Doc)
      → Skipped d (node lit_tuple id (leaf lit_term i key fields) after)
      → IsWhole d
      → (fuel : ℕ) (o : ObjectReader) → Ready o.it d
      → size d < fuel
      → Finds fuel o key fields after
  unfolding read_pair
  finds d id i key fields after s w zero o at h = absurd (omega arith)
  finds _ id i key fields after none_skipped w (suc fuel) o at h =
      read_pair-Finds fuel o id i key fields after w at
  finds (leaf lit j val rest') id i key fields after (first_skipped s) w (suc fuel) o at h =
      let (f, fit, fits, w') = w in
      let (it, reads, here) =
        read-Before o.it (leaf lit j val rest') w at.no_error at.some_bytes at.ahead in
      let (o', runs, same, before, ahead) =
        finds rest' id i key fields after s w' fuel (record o { it = it }) (ready it rest' here)
          (omega arith) in
      (o', rw (reads, iter_lit_lem here, first_no_tuple lit f) runs, same, before, ahead)
  finds (node lit j inside rest') id i key fields after (list_skipped differs s) w (suc fuel) o at
        h =
      let (p, fit, fits, v, w') = w in
      let (it, reads, here) =
        read-Before o.it (node lit j inside rest') w at.no_error at.some_bytes at.ahead in
      let (o', runs, same, before, ahead) =
        finds rest' id i key fields after s w' fuel (record o { it = it }) (ready it rest' here)
          (omega arith) in
      (o', rw (reads, iter_lit_lem here, differs) runs, same, before, ahead)
  finds (node lit j (leaf name k val inside) rest') id i key fields after (nested_skipped differs s)
        w (suc fuel) o at h =
      let (p, fit, fits, v, w') = w in
      let tuple = leaf name k val inside in
      let (it, reads, here) =
        read-Before o.it (node lit j tuple rest') w at.no_error at.some_bytes at.ahead in
      let (first, reads', there) =
        read-Before (new_iter (print tuple)) tuple v refl (not_empty tuple (omega arith))
          (fresh_rest (print tuple)) in
      elim (Bool-cases (lit == lit_tuple)) [
        | inl same_lit ↦
            (let (o', runs, same, before, ahead) =
                finds rest' id i key fields after s w' fuel
                  (record { it = it; key = o.key; val = first }) (ready it rest' here)
                  (omega arith) in
              (
                o',
                rw (reads, iter_lit_lem here, same_lit, value_lem here, reads')
                    (rw (iter_lit_lem there, differs) runs),
                same,
                before,
                ahead,
              ))
        | inr other ↦
            (let (o', runs, same, before, ahead) =
                finds rest' id i key fields after s w' fuel (record o { it = it })
                  (ready it rest' here) (omega arith) in
              (o', rw (reads, iter_lit_lem here, other) runs, same, before, ahead))
      ]
  finds (node lit j (node shape k inner inside) rest') id i key fields after (container_skipped s) w
        (suc fuel) o at h =
      let (p, fit, fits, v, w') = w in
      let tuple = node shape k inner inside in
      let (it, reads, here) =
        read-Before o.it (node lit j tuple rest') w at.no_error at.some_bytes at.ahead in
      let (pp, _, _, _, _) = v in
      let (first, reads', there) =
        read-Before (new_iter (print tuple)) tuple v refl (not_empty tuple (omega arith))
          (fresh_rest (print tuple)) in
      elim (Bool-cases (lit == lit_tuple)) [
        | inl same_lit ↦
            (let (o', runs, same, before, ahead) =
                finds rest' id i key fields after s w' fuel
                  (record { it = it; key = o.key; val = first }) (ready it rest' here)
                  (omega arith) in
              (
                o',
                rw (reads, iter_lit_lem here, same_lit, value_lem here, reads')
                    (rw (iter_lit_lem there, plex_no_term shape pp) runs),
                same,
                before,
                ahead,
              ))
        | inr other ↦
            (let (o', runs, same, before, ahead) =
                finds rest' id i key fields after s w' fuel (record o { it = it })
                  (ready it rest' here) (omega arith) in
              (o', rw (reads, iter_lit_lem here, other) runs, same, before, ahead))
      ]
  finds (node lit j end rest') id i key fields after (hollow_skipped s) w (suc fuel) o at h =
      let (p, fit, fits, v, w') = w in
      let (it, reads, here) =
        read-Before o.it (node lit j end rest') w at.no_error at.some_bytes at.ahead in
      elim (Bool-cases (lit == lit_tuple)) [
        | inl same_lit ↦
            (let (o', runs, same, before, ahead) =
                finds rest' id i key fields after s w' fuel
                  (record { it = it; key = o.key; val = new_iter [] }) (ready it rest' here)
                  (omega arith) in
              (
                o',
                rw (reads, iter_lit_lem here, same_lit, value_lem here, nothing_read) runs,
                same,
                before,
                ahead,
              ))
        | inr other ↦
            (let (o', runs, same, before, ahead) =
                finds rest' id i key fields after s w' fuel (record o { it = it })
                  (ready it rest' here) (omega arith) in
              (o', rw (reads, iter_lit_lem here, other) runs, same, before, ahead))
      ]

  -- ObjectReader on a map with a tuple of a term and fields behind it, where only elements
  -- that are no tuples, empty tuples and tuples that start with an element or a container other
  -- than a term stand before it, whose types fit, identifiers are of two uint64s and values are
  -- within the limits of Read, with a unit of fuel for each element and one more:
  -- NewObjectReader returns no error, and Read finds the pair: `Key` is the term, `Value` stands
  -- before the fields, and the reader before the elements behind the tuple.
  pub new_object_reader-read_pair :
      (d : Doc) (map id i : RdxId) (key : List ℕ) (fields after : Doc) (fuel : ℕ)
      → Skipped d (node lit_tuple id (leaf lit_term i key fields) after)
      → IsWhole (node lit_euler map d end)
      → size d < fuel
      → (o : ObjectReader) × (new_object_reader (print (node lit_euler map d end)) ≡ ok o)
        × Finds fuel o key fields after
  unfolding new_object_reader
  new_object_reader-read_pair d map id i key fields after fuel s w h =
      let object = node lit_euler map d end in
      let (p, fit, fits, v, w') = w in
      let (it, reads, here) =
        read-Before (new_iter (print object)) object w refl (not_empty object (omega arith))
          (fresh_rest (print object)) in
      let o : ObjectReader = record { it = new_iter (print d); key = []; val = new_iter [] } in
      let some_bytes : (length (print d) == 0) ≡ false =
        not_empty d (Skipped-size (omega arith) s) in
      (
        o,
        rw (reads, iter_lit_lem here, value_lem here) refl,
        finds d id i key fields after s v fuel o
            (record { no_error = refl; some_bytes = some_bytes; ahead = fresh_rest (print d) }) h,
      )
