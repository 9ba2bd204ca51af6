-- ===== src/Seek/Docs.antt =====
-- Seek from the start of a document.
use go_rdx.Prelude.{
  ℕ, zero, suc, ◌<◌, ◌≤◌, ◌≡◌, refl, arith, true, false, ◌==◌, if◌then◌else◌, List, [], length, ok,
  inl, inr, Bool-cases,
}
use go_rdx.Cmp.{Cmp, less, is_below}
use go_rdx.Ident.{RdxId, compare, zip_id}
use go_rdx.Iter.{Iter, new_iter, rest, has_data, has_failed, is_at_start}
use go_rdx.Iter.Reading.{IsAt, nonempty, rest_lem, iter_id_lem}
use go_rdx.Iter.Streams.{fresh_rest}
use go_rdx.Element.RoundTrip.{unzip_id-zip}
use go_rdx.Element.Docs.{Doc, end, leaf, node, print, size, IsWhole, Before, read-Before, not_empty}
use go_rdx.Seek.{seek, seek_loop}

-- The document from the first element whose identifier is not below `id`.
abbrev pub from_id : RdxId → Doc → Doc
from_id id end = end
from_id id (leaf lit i val rest) =
    if is_below (compare i id) then from_id id rest else leaf lit i val rest
from_id id (node lit i inside rest) =
    if is_below (compare i id) then from_id id rest else node lit i inside rest

-- The comparison there; behind the last element, the one of the last.
abbrev pub sought : RdxId → Cmp → Doc → Cmp
sought id z end = z
sought id z (leaf lit i val rest) =
    if is_below (compare i id) then sought id (compare i id) rest else compare i id
sought id z (node lit i inside rest) =
    if is_below (compare i id) then sought id (compare i id) rest else compare i id

-- The loop at an element, and the document from there.
abbrev Seeks : RdxId → Iter → Cmp → Doc → Doc → ℕ → Type 0
Seeks id it z here rest fuel =
    (last : Iter) × (seek_loop fuel id z it ≡ ok (last, if is_below z then sought id z rest else z))
    × Before last (if is_below z then from_id id rest else here)

-- What the loop does behind a step of the cursor.
abbrev Goes : RdxId → Doc → Type 0
Goes id rest =
    (fuel : ℕ) (it : Iter) (lit : ℕ) (key val : List ℕ) (here : Doc) (z : Cmp)
    → IsAt it lit key val (print rest)
    → Before it here
    → size rest < fuel
    → Seeks id it z here rest fuel

-- An element that is not below the identifier ends the loop.
stops_at :
    (id : RdxId) (it : Iter) (z : Cmp) (here rest : Doc) (fuel : ℕ)
    → Before it here
    → (is_below z ≡ true → Seeks id it z here rest (suc fuel))
    → Seeks id it z here rest (suc fuel)
unfolding seek_loop
stops_at id it z here rest fuel before go_on = elim (Bool-cases (is_below z)) [
  | inr over ↦ (it, rw over refl, rw over before)
  | inl below ↦ go_on below
]

goes : (id : RdxId) (rest : Doc) → IsWhole rest → Goes id rest
unfolding seek_loop
goes id rest w zero it lit key val here z at before h = absurd (omega arith)
goes id end w (suc fuel) it lit key val here z at before h =
    stops_at id it z here end fuel before (λ below.
      let (next, reads, ended) = read-Before it end w at.no_error (nonempty it at) (rest_lem at) in
      (next, rw (below, reads) refl, rw below ended))
goes id (leaf lit' i v after) w (suc fuel) it lit key val here z at before h =
    stops_at id it z here (leaf lit' i v after) fuel before (λ below.
      let (f, fit, fits, w') = w in
      let (next, reads, at') =
        read-Before it (leaf lit' i v after) w at.no_error (nonempty it at) (rest_lem at) in
      let (last, runs, stands) =
        goes id after w' fuel next lit' (zip_id i) v (leaf lit' i v after) (compare i id) at' at'
          (omega arith) in
      (last, rw (below, reads, iter_id_lem at', unzip_id-zip i fit) runs, rw below stands))
goes id (node lit' i inside after) w (suc fuel) it lit key val here z at before h =
    stops_at id it z here (node lit' i inside after) fuel before (λ below.
      let (f, fit, fits, v, w') = w in
      let (next, reads, at') =
        read-Before it (node lit' i inside after) w at.no_error (nonempty it at) (rest_lem at) in
      let (last, runs, stands) =
        goes id after w' fuel next lit' (zip_id i) (print inside) (node lit' i inside after)
          (compare i id) at' at' (omega arith) in
      (last, rw (below, reads, iter_id_lem at', unzip_id-zip i fit) runs, rw below stands))

-- Seek from the start of a document, whose types fit, identifiers are of two uint64s and
-- values are within the limits of Read, with a unit of fuel for each element, stops at the
-- first element whose identifier is not below the one that it seeks, or past the last
-- element, and returns the comparison of the last identifier that it looked at, or Less in
-- a document without elements.
pub seek-from_id :
    (d : Doc) (id : RdxId) (fuel : ℕ)
    → IsWhole d
    → size d ≤ fuel
    → (last : Iter) × (seek fuel id (new_iter (print d)) ≡ ok (last, sought id less d))
      × Before last (from_id id d)
unfolding seek print has_data has_failed is_at_start
seek-from_id end id fuel w h = (new_iter [], refl, (refl, refl))
seek-from_id (leaf lit i val after) id fuel w h =
    let d = leaf lit i val after in
    let full : (length (print d) == 0) ≡ false = not_empty d (omega arith) in
    let (f, fit, fits, w') = w in
    let (it, reads, at) = read-Before (new_iter (print d)) d w refl full (fresh_rest (print d)) in
    let (last, runs, stands) =
      goes id after w' fuel it lit (zip_id i) val d (compare i id) at at (omega arith) in
    (last, rw (full, reads, iter_id_lem at, unzip_id-zip i fit) runs, stands)
seek-from_id (node lit i inside after) id fuel w h =
    let d = node lit i inside after in
    let full : (length (print d) == 0) ≡ false = not_empty d (omega arith) in
    let (f, fit, fits, v, w') = w in
    let (it, reads, at) = read-Before (new_iter (print d)) d w refl full (fresh_rest (print d)) in
    let (last, runs, stands) =
      goes id after w' fuel it lit (zip_id i) (print inside) d (compare i id) at at (omega arith) in
    (last, rw (full, reads, iter_id_lem at, unzip_id-zip i fit) runs, stands)
