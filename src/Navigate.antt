-- ===== src/Navigate.antt =====
-- rdx.go: an element of a document by a key or by a path, Pick and Delve. A path is a stream of keys;
-- in a tuple a key is a position, in the other containers an element that compares as equal.
-- The loops over a container are on fuel, since a malformed stream can keep a cursor where it is.
pub mod Places
mod Tests
use go_rdx.Prelude.{
  ℕ, zero, suc, Bool, true, false, not, ◌||◌, ◌==◌, if◌then◌else◌, List, [], ◌∷◌, Outcome, ok, err,
  out_of_fuel, ◌>>=◌, record_not_found, bad_path, no_key_provided, not_plex, bad_record,
}
use go_rdx.Prelude.Int.{ℤ, pos, negsuc}
use go_rdx.Cmp.{Cmp, less, eq, is_below, is_eq, is_above}
use go_rdx.ZipInt.{unzip_int64}
use go_rdx.Iter.{
  Iter, new_iter, read, has_data, iter_lit, iter_record, integer, value, is_plex, lit_integer,
  lit_tuple, lit_linear, lit_euler, lit_multix,
}
use go_rdx.Compare.{compare_linear, compare_euler, compare_multix}

abbrev pub Order : Type 0
Order = Iter → Iter → Outcome Cmp

-- The loop `for i < Eq && it.Read() { i = z(&it, &path) }`.
unfoldable pub find : (fuel : ℕ) → Order → Iter → Cmp → Iter → Outcome (Iter × Cmp)
find zero z key i it = out_of_fuel
find (suc fuel) z key i it =
    let step : Outcome (Iter × Cmp) = do
      (it', more) ← read it
      let next = z it' key >>= λ c. find fuel z key c it'
      (if more then next else ok (it', i))
    in if is_below i then step else ok (it, i)

-- At most `count` elements on.
unfoldable pub advance : (count : ℕ) → Iter → Outcome Iter
advance zero it = ok it
advance (suc count) it = do
  (it', more) ← read it
  let next = advance count it'
  (if more then next else ok it')

-- The loop `for n >= 0 && it.Read() { n-- }`.
unfoldable pub skip : ℤ → Iter → Outcome Iter
unfolding advance
skip (pos n) it = advance (suc n) it
skip (negsuc n) it = ok it

-- `sub` is scan.
unfoldable pub delve :
    (fuel : ℕ) → (Iter → Iter → Outcome (List ℕ)) → List ℕ → Iter → Order → Outcome (List ℕ)
unfolding find
delve fuel sub bytes path z = do
  (it, i) ← find fuel z path less (new_iter bytes)
  let found : Outcome (List ℕ) = do
    (path', more) ← read path
    let deeper = sub it path'
    (if more then deeper else iter_record it)
  (if not (has_data it) || is_above i then err record_not_found else found)

unfoldable pub delve_p : (Iter → Iter → Outcome (List ℕ)) → List ℕ → Iter → Outcome (List ℕ)
unfolding skip
delve_p sub bytes path =
    let walk : Outcome (List ℕ) = do
      key ← value path
      it ← skip (unzip_int64 key) (new_iter bytes)
      let found : Outcome (List ℕ) = do
        (path', more) ← read path
        let deeper = sub it path'
        let last = iter_record it
        let below = if is_plex (iter_lit it) then deeper else err record_not_found
        (if more then below else last)
      (if not (has_data it) then err record_not_found else found)
    in if not (iter_lit path == lit_integer) then err bad_path else walk

-- `depth` bounds the length of the path.
unfoldable pub scan : (depth fuel : ℕ) → Iter → Iter → Outcome (List ℕ)
unfolding delve delve_p
scan zero fuel it path = out_of_fuel
scan (suc depth) fuel it path =
    let in_tuple = value it >>= λ v. delve_p (scan depth fuel) v path in
    let in_order = λ (z : Order). value it >>= λ v. delve fuel (scan depth fuel) v path z in
    if iter_lit it == lit_tuple
    then in_tuple
    else if iter_lit it == lit_linear
    then in_order compare_linear
    else if iter_lit it == lit_euler
    then in_order compare_euler
    else if iter_lit it == lit_multix
    then in_order compare_multix
    else err record_not_found

-- Delve.
unfoldable pub delve_path : (depth fuel : ℕ) → List ℕ → List ℕ → Outcome (List ℕ)
unfolding scan
delve_path depth fuel bytes path = do
  (at_key, more) ← read (new_iter path)
  (if more then delve_p (scan depth fuel) bytes at_key else ok bytes)

-- The entry of Pick in a container of the type `lit`, and whether it is there.
unfoldable pub pick_in : (fuel : ℕ) → ℕ → Iter → List ℕ → Outcome (Iter × Cmp)
unfolding find skip
pick_in fuel lit key bytes =
    let by_place : Outcome (Iter × Cmp) = do
      k ← integer key
      it ← skip k (new_iter bytes)
      ok (it, if has_data it then eq else less)
    in if lit == lit_tuple
      then by_place
      else if lit == lit_linear
      then find fuel compare_linear key less (new_iter bytes)
      else if lit == lit_euler
      then find fuel compare_euler key less (new_iter bytes)
      else find fuel compare_multix key less (new_iter bytes)

unfoldable pub pick : (fuel : ℕ) → List ℕ → List ℕ → Outcome (List ℕ)
unfolding pick_in
pick fuel key bytes = do
  (at_key, keyed) ← read (new_iter key)
  let entry : Outcome (List ℕ) = do
    (whole, more) ← read (new_iter bytes)
    let inside : Outcome (List ℕ) = do
      v ← value whole
      (it, i) ← pick_in fuel (iter_lit whole) at_key v
      (if is_eq i then iter_record it else err record_not_found)
    let typed = if is_plex (iter_lit whole) then inside else err not_plex
    (if more then typed else err bad_record)
  (if keyed then entry else err no_key_provided)
