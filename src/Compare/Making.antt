-- ===== src/Compare/Making.antt =====
-- rdx.go: MakePLEXOf with an order, as P, E and X call it. `sort` is sort.Slice: it sorts a list by a
-- test of two elements, which may panic.
use go_rdx.Prelude.{
  ℕ, ◌≡◌, inl, inr, Bool-cases, refl, arith, Bool, true, false, ◌==◌, List, [], Outcome, ok, ◌>>=◌,
}
use go_rdx.Cmp.{Cmp, eq, is_below}
use go_rdx.Ident.{RdxId, unzip_id}
use go_rdx.Iter.{
  Iter, new_iter, read, value, inner, iter_id, iter_lit, is_empty, is_plex, value_start, record_end,
  lit_tuple, lit_euler, lit_multix, lit_linear,
}
use go_rdx.Element.{make_plex_of}
use go_rdx.Compare.{
  source_order, compare_tuple, compare_euler, compare_multix, euler_key, compare_value,
}

-- The test that MakePLEXOf sorts by: the cursors are made, and not read.
unfoldable pub sorts_before : (Iter → Iter → Outcome Cmp) → List ℕ → List ℕ → Outcome Bool
sorts_before z v w = z (new_iter v) (new_iter w) >>= λ c. ok (is_below c)

module _ (sort : (List ℕ → List ℕ → Outcome Bool) → List (List ℕ) → Outcome (List (List ℕ))) where
  unfoldable pub make_sorted_plex :
      ℕ → RdxId → List (List ℕ) → (Iter → Iter → Outcome Cmp) → Outcome (List ℕ)
  unfolding sorts_before
  make_sorted_plex lit id val z = sort (sorts_before z) val >>= make_plex_of lit id

  -- P, E and X; P0, E0 and X0 pass `id0`.
  unfoldable pub tuple_of : RdxId → List (List ℕ) → Outcome (List ℕ)
  unfolding make_sorted_plex
  tuple_of id val = make_sorted_plex lit_tuple id val compare_tuple

  unfoldable pub euler_of : RdxId → List (List ℕ) → Outcome (List ℕ)
  unfolding make_sorted_plex
  euler_of id val = make_sorted_plex lit_euler id val compare_euler

  unfoldable pub multix_of : RdxId → List (List ℕ) → Outcome (List ℕ)
  unfolding make_sorted_plex
  multix_of id val = make_sorted_plex lit_multix id val compare_multix

-- L; L0 passes `id0`. There is no order to sort by.
unfoldable pub linear_of : RdxId → List (List ℕ) → Outcome (List ℕ)
linear_of id val = make_plex_of lit_linear id val

unread_value : (v : List ℕ) → value (new_iter v) ≡ ok []
unfolding value record_end value_start
unread_value v = ground arith

unread_id : (v : List ℕ) → iter_id (new_iter v) ≡ ok (unzip_id [])
unfolding iter_id value_start
unread_id v = ground arith

-- The key of an element that is not read is a cursor that is not read.
unread_key : (v : List ℕ) → (a : Iter) × (euler_key (new_iter v) ≡ ok a) × (is_empty a ≡ true)
unfolding euler_key is_empty inner
unread_key v = elim (Bool-cases (iter_lit (new_iter v) == lit_tuple)) [
  | inl tuple ↦ (
    new_iter [],
    (let plex : is_plex (iter_lit (new_iter v)) ≡ true = unfold is_plex in ground (arith, tuple) in
        rw (tuple, plex, unread_value v) (unfold read in refl)),
    refl,
  )
  | inr other ↦ (new_iter v, rw other refl, refl)
]

-- The tests that P, E and X sort by are false of any two elements.
pub sorts_before-unread :
    (v w : List ℕ)
    → (sorts_before compare_tuple v w ≡ ok false)
      × (sorts_before compare_euler v w ≡ ok false)
      × (sorts_before compare_multix v w ≡ ok false)
unfolding sorts_before compare_tuple compare_euler compare_multix compare_value
sorts_before-unread v w =
    let (a, e, empty) = unread_key v in
    let (b, e', empty') = unread_key w in
    let same : source_order (unzip_id []) (unzip_id []) ≡ eq =
      unfold source_order in ground arith in
    (refl, rw (e, e', empty, empty') refl, rw (unread_id v, unread_id w) (rw same refl))
