-- ===== src/Compare/Tests.antt =====
-- Runs of the comparisons.
use go_rdx.Prelude.{false, ◌≡◌, ◌≢◌, refl, arith, [], ◌∷◌, ok}
use go_rdx.Prelude.Int.{pos}
use go_rdx.Cmp.{less, grtr}
use go_rdx.Iter.{Iter, iter_lit, lit_float}
use go_rdx.Compare.{compare_lww, compare_tuple, compare_euler, compare_multix}
use go_rdx.Compare.Making.{sorts_before, sorts_before-unread}
use go_rdx.Compare.Laws.{compare_lww-flip}

-- The term "A" and the integer -11, without identifiers.
abbrev a_term : Iter
a_term = record {
  bytes = b't' ∷ 2 ∷ 0 ∷ b'A' ∷ [];
  vallen = pos 1;
  hdrlen = 3;
  idlen = 0;
  lit = b'T';
  errndx = 0;
}

abbrev an_integer : Iter
an_integer = record {
  bytes = b'i' ∷ 2 ∷ 0 ∷ 21 ∷ [];
  vallen = pos 1;
  hdrlen = 3;
  idlen = 0;
  lit = b'I';
  errndx = 0;
}

term_is_no_float : iter_lit a_term ≢ lit_float
unfolding iter_lit
term_is_no_float h = absurd (omega (arith, h))

term_above_integer : compare_lww a_term an_integer ≡ ok grtr
unfolding compare_lww go_rdx.Iter.iter_id go_rdx.Iter.value_start go_rdx.Ident.rev_compare
    go_rdx.Ident.unzip_id go_rdx.ZipInt.unzip_uint64_pair iter_lit go_rdx.Iter.is_plex
term_above_integer = refl

compare_lww-flip_example : compare_lww an_integer a_term ≡ ok less
compare_lww-flip_example =
    compare_lww-flip a_term an_integer grtr term_is_no_float term_above_integer

-- Two terms with the sources 2 and 1.
sorts_before-unread_example :
    (sorts_before compare_tuple (b't' ∷ 3 ∷ 1 ∷ 2 ∷ b'a' ∷ []) (b't' ∷ 3 ∷ 1 ∷ 1 ∷ b'b' ∷ [])
      ≡ ok false)
    × (sorts_before compare_euler (b't' ∷ 3 ∷ 1 ∷ 2 ∷ b'a' ∷ []) (b't' ∷ 3 ∷ 1 ∷ 1 ∷ b'b' ∷ [])
        ≡ ok false)
    × (sorts_before compare_multix (b't' ∷ 3 ∷ 1 ∷ 2 ∷ b'a' ∷ []) (b't' ∷ 3 ∷ 1 ∷ 1 ∷ b'b' ∷ [])
        ≡ ok false)
sorts_before-unread_example =
    sorts_before-unread (b't' ∷ 3 ∷ 1 ∷ 2 ∷ b'a' ∷ []) (b't' ∷ 3 ∷ 1 ∷ 1 ∷ b'b' ∷ [])
