-- ===== src/Jdr/Printer/FirstTuples.antt =====
-- Styles without a flag, and IsTupleAllFIRST on printed documents.
use go_rdx.Prelude.{
  ℕ, zero, suc, ◌+◌, ◌*◌, ◌<◌, ◌/◌, ◌^◌, ◌≡◌, refl, ap, ◌∙◌, arith, bit_and, true, false, ◌&&◌, leb,
  ◌==◌, List, [], ◌++◌, length, ok, inl, inr, Bool-cases,
}
use go_rdx.Prelude.Bits.{bit_and-shifted}
use go_rdx.Iter.{is_first, is_plex, lit_tuple}
use go_rdx.Iter.Streams.{written_nonempty}
use go_rdx.Ident.{RdxId, zip_id}
use go_rdx.Element.{write_rdx}
use go_rdx.Element.RoundTrip.{read_rdx-write_rdx}
use go_rdx.Element.Docs.{Doc, end, leaf, node, print, IsWhole, first_letter, plex_letter}
use go_rdx.Jdr.{has}
use go_rdx.Jdr.Printer.{
  style_use_comma, style_top_comma_nl, style_trailing_comma, style_bracket_tuples, comma_breaks,
  all_first_loop, is_tuple_all_first,
}
use go_rdx.Jdr.Printer.Calls.{count, are_first}

pub first_not_plex : (lit : ℕ) → is_first lit ≡ true → is_plex lit ≡ false
unfolding is_first is_plex
first_not_plex lit h = ground (arith, h)

-- A style that only counts the nesting has no flag.
no_flag : (style k : ℕ) → style / 2 ^ k ≡ 0 → has style (1 * 2 ^ k) ≡ false
unfolding has
no_flag style k h =
    let none_set : bit_and style (1 * 2 ^ k) ≡ 0 = bit_and-shifted k style 1 ∙ rw h (omega arith) in
    rw none_set refl

pub no_trailing : (style : ℕ) → style < 256 → has style style_trailing_comma ≡ false
no_trailing style h = no_flag style 17 (omega arith)

pub no_brackets : (style : ℕ) → style < 256 → has style style_bracket_tuples ≡ false
no_brackets style h = no_flag style 18 (omega arith)

pub no_breaks : (style : ℕ) → style < 256 → comma_breaks style ≡ false
unfolding comma_breaks
no_breaks style h =
    let a : has style style_use_comma ≡ false = no_flag style 10 (omega arith) in
    let b : has style style_top_comma_nl ≡ false = no_flag style 14 (omega arith) in rw (a, b) refl

pub full :
    (lit : ℕ) (id : RdxId) (val tail : List ℕ)
    → (length (write_rdx [] lit id val ++ tail) == 0) ≡ false
unfolding write_rdx
full lit id val tail = written_nonempty lit (zip_id id) val tail

all_first_loop-print :
    (d : Doc) (fuel l : ℕ)
    → IsWhole d
    → count d < fuel
    → all_first_loop fuel l (print d) ≡ ok (are_first d && leb 2 (l + count d))
unfolding all_first_loop print
all_first_loop-print d zero l w h = absurd (omega arith)
all_first_loop-print end (suc fuel) l w h = ap (λ n. ok (leb 2 n)) (omega arith)
all_first_loop-print (leaf lit id val rest) (suc fuel) l w h =
    let (f, i, fits, w') = w in
    let reads = read_rdx-write_rdx lit id val (print rest) (first_letter lit f) i (omega arith) in
    rw (full lit id val (print rest), reads, first_not_plex lit f)
      (all_first_loop-print rest fuel (l + 1) w' (omega arith)
        ∙ ap (λ n. ok (are_first rest && leb 2 n)) (omega arith))
all_first_loop-print (node lit id inside rest) (suc fuel) l w h =
    let (f, i, fits, v, w') = w in
    let reads =
      read_rdx-write_rdx lit id (print inside) (print rest) (plex_letter lit f) i (omega arith) in
    rw (full lit id (print inside) (print rest), reads, f)
      (elim (Bool-cases (lit == lit_tuple && length (print inside) == 0)) [
        | inl empty ↦ rw empty (
            all_first_loop-print rest fuel (l + 1) w' (omega arith)
            ∙ ap (λ n. ok (are_first rest && leb 2 n)) (omega arith))
        | inr filled ↦ rw filled refl
      ])

pub is_tuple_all_first-print :
    (d : Doc) (fuel : ℕ)
    → IsWhole d
    → count d < fuel
    → is_tuple_all_first fuel (print d) ≡ ok (are_first d && leb 2 (count d))
unfolding is_tuple_all_first
is_tuple_all_first-print d fuel w h =
    all_first_loop-print d fuel 0 w h ∙ ap (λ n. ok (are_first d && leb 2 n)) (omega arith)
