-- ===== src/Navigate/Places.antt =====
-- Delve of a path of one place.
use go_rdx.Prelude.{
  ℕ, zero, suc, ◌<◌, ◌^◌, ◌≡◌, refl, ◌∙◌, arith, false, not, ◌==◌, List, [], ◌∷◌, length, get_elem?,
  if◌then◌else◌, append-nil, Option, none, some, Outcome, ok, err, record_not_found,
}
use go_rdx.Prelude.Int.{pos}
use go_rdx.ZipInt.{zip_int64}
use go_rdx.ZipInt.Signed.{unzip_int64-zip}
use go_rdx.Tlv.{write_tlkv}
use go_rdx.Iter.{Iter, new_iter, bad_iter, read, rest, has_data, iter_record, lit_integer}
use go_rdx.Iter.Reading.{read_lem, nonempty, rest_lem, iter_lit_lem, value_lem}
use go_rdx.Iter.Streams.{Written, stream_of, ended, fresh_rest, written_nonempty}
use go_rdx.Iter.Standing.{Stands, iter_record-Stands, read-Stands}
use go_rdx.Navigate.{advance, skip, delve_p, delve_path}

-- Where the cursor is when it has gone on to an element, or past the last.
Landed : Option Written → Iter → Type 0
Landed (some w) it = (ws : List Written) × Stands it w ws
Landed none it = has_data it ≡ false

advance-Landed :
    (ws : List Written) (n : ℕ) (it : Iter)
    → it.errndx ≡ 0
    → (length it.bytes == 0) ≡ false
    → rest it ≡ ok (stream_of ws)
    → (it' : Iter) × (advance (suc n) it ≡ ok it') × Landed (get_elem? ws n) it'
unfolding advance Landed has_data
advance-Landed [] n it e more r =
    (bad_iter [] it.errndx, rw (read_lem it [] e more r ∙ ended it) refl, refl)
advance-Landed (w ∷ ws) zero it e more r =
    let (it', reads, s) = read-Stands it w ws e more r in (it', rw reads refl, (ws, s))
advance-Landed (w ∷ ws) (suc n) it e more r =
    let (it', reads, s) = read-Stands it w ws e more r in
    let (it'', goes, there) =
      advance-Landed ws n it' s.is_at.no_error (nonempty it' s.is_at) (rest_lem s.is_at) in
    (it'', rw reads goes, there)

skip-Landed :
    (ws : List Written) (n : ℕ)
    → (it : Iter) × (skip (pos n) (new_iter (stream_of ws)) ≡ ok it) × Landed (get_elem? ws n) it
unfolding skip
skip-Landed [] n = (new_iter [], (unfold advance read in refl), (unfold Landed has_data in refl))
skip-Landed (w ∷ ws) n =
    advance-Landed (w ∷ ws) n (new_iter (stream_of (w ∷ ws))) refl
      (written_nonempty w.lit w.key w.val (stream_of ws)) (fresh_rest (stream_of (w ∷ ws)))

-- The bytes of an element that is there.
abbrev pub found : Option Written → Outcome (List ℕ)
found none = err record_not_found
found (some w) = ok (write_tlkv [] w.lit w.key w.val)

-- The integer `n` as the one key of a path.
abbrev pub place : (key : List ℕ) (n : ℕ) → length key < 250 → n < 2 ^ 63 → Written
place key n k h = record {
  lit = lit_integer;
  key = key;
  val = zip_int64 (pos n);
  up = omega arith;
  key_fits = k;
  fits = omega (arith, k, (unzip_int64-zip (pos n) h).1);
}

found_lem :
    (r : Option Written) (it : Iter)
    → Landed r it
    → (if not (has_data it) then err record_not_found else iter_record it) ≡ found r
unfolding Landed has_data
found_lem none it l = rw l refl
found_lem (some w) it (ws, s) = rw (nonempty it s.is_at, iter_record-Stands it w ws s) refl

-- Delve of a path of one place, an int64 that is not negative, under an identifier of fewer than
-- 250 bytes, in a document of elements that WriteTLKV wrote, each of a type that is a capital letter,
-- with an identifier of fewer than 250 bytes, and with identifier, value and one more byte of less
-- than 2 ^ 30 bytes together: the element at that place as it was written, or ErrRecordNotFound when
-- the document has no such place. It takes no fuel.
pub delve_path-place :
    (depth fuel : ℕ) (ws : List Written) (key : List ℕ) (n : ℕ)
    → length key < 250
    → n < 2 ^ 63
    → delve_path depth fuel (stream_of ws) (write_tlkv [] lit_integer key (zip_int64 (pos n)))
      ≡ found (get_elem? ws n)
unfolding delve_path delve_p
delve_path-place depth fuel ws key n k h =
    let w = place key n k h in
    let path = stream_of (w ∷ []) in
    let (at_key, reads, s) =
      read-Stands (new_iter path) w [] refl (written_nonempty w.lit w.key w.val [])
        (fresh_rest path) in
    let at = s.is_at in
    let ends = read_lem at_key [] at.no_error (nonempty at_key at) (rest_lem at) ∙ ended at_key in
    let (it, skips, there) = skip-Landed ws n in
    rw⁻¹ (append-nil (write_tlkv [] lit_integer key (zip_int64 (pos n)))) (
      rw (reads, iter_lit_lem at, value_lem at, (unzip_int64-zip (pos n) h).0, skips, ends)
        (found_lem (get_elem? ws n) it there))
