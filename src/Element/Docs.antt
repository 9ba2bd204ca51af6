-- ===== src/Element/Docs.antt =====
-- Documents as trees: elements of the FIRST types with their values, and containers.
use go_rdx.Prelude.{
  ℕ, suc, ◌+◌, ◌<◌, ◌^◌, ◌≡◌, ◌≢◌, refl, ◌∙◌, arith, Bool, true, false, ◌==◌, List, [], ◌++◌,
  length, append_assoc, ok,
}
use go_rdx.Ident.{RdxId, zip_id}
use go_rdx.Ident.Order.{IsId}
use go_rdx.Tlv.Case.{IsUpper}
use go_rdx.Tlv.{write_tlkv}
use go_rdx.Iter.{Iter, is_first, is_plex, read, rest, has_data, has_failed, bad_iter}
use go_rdx.Iter.Reading.{IsAt, read-IsAt, read_lem}
use go_rdx.Iter.Streams.{ended, written_nonempty}
use go_rdx.Element.{write_rdx}
use go_rdx.Element.RoundTrip.{length-zip_id}

-- A FIRST element or a container, and the elements after it.
pub data Doc : Type 0 where
  end : Doc
  leaf : ℕ → RdxId → List ℕ → Doc → Doc
  node : ℕ → RdxId → Doc → Doc → Doc

unfoldable pub print : Doc → List ℕ
print end = []
print (leaf lit id val rest) = write_rdx [] lit id val ++ print rest
print (node lit id inside rest) = write_rdx [] lit id (print inside) ++ print rest

-- The number of elements.
abbrev pub size : Doc → ℕ
size end = 0
size (leaf lit id val rest) = suc (size rest)
size (node lit id inside rest) = suc (size inside + size rest)

-- The types fit, the identifiers are of two uint64s and each value within the limits of Read.
abbrev pub IsWhole : Doc → Type 0
IsWhole end = Unit {0}
IsWhole (leaf lit id val rest) =
    (is_first lit ≡ true) × IsId id × (length val + 17 < 2 ^ 30) × IsWhole rest
IsWhole (node lit id inside rest) =
    (is_plex lit ≡ true)
    × IsId id
    × (length (print inside) + 17 < 2 ^ 30)
    × IsWhole inside
    × IsWhole rest

pub first_letter : (lit : ℕ) → is_first lit ≡ true → IsUpper lit
unfolding is_first
first_letter lit h = ground (arith, h)

pub plex_letter : (lit : ℕ) → is_plex lit ≡ true → IsUpper lit
unfolding is_plex
plex_letter lit h = ground (arith, h)

pub write_rdx-append :
    (out : List ℕ) (lit : ℕ) (id : RdxId) (val tail : List ℕ)
    → write_tlkv out lit (zip_id id) val ++ tail ≡ out ++ (write_rdx [] lit id val ++ tail)
unfolding write_rdx write_tlkv
write_rdx-append out lit id val tail = append_assoc out _ tail

-- The cursor stands before the document's rest: at its first element, or past the last.
abbrev pub Before : Iter → Doc → Type 0
Before it end = (has_data it ≡ false) × (has_failed it ≡ false)
Before it (leaf lit id val rest) = IsAt it lit (zip_id id) val (print rest)
Before it (node lit id inside rest) = IsAt it lit (zip_id id) (print inside) (print rest)

abbrev pub not_end : Doc → Bool
not_end end = false
not_end (leaf lit id val rest) = true
not_end (node lit id inside rest) = true

-- One step of the cursor.
pub read-Before :
    (it : Iter) (d : Doc)
    → IsWhole d
    → it.errndx ≡ 0
    → (length it.bytes == 0) ≡ false
    → rest it ≡ ok (print d)
    → (it' : Iter) × (read it ≡ ok (it', not_end d)) × Before it' d
unfolding has_data has_failed print write_rdx
read-Before it end w e some_bytes r =
    (bad_iter [] it.errndx, read_lem it [] e some_bytes r ∙ ended it, (refl, rw e refl))
read-Before it (leaf lit id val after) (f, i, fits, w) e some_bytes r =
    let short = length-zip_id id i in
    let (it', reads, at) =
      read-IsAt it lit (zip_id id) val (print after) (first_letter lit f) (omega (arith, short))
        (omega (arith, short, fits)) e some_bytes r in
    (it', reads, at)
read-Before it (node lit id inside after) (f, i, fits, w, w') e some_bytes r =
    let short = length-zip_id id i in
    let (it', reads, at) =
      read-IsAt it lit (zip_id id) (print inside) (print after) (plex_letter lit f)
        (omega (arith, short)) (omega (arith, short, fits)) e some_bytes r in
    (it', reads, at)

pub not_empty : (d : Doc) → size d ≢ 0 → (length (print d) == 0) ≡ false
unfolding print write_rdx
not_empty end h = absurd (h refl)
not_empty (leaf lit id val rest) h = written_nonempty lit (zip_id id) val (print rest)
not_empty (node lit id inside rest) h = written_nonempty lit (zip_id id) (print inside) (print rest)
