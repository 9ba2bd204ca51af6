-- ===== src/Object/Tests.antt =====
-- A run of ObjectReader.
use go_rdx.Prelude.{ℕ, ◌≡◌, refl, arith, List, [], ok, codes}
use go_rdx.Prelude.Int.{ℤ}
use go_rdx.ZipInt.{zip_uint64_pair}
use go_rdx.Ident.{RdxId, id0, zip_id}
use go_rdx.Tlv.{write_tlkv, cut_key}
use go_rdx.Iter.{is_first, is_plex, lit_euler, lit_tuple, lit_term}
use go_rdx.Element.{write_rdx}
use go_rdx.Element.Docs.{Doc, end, leaf, node, print, IsWhole}
use go_rdx.Object.{ObjectReader, new_object_reader}
use go_rdx.Object.Docs.{none_skipped, first_skipped, Finds, new_object_reader-read_pair}

abbrev stamp : RdxId
stamp = record { src = 11; seq = 3 }

abbrev no_float : ℕ → List ℕ
no_float bits = []

abbrev no_int : ℤ → List ℕ
no_int i = []

-- The fields of the pair, and a map of a string and the pair.
abbrev fields : Doc
fields = leaf b'S' id0 (codes "Bob") end

abbrev contents : Doc
contents =
    leaf b'S' stamp (codes "x") (node lit_tuple stamp (leaf lit_term id0 (codes "name") fields) end)

object-IsWhole : IsWhole (node lit_euler stamp contents end)
unfolding is_first is_plex print write_rdx write_tlkv cut_key zip_id zip_uint64_pair
object-IsWhole =
    let last : IsWhole (leaf lit_term id0 (codes "name") fields) = (
      refl,
      (omega arith, omega arith),
      omega arith,
      (refl, (omega arith, omega arith), omega arith, tt),
    ) in
    let inside : IsWhole contents = (
      refl,
      (omega arith, omega arith),
      omega arith,
      (refl, (omega arith, omega arith), omega arith, last, tt),
    ) in
    (refl, (omega arith, omega arith), omega arith, inside, tt)

new_object_reader-read_pair_example :
    (o : ObjectReader) × (new_object_reader (print (node lit_euler stamp contents end)) ≡ ok o)
    × Finds no_float no_int 5 o (codes "name") fields end
new_object_reader-read_pair_example =
    new_object_reader-read_pair no_float no_int contents stamp stamp id0 (codes "name") fields end 5
      (first_skipped none_skipped) object-IsWhole (omega arith)
