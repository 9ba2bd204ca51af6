-- ===== src/Flatten/Tests.antt =====
-- Runs of Flatten.
use go_rdx.Prelude.{ℕ, ◌≡◌, refl, arith, List, [], ◌∷◌, ◌++◌, ok, none, codes}
use go_rdx.ZipInt.{unzip_uint64_pair, zip_uint64_pair}
use go_rdx.Ident.{unzip_id, zip_id, RdxId, is_live}
use go_rdx.Tlv.{
  read_tlkv, top_lit, open_tlv, close_tlv, close_at, closed_with, put_length, shrink, write_tlkv,
  cut_key,
}
use go_rdx.Iter.{is_first, is_plex}
use go_rdx.Element.{write_rdx}
use go_rdx.Element.Docs.{IsWhole, Doc, end, leaf, node, print}
use go_rdx.Flatten.{flatten}
use go_rdx.Flatten.Docs.{bare, flatten-bare}

abbrev stamp : RdxId
stamp = record { src = 11; seq = 0x40 }

-- A term, and a list of an empty tuple and a string.
abbrev mixed : Doc
mixed =
    leaf b'T' stamp (codes "a")
      (node b'L' stamp (node b'P' stamp end (leaf b'S' stamp (codes "b") end)) end)

mixed-IsWhole : IsWhole mixed
unfolding is_first is_plex print write_rdx write_tlkv cut_key zip_id zip_uint64_pair
mixed-IsWhole =
    let last : IsWhole (leaf b'S' stamp (codes "b") end) =
      (refl, (omega arith, omega arith), omega arith, tt) in
    let inside : IsWhole (node b'P' stamp end (leaf b'S' stamp (codes "b") end)) =
      (refl, (omega arith, omega arith), omega arith, tt, last) in
    (
      refl,
      (omega arith, omega arith),
      omega arith,
      (refl, (omega arith, omega arith), omega arith, inside, tt),
    )

flatten-bare_example :
    flatten 5 (9 ∷ []) (print mixed)
    ≡ ok (record { out = (9 ∷ []) ++ print (bare mixed); stack = []; error = none })
unfolding is_live
flatten-bare_example =
    flatten-bare mixed (9 ∷ []) 5 mixed-IsWhole
      (refl, (refl, refl, (refl, refl, tt, (refl, tt)), tt)) (omega arith)

-- A string in a set loses its value, since Flatten reads the value as records.
abbrev a_set : List ℕ
a_set = b'x' ∷ 6 ∷ 0 ∷ b's' ∷ 3 ∷ 0 ∷ b'h' ∷ b'i' ∷ []

string_in_set :
    flatten 4 [] a_set
    ≡ ok (record { out = b'x' ∷ 4 ∷ 0 ∷ b's' ∷ 1 ∷ 0 ∷ []; stack = []; error = none })
unfolding flatten read_tlkv is_live unzip_id unzip_uint64_pair top_lit is_first open_tlv zip_id
    zip_uint64_pair close_tlv close_at closed_with put_length shrink
string_in_set = refl
