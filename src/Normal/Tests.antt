-- ===== src/Normal/Tests.antt =====
-- Runs of Normalize.
use go_rdx.Prelude.{
  ℕ, ◌≡◌, refl, arith, Bool, true, ◌&&◌, ltb, List, [], ◌∷◌, ok, none, inl, out_of_fuel, codes,
  le_value,
}
use go_rdx.ZipInt.{zip_uint64_pair}
use go_rdx.Ident.{zip_id, RdxId}
use go_rdx.Element.{write_rdx}
use go_rdx.Element.Docs.{IsWhole, Doc, end, leaf, node, print}
use go_rdx.Tlv.{write_tlkv, cut_key, top_lit}
use go_rdx.Iter.{is_first, is_plex}
use go_rdx.ZipInt.{zip_int64, unzip_int64}
use go_rdx.Normal.{shortest, normalize, normal_form}
use go_rdx.Normal.Docs.{Shortens, end_short, leaf_short, node_short, normalize-Shortens}
use go_rdx.Normal.Endless.{too_long, normal_form-endless}

-- A test for the texts of the runs.
abbrev is_ascii : List ℕ → Bool
is_ascii [] = true
is_ascii (c ∷ cs) = ltb c 128 && is_ascii cs

abbrev stamp : RdxId
stamp = record { src = 11; seq = 0x41 }

-- An integer with a byte too many, in a tuple after a string.
abbrev wide : Doc
wide = leaf b'S' stamp (codes "ab") (node b'P' stamp (leaf b'I' stamp (2 ∷ 0 ∷ []) end) end)

abbrev narrow : Doc
narrow = leaf b'S' stamp (codes "ab") (node b'P' stamp (leaf b'I' stamp (2 ∷ []) end) end)

narrows : Shortens is_ascii wide narrow
unfolding shortest zip_int64 unzip_int64
narrows = leaf_short refl (node_short (inl refl) (leaf_short refl end_short) end_short)

wide-IsWhole : IsWhole wide
unfolding is_first is_plex print write_rdx write_tlkv cut_key zip_id zip_uint64_pair
wide-IsWhole =
    let inside : IsWhole (leaf b'I' stamp (2 ∷ 0 ∷ []) end) =
      (refl, (omega arith, omega arith), omega arith, tt) in
    (
      refl,
      (omega arith, omega arith),
      omega arith,
      (refl, (omega arith, omega arith), omega arith, inside, tt),
    )

normalize-Shortens_example : normalize is_ascii 4 4 none [] (print wide) [] ≡ ok (print narrow, [])
unfolding top_lit
normalize-Shortens_example =
    normalize-Shortens is_ascii wide narrow [] [] 4 4 narrows wide-IsWhole refl (omega arith)
      (omega arith)

normal_form-endless_example :
    normal_form is_ascii 3 100 (too_long b'S' 0 0 0 0x40 0 (codes "abc")) ≡ out_of_fuel
unfolding is_first shortest le_value
normal_form-endless_example =
    normal_form-endless is_ascii b'S' 0 0 0 0x40 0 (codes "abc") [] refl refl 3 100 (omega arith)
