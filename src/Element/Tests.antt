-- ===== src/Element/Tests.antt =====
-- The theorems on single elements at concrete inputs.
use go_rdx.Prelude.{◌≡◌, arith, [], ◌∷◌, ◌++◌, none, ok, codes}
use go_rdx.Ident.{RdxId}
use go_rdx.Iter.{lit_integer}
use go_rdx.ZipInt.{zip_float64}
use go_rdx.Element.{RdxRead, read_rdx, write_rdx, append_plex, append_float}
use go_rdx.Element.RoundTrip.{read_rdx-write_rdx, append_plex-eq-write_rdx, append_float-IsInteger}

abbrev stamp : RdxId
stamp = record { src = 11; seq = 0x41 }

read_rdx-write_rdx_example :
    read_rdx (write_rdx [] b'S' stamp (codes "Hello") ++ (1 ∷ []))
    ≡ ok (record { lit = b'S'; id = stamp; value = codes "Hello"; rest = 1 ∷ []; error = none })
read_rdx-write_rdx_example =
    read_rdx-write_rdx b'S' stamp (codes "Hello") (1 ∷ []) (omega arith) (omega arith) (omega arith)

append_plex-eq-write_rdx_example :
    append_plex [] b'P' stamp (codes "i") ≡ ok (write_rdx [] b'P' stamp (codes "i"))
append_plex-eq-write_rdx_example =
    append_plex-eq-write_rdx [] b'P' stamp (codes "i") (omega arith) (omega arith)

append_float-IsInteger_example :
    (r : RdxRead) × (read_rdx (append_float [] 7 ++ []) ≡ ok r)
    × (r.error ≡ none)
    × (r.lit ≡ lit_integer)
    × (r.value ≡ zip_float64 7)
append_float-IsInteger_example = append_float-IsInteger 7 [] (omega arith)
