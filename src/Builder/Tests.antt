-- ===== src/Builder/Tests.antt =====
-- Runs of the builder.
use go_rdx.Prelude.{◌≡◌, arith, [], ◌∷◌, ok, ◌>>=◌}
use go_rdx.Ident.{RdxId, id0}
use go_rdx.Iter.{lit_tuple, lit_integer}
use go_rdx.Element.{write_rdx}
use go_rdx.Builder.{first, first0, into, stream, outo}
use go_rdx.Builder.Laws.{first-eq-write_rdx, outo-into}

abbrev stamp : RdxId
stamp = record { src = 5; seq = 70000 }

first-eq-write_rdx_example :
    (first ((1 ∷ []) ∷ []) lit_integer (7 ∷ []) stamp
      ≡ ok (write_rdx (1 ∷ []) lit_integer stamp (7 ∷ []) ∷ []))
    × (first0 ((1 ∷ []) ∷ []) lit_integer (7 ∷ [])
        ≡ ok (write_rdx (1 ∷ []) lit_integer id0 (7 ∷ []) ∷ []))
first-eq-write_rdx_example =
    first-eq-write_rdx [] (1 ∷ []) lit_integer stamp (7 ∷ []) (omega arith, omega arith)

outo-into_example :
    (into ((1 ∷ []) ∷ []) lit_tuple stamp >>= λ opened.
    stream opened (105 ∷ 2 ∷ 0 ∷ 6 ∷ []) >>= λ full. outo full)
    ≡ ok (write_rdx (1 ∷ []) lit_tuple stamp (105 ∷ 2 ∷ 0 ∷ 6 ∷ []) ∷ [])
outo-into_example =
    outo-into [] (1 ∷ []) lit_tuple stamp (105 ∷ 2 ∷ 0 ∷ 6 ∷ []) (omega arith, omega arith)
