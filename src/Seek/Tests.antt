-- ===== src/Seek/Tests.antt =====
-- A run of Seek.
use go_rdx.Prelude.{◌≡◌, refl, arith, ok, codes}
use go_rdx.Cmp.{less}
use go_rdx.Ident.{RdxId}
use go_rdx.Iter.{Iter, new_iter, is_first}
use go_rdx.Element.Docs.{Doc, end, leaf, print, Before}
use go_rdx.Seek.{seek}
use go_rdx.Seek.Docs.{from_id, sought, seek-from_id}

abbrev at_seq_64 : RdxId
at_seq_64 = record { src = 11; seq = 64 }

abbrev at_seq_128 : RdxId
at_seq_128 = record { src = 11; seq = 128 }

abbrev two : Doc
two = leaf b'T' at_seq_64 (codes "a") (leaf b'T' at_seq_128 (codes "b") end)

seek-from_id_example :
    (last : Iter) × (seek 2 at_seq_128 (new_iter (print two))
      ≡ ok (last, sought at_seq_128 less two))
    × Before last (from_id at_seq_128 two)
unfolding is_first
seek-from_id_example =
    seek-from_id two at_seq_128 2
      (
        refl,
        (omega arith, omega arith),
        omega arith,
        (refl, (omega arith, omega arith), omega arith, tt),
      )
      (omega arith)
