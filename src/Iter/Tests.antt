-- ===== src/Iter/Tests.antt =====
-- The theorems on the cursor at concrete streams.
use go_rdx.Prelude.{◌+◌, ◌≡◌, arith, true, List, [], ◌∷◌, replicate, ok, panic, codes}
use go_rdx.Iter.{new_iter, read, value}
use go_rdx.Iter.Streams.{Reads, Written, stream_of, elements_of, Reads-stream}
use go_rdx.Iter.Faults.{stuck, swollen, read-stuck, value_swollen}

abbrev two_elements : List Written
two_elements =
    record {
      lit = b'S';
      key = 3 ∷ [];
      val = codes "Hello";
      up = omega arith;
      key_fits = omega arith;
      fits = omega arith;
    }
    ∷ record {
      lit = b'I';
      key = [];
      val = 0x15 ∷ [];
      up = omega arith;
      key_fits = omega arith;
      fits = omega arith;
    }
    ∷ []

Reads-stream_example : Reads (new_iter (stream_of two_elements)) (elements_of two_elements)
Reads-stream_example = Reads-stream two_elements

read-stuck_example :
    (read (new_iter ((b'S' + 32) ∷ 254 ∷ 253 ∷ replicate 253 0))
      ≡ ok (stuck b'S' (replicate 253 0), true))
    × (read (stuck b'S' (replicate 253 0)) ≡ ok (stuck b'S' (replicate 253 0), true))
read-stuck_example = read-stuck b'S' (replicate 253 0) (omega arith) (omega arith)

value_swollen_example :
    (read (new_iter ((b'S' + 32) ∷ 1 ∷ 1 ∷ [])) ≡ ok (swollen b'S' 1 [], true))
    × (value (swollen b'S' 1 []) ≡ panic)
value_swollen_example = value_swollen b'S' 1 [] (omega arith) (omega arith) (omega arith)
