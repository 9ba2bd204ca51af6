-- ===== src/Navigate/Tests.antt =====
-- Runs of Pick and Delve.
use go_rdx.Prelude.{◌≡◌, refl, arith, codes, get_elem?, List, [], ◌∷◌, ok, err, record_not_found}
use go_rdx.Prelude.Int.{pos}
use go_rdx.ZipInt.{unzip_int64, zip_int64}
use go_rdx.Tlv.{write_tlkv}
use go_rdx.Iter.Streams.{Written, stream_of}
use go_rdx.Navigate.Places.{found, delve_path-place}
use go_rdx.Iter.{
  lit_term, lit_integer, read, rest, record_end, read_next, read_record, read_id, is_plex, iter_lit,
  value, integer, has_data, iter_record,
}
use go_rdx.Navigate.{pick, delve_path}

-- The second term of `(a b)`; 1 is written as the integer 2 in zig-zag.
second :
    pick 9 (b'i' ∷ 2 ∷ 0 ∷ 2 ∷ []) (b'p' ∷ 9 ∷ 0 ∷ b't' ∷ 2 ∷ 0 ∷ b'a' ∷ b't' ∷ 2 ∷ 0 ∷ b'b' ∷ [])
    ≡ ok (b't' ∷ 2 ∷ 0 ∷ b'b' ∷ [])
unfolding pick read rest record_end read_next read_record read_id is_plex iter_lit value integer
    unzip_int64 has_data iter_record
second = refl

-- There is no third.
third_missing :
    pick 9 (b'i' ∷ 2 ∷ 0 ∷ 4 ∷ []) (b'p' ∷ 9 ∷ 0 ∷ b't' ∷ 2 ∷ 0 ∷ b'a' ∷ b't' ∷ 2 ∷ 0 ∷ b'b' ∷ [])
    ≡ err record_not_found
unfolding pick read rest record_end read_next read_record read_id is_plex iter_lit value integer
    unzip_int64 has_data iter_record
third_missing = refl

-- The entry at -1 is found, and has no bytes.
before_first :
    pick 9 (b'i' ∷ 2 ∷ 0 ∷ 1 ∷ []) (b'p' ∷ 9 ∷ 0 ∷ b't' ∷ 2 ∷ 0 ∷ b'a' ∷ b't' ∷ 2 ∷ 0 ∷ b'b' ∷ [])
    ≡ ok []
unfolding pick read rest record_end read_next read_record read_id is_plex iter_lit value integer
    unzip_int64 has_data iter_record
before_first = refl

-- The second element of a document.
deep :
    delve_path 3 9
      (b't' ∷ 2 ∷ 0 ∷ b'x' ∷ b'l' ∷ 9 ∷ 0 ∷ b't' ∷ 2 ∷ 0 ∷ b'a' ∷ b't' ∷ 2 ∷ 0 ∷ b'b' ∷ [])
      (b'i' ∷ 2 ∷ 0 ∷ 2 ∷ [])
    ≡ ok (b'l' ∷ 9 ∷ 0 ∷ b't' ∷ 2 ∷ 0 ∷ b'a' ∷ b't' ∷ 2 ∷ 0 ∷ b'b' ∷ [])
unfolding delve_path read rest record_end read_next read_record read_id iter_lit value unzip_int64
    has_data iter_record
deep = refl

abbrev letters : List Written
letters =
    record {
      lit = lit_term;
      key = [];
      val = codes "a";
      up = omega arith;
      key_fits = omega arith;
      fits = omega arith;
    }
    ∷ record {
      lit = lit_term;
      key = 3 ∷ [];
      val = codes "b";
      up = omega arith;
      key_fits = omega arith;
      fits = omega arith;
    }
    ∷ []

delve_path-place_example :
    delve_path 1 0 (stream_of letters) (write_tlkv [] lit_integer [] (zip_int64 (pos 1)))
    ≡ found (get_elem? letters 1)
delve_path-place_example = delve_path-place 1 0 letters [] 1 (omega arith) (omega arith)
