-- ===== src/ZipInt/Tests.antt =====
-- Runs of zipint.go, and the theorems at concrete inputs.
use go_rdx.Prelude.{◌^◌, ◌≡◌, refl, arith, [], ◌∷◌, le_bytes}
use go_rdx.Prelude.Int.{negsuc}
use go_rdx.ZipInt.{
  zip_uint64_pair, unzip_uint64_pair, zip_uint64, unzip_uint64, zip_int64, zip_float64,
}
use go_rdx.ZipInt.Pair.{unzip_uint64_pair-zip}
use go_rdx.ZipInt.Scalar.{zip_uint64-unzip}

packed_pair : zip_uint64_pair 0x1234 5 ≡ 0x34 ∷ 0x12 ∷ 5 ∷ []
unfolding zip_uint64_pair le_bytes
packed_pair = refl

minus_eleven : zip_int64 (negsuc 10) ≡ 0x15 ∷ []
unfolding zip_int64
minus_eleven = refl

one_point_two_three_hundred : zip_float64 0x405ec00000000000 ≡ 0x02 ∷ 0x7a ∷ 0x03 ∷ []
unfolding zip_float64
one_point_two_three_hundred = refl

unzip_uint64_pair-zip_example :
    unzip_uint64_pair (zip_uint64_pair 0x1234 (2 ^ 40)) ≡ (0x1234, 2 ^ 40)
unzip_uint64_pair-zip_example = unzip_uint64_pair-zip 0x1234 (2 ^ 40) (omega arith) (omega arith)

zip_uint64-unzip_example : zip_uint64 (unzip_uint64 (0 ∷ 3 ∷ [])) ≡ 0 ∷ 3 ∷ []
zip_uint64-unzip_example = zip_uint64-unzip (0 ∷ 3 ∷ []) (omega arith) (omega arith) (omega arith)
