-- ===== src/Builder.antt =====
-- builder.go: a document built from nested streams. A Builder is a slice of streams; here the last
-- stream, to which everything is appended, comes first. Indexing an empty builder panics.
pub mod Laws
mod Tests
use go_rdx.Prelude.{
  ℕ, ◌+◌, ◌-◌, ◌%◌, ◌^◌, bit_or, Bool, ltb, leb, ◌==◌, ◌||◌, if◌then◌else◌, List, [], ◌∷◌, ◌++◌,
  length, take, drop, get_or, set, byte, le_bytes, Outcome, ok, err, panic, ◌>>=◌,
}
use go_rdx.Prelude.Int.{ℤ}
use go_rdx.Ident.{RdxId, zip_id}
use go_rdx.Tlv.{case_bit}
use go_rdx.ZipInt.{zip_float64, zip_int64}
use go_rdx.Iter.{
  lit_float, lit_integer, lit_reference, lit_string, lit_term, lit_tuple, lit_linear, lit_euler,
  lit_multix,
}
use go_rdx.Element.{write_rdx}

abbrev pub Builder : Type 0
Builder = List (List ℕ)

abbrev pub new_builder : Builder
new_builder = [] ∷ []

unfoldable pub builder_len : Builder → ℕ
builder_len [] = 0
builder_len (top ∷ b) = length top + builder_len b

-- `b[last] = append(b[last], ...)`
unfoldable pub append_last : Builder → List ℕ → Outcome Builder
append_last [] more = panic
append_last (top ∷ b) more = ok ((top ++ more) ∷ b)

-- The type letter and the length of the record.
unfoldable pub kv_header : ℕ → ℕ → List ℕ
kv_header lit kvlen =
    if leb kvlen 0xff
    then bit_or lit case_bit ∷ byte kvlen ∷ []
    else lit ∷ le_bytes 4 (kvlen % 2 ^ 32)

unfoldable pub first0 : Builder → ℕ → List ℕ → Outcome Builder
unfolding append_last kv_header
first0 b lit val = append_last b (kv_header lit (length val + 1) ++ (0 ∷ val))

unfoldable pub f0 : Builder → ℕ → Outcome Builder
unfolding first0
f0 b val = first0 b lit_float (zip_float64 val)

unfoldable pub i0 : Builder → ℤ → Outcome Builder
unfolding first0
i0 b val = first0 b lit_integer (zip_int64 val)

unfoldable pub r0 : Builder → RdxId → Outcome Builder
unfolding first0
r0 b val = first0 b lit_reference (zip_id val)

unfoldable pub s0 : Builder → List ℕ → Outcome Builder
unfolding first0
s0 b val = first0 b lit_string val

unfoldable pub t0 : Builder → List ℕ → Outcome Builder
unfolding first0
t0 b val = first0 b lit_term val

unfoldable pub first : Builder → ℕ → List ℕ → RdxId → Outcome Builder
unfolding append_last kv_header
first b lit val id =
    let idb = zip_id id in
    append_last b (kv_header lit (length val + length idb + 1) ++ (byte (length idb) ∷ idb ++ val))

unfoldable pub f : Builder → ℕ → RdxId → Outcome Builder
unfolding first
f b val id = first b lit_float (zip_float64 val) id

unfoldable pub i : Builder → ℤ → RdxId → Outcome Builder
unfolding first
i b val id = first b lit_integer (zip_int64 val) id

unfoldable pub r : Builder → RdxId → RdxId → Outcome Builder
unfolding first
r b val id = first b lit_reference (zip_id val) id

unfoldable pub s : Builder → List ℕ → RdxId → Outcome Builder
unfolding first
s b val id = first b lit_string val id

unfoldable pub t : Builder → List ℕ → RdxId → Outcome Builder
unfolding first
t b val id = first b lit_term val id

-- `*bp = append(*bp, nil)`
unfoldable pub into0 : Builder → ℕ → Outcome Builder
unfolding append_last
into0 b lit = append_last b (lit ∷ 0 ∷ []) >>= λ b'. ok ([] ∷ b')

-- The identifier stands before its length until Outo turns them round.
unfoldable pub into : Builder → ℕ → RdxId → Outcome Builder
unfolding append_last
into b lit id =
    let idb = zip_id id in
    append_last b (lit ∷ (idb ++ (byte (length idb) ∷ []))) >>= λ b'. ok ([] ∷ b')

-- The header for `inner` behind the type letter at the end of `opened`; `id[:idlen]` panics
-- beyond 16 bytes, and the case bit needs a letter to set it in.
unfoldable pub outo_header : List ℕ → List ℕ → List ℕ → Outcome (List ℕ)
outo_header opened id inner =
    let ll = length opened in
    let tl = length inner + 1 + length id in
    if leb tl 0xff
    then (if ll == 0
        then panic
        else ok
            (set opened (ll - 1) (bit_or (get_or opened (ll - 1) 0) case_bit) ++ (byte tl ∷ [])))
    else ok (opened ++ le_bytes 4 (tl % 2 ^ 32))

unfoldable pub outo_top : List ℕ → List ℕ → Outcome (List ℕ)
unfolding outo_header
outo_top inner top =
    let ll = length top in
    let idlen = get_or top (ll - 1) 0 in
    if ll == 0 || (ltb 16 idlen || ltb ll (idlen + 1))
    then panic
    else (let opened = take (ll - (idlen + 1)) top in
        let id = take idlen (drop (ll - (idlen + 1)) top) in
        outo_header opened id inner >>= λ out. ok (out ++ (byte idlen ∷ id ++ inner)))

unfoldable pub outo : Builder → Outcome Builder
unfolding outo_top
outo [] = panic
outo (inner ∷ []) = panic
outo (inner ∷ top ∷ b) = outo_top inner top >>= λ out. ok (out ∷ b)

unfoldable pub stream : Builder → List ℕ → Outcome Builder
unfolding append_last
stream = append_last

unfoldable pub element : Builder → ℕ → RdxId → List ℕ → Outcome Builder
element [] lit id value = panic
element (top ∷ b) lit id value = ok (write_rdx top lit id value ∷ b)

unfoldable pub p : Builder → RdxId → Outcome Builder
unfolding into
p b id = into b lit_tuple id

unfoldable pub l : Builder → RdxId → Outcome Builder
unfolding into
l b id = into b lit_linear id

unfoldable pub e : Builder → RdxId → Outcome Builder
unfolding into
e b id = into b lit_euler id

unfoldable pub x : Builder → RdxId → Outcome Builder
unfolding into
x b id = into b lit_multix id

-- The renamings of the methods above. Outo does not look at its letter.
unfoldable pub string : Builder → List ℕ → Outcome Builder
unfolding first0
string b val = first0 b lit_string val

unfoldable pub term : Builder → List ℕ → Outcome Builder
unfolding first0
term b val = first0 b lit_term val

unfoldable pub into_p0 : Builder → Outcome Builder
unfolding into0
into_p0 b = into0 b lit_tuple

unfoldable pub l0 : Builder → Outcome Builder
unfolding into0
l0 b = into0 b lit_linear

unfoldable pub e0 : Builder → Outcome Builder
unfolding into0
e0 b = into0 b lit_euler

unfoldable pub x0 : Builder → Outcome Builder
unfolding into0
x0 b = into0 b lit_multix

unfoldable pub outo_p : Builder → Outcome Builder
unfolding outo
outo_p b = outo b

unfoldable pub outo_l : Builder → Outcome Builder
unfolding outo
outo_l b = outo b

unfoldable pub outo_e : Builder → Outcome Builder
unfolding outo
outo_e b = outo b

unfoldable pub outo_x : Builder → Outcome Builder
unfolding outo
outo_x b = outo b
