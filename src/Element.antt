-- ===== src/Element.antt =====
-- rdx.go: writing and reading single elements, and their constructors.
pub mod RoundTrip
pub mod Nesting
pub mod Docs
mod Tests
use go_rdx.Prelude.{
  ℕ, ◌+◌, ◌/◌, ◌*◌, ◌-◌, ◌^◌, bit_or, Bool, true, false, not, ◌&&◌, ◌||◌, ltb, leb, ◌==◌,
  if◌then◌else◌, List, [], ◌∷◌, ◌++◌, length, byte, Option, none, some, Outcome, ok, err, panic,
  ◌>>=◌, Error, bad_record, wrong_rdx_record_type,
}
use go_rdx.Prelude.Int.{ℤ, pos}
use go_rdx.Ident.{RdxId, id0, zip_id, unzip_id}
use go_rdx.Ron60.{bit_len}
use go_rdx.Tlv.{TlkvRead, read_tlkv, write_tlkv, Mark, Closed, open_tlv, open_short_tlv, close_tlv}
use go_rdx.Iter.{
  lit_float, lit_integer, lit_reference, lit_string, lit_term, lit_tuple, lit_linear, lit_euler,
  lit_multix,
}
use go_rdx.ZipInt.{zip_int64, unzip_int64, zip_float64}

-- The named results of ReadRDX.
pub record RdxRead : Type 0 where
  pub lit : ℕ
  pub id : RdxId
  pub value : List ℕ
  pub rest : List ℕ
  pub error : Option Error

unfoldable pub with_id : TlkvRead → RdxRead
with_id r = record {
  lit = r.lit;
  id = elim r.error [ none ↦ unzip_id r.key | some e ↦ id0 ];
  value = r.value;
  rest = r.rest;
  error = r.error;
}

unfoldable pub read_rdx : List ℕ → Outcome RdxRead
unfolding with_id
read_rdx bytes = read_tlkv bytes >>= λ r. ok (with_id r)

unfoldable pub write_rdx : List ℕ → ℕ → RdxId → List ℕ → List ℕ
write_rdx out lit id value = write_tlkv out lit (zip_id id) value

-- ReadTerm: any other type is an error, and the value is returned all the same.
unfoldable pub read_term : List ℕ → Outcome RdxRead
read_term rdx = read_rdx rdx >>= λ r. ok (elim r.error [
  | some e ↦ r
  | none ↦ if r.lit == lit_term then r else record r { error = some wrong_rdx_record_type }
])

-- ReadString leaves its value empty on a wrong type, but not on an error of ReadRDX.
unfoldable pub read_string : List ℕ → Outcome RdxRead
read_string rdx = read_rdx rdx >>= λ r. ok (elim r.error [
  | some e ↦ r
  | none ↦
      if r.lit == lit_string then r else record r { value = []; error = some wrong_rdx_record_type }
])

-- ReadID and ReadInteger: the value is `none` where the source leaves it zero.
pub record TypedRead (A : Type 0) : Type 0 where
  pub val : Option A
  pub id : RdxId
  pub rest : List ℕ
  pub error : Option Error

unfoldable pub typed_read : {A : Type 0} → ℕ → ℕ → (List ℕ → A) → RdxRead → TypedRead A
typed_read lit limit unzip r =
    let bad = not (r.lit == lit) || ltb limit (length r.value) in
    elim r.error [
      | some e ↦ record { val = none; id = r.id; rest = r.rest; error = some e }
      | none ↦
          if bad
          then record { val = none; id = r.id; rest = r.rest; error = some bad_record }
          else record { val = some (unzip r.value); id = r.id; rest = r.rest; error = none }
    ]

unfoldable pub read_id : List ℕ → Outcome (TypedRead RdxId)
unfolding typed_read
read_id rdx = read_rdx rdx >>= λ r. ok (typed_read lit_reference 16 unzip_id r)

unfoldable pub read_integer : List ℕ → Outcome (TypedRead ℤ)
unfolding typed_read
read_integer rdx = read_rdx rdx >>= λ r. ok (typed_read lit_integer 8 unzip_int64 r)

-- `uint64(1) << (63 - l)`: of 0 the shift count is -1, which panics.
unfoldable pub top_bit : ℕ → Outcome ℕ
top_bit v = if v == 0 then panic else ok (2 ^ (bit_len 64 v - 1))

unfoldable pub append_integer : List ℕ → ℤ → List ℕ
append_integer out val = write_tlkv out lit_integer [] (zip_int64 val)

-- AppendFloat writes the type of an integer.
unfoldable pub append_float : List ℕ → ℕ → List ℕ
append_float out val = write_tlkv out lit_integer [] (zip_float64 val)

unfoldable pub append_string : List ℕ → List ℕ → List ℕ
append_string out val = write_tlkv out lit_string [] val

unfoldable pub append_term : List ℕ → List ℕ → List ℕ
append_term out val = write_tlkv out lit_term [] val

unfoldable pub append_reference : List ℕ → RdxId → List ℕ
append_reference out val = write_tlkv out lit_reference [] (zip_id val)

-- F, I, R, S and T; F0 and the like pass `id0`.
unfoldable pub make_float : RdxId → ℕ → List ℕ
make_float id val = write_rdx [] lit_float id (zip_float64 val)

unfoldable pub make_integer : RdxId → ℤ → List ℕ
make_integer id val = write_rdx [] lit_integer id (zip_int64 val)

unfoldable pub make_reference : RdxId → RdxId → List ℕ
make_reference id val = write_rdx [] lit_reference id (zip_id val)

unfoldable pub make_string : RdxId → List ℕ → List ℕ
make_string id val = write_rdx [] lit_string id val

unfoldable pub make_term : RdxId → List ℕ → List ℕ
make_term id val = write_rdx [] lit_term id val

-- AppendPLEX ignores the error of CloseTLV.
unfoldable pub append_plex : List ℕ → ℕ → RdxId → List ℕ → Outcome (List ℕ)
append_plex rdx lit id val =
    let zip = zip_id id in
    let opened = if leb (length val) 0xff then open_short_tlv rdx lit [] else open_tlv rdx lit [] in
    opened >>= λ (ret, marks).
    ok (close_tlv (ret ++ (byte (length zip) ∷ zip ++ val)) lit marks).out

unfoldable pub append_tuple : List ℕ → RdxId → List ℕ → Outcome (List ℕ)
unfolding append_plex
append_tuple rdx id val = append_plex rdx lit_tuple id val

unfoldable pub append_linear : List ℕ → RdxId → List ℕ → Outcome (List ℕ)
unfolding append_plex
append_linear rdx id val = append_plex rdx lit_linear id val

unfoldable pub append_euler : List ℕ → RdxId → List ℕ → Outcome (List ℕ)
unfolding append_plex
append_euler rdx id val = append_plex rdx lit_euler id val

unfoldable pub append_multix : List ℕ → RdxId → List ℕ → Outcome (List ℕ)
unfolding append_plex
append_multix rdx id val = append_plex rdx lit_multix id val

abbrev pub concat : List (List ℕ) → List ℕ
concat [] = []
concat (v ∷ vs) = v ++ concat vs

-- MakePLEXOf with no comparison, as `L` and `L0` call it: the elements keep their order.
unfoldable pub make_plex_of : ℕ → RdxId → List (List ℕ) → Outcome (List ℕ)
make_plex_of lit id val =
    let zip = zip_id id in
    let all = concat val in
    let opened = if leb (length all) 0xff then open_short_tlv [] lit [] else open_tlv [] lit [] in
    opened >>= λ (ret, marks).
    ok (close_tlv (ret ++ (byte (length zip) ∷ zip ++ all)) lit marks).out

-- F0, I0, R0, S0 and T0.
unfoldable pub make_float0 : ℕ → List ℕ
make_float0 val = write_rdx [] lit_float id0 (zip_float64 val)

unfoldable pub make_integer0 : ℤ → List ℕ
make_integer0 val = write_rdx [] lit_integer id0 (zip_int64 val)

unfoldable pub make_reference0 : RdxId → List ℕ
make_reference0 val = write_rdx [] lit_reference id0 (zip_id val)

unfoldable pub make_string0 : List ℕ → List ℕ
make_string0 val = write_rdx [] lit_string id0 val

unfoldable pub make_term0 : List ℕ → List ℕ
make_term0 val = write_rdx [] lit_term id0 val

-- MakeString, MakeTerm, MakeTuple and MakeEuler.
unfoldable pub make_bare_string : List ℕ → List ℕ
unfolding append_string
make_bare_string = append_string []

unfoldable pub make_bare_term : List ℕ → List ℕ
unfolding append_term
make_bare_term = append_term []

unfoldable pub make_tuple : RdxId → List ℕ → Outcome (List ℕ)
unfolding append_tuple
make_tuple = append_tuple []

unfoldable pub make_euler : RdxId → List ℕ → Outcome (List ℕ)
unfolding append_euler
make_euler = append_euler []
