-- ===== src/Element/RoundTrip.antt =====
-- Elements are read back as they were written, and the containers are written alike in all ways.
use go_rdx.Prelude.{
  ℕ, suc, ◌+◌, ◌≤◌, ◌≡◌, refl, ap, ◌∙◌, arith, leb, List, [], ◌∷◌, ◌++◌, length, byte,
  length-append, none, some, Outcome, ok, ◌>>=◌, IsU64, Bool-cases, inl, inr,
}
use go_rdx.Prelude.Int.{ℤ, IsInt64}
use go_rdx.Ident.{RdxId, zip_id, unzip_id}
use go_rdx.Ident.Order.{IsId}
use go_rdx.Tlv.Case.{IsUpper}
use go_rdx.Tlv.Keyed.{read_tlkv-write_tlkv, cut_key-short}
use go_rdx.Tlv.Nesting.{close_tlv-open_tlv, close_tlv-open_short_tlv}
use go_rdx.Tlv.{max_rec_len, write_tlkv, write_tlv, Closed}
use go_rdx.Iter.{lit_integer, lit_reference}
use go_rdx.ZipInt.Pair.{unzip_uint64_pair-zip, zip_uint64_pair_shape}
use go_rdx.ZipInt.Scalar.{length-zip_float64}
use go_rdx.ZipInt.Signed.{unzip_int64-zip}
use go_rdx.ZipInt.{zip_int64, zip_float64}
use go_rdx.Element.{
  RdxRead, with_id, read_rdx, write_rdx, typed_read, read_id, read_integer, make_integer,
  make_reference, append_plex, append_float,
}

pub unzip_id-zip : (id : RdxId) → IsId id → unzip_id (zip_id id) ≡ id
unfolding unzip_id zip_id
unzip_id-zip id h = rw (unzip_uint64_pair-zip id.seq id.src h.1 h.0)

pub length-zip_id : (id : RdxId) → IsId id → length (zip_id id) ≤ 16
unfolding zip_id
length-zip_id id h = (zip_uint64_pair_shape id.seq id.src h.1 h.0).0

-- ReadRDX reads back, with its identifier, the element that WriteRDX writes for a capital
-- letter and an identifier of two uint64s, and leaves what follows it, as long as the value
-- stays 17 bytes within MaxRecLen.
pub read_rdx-write_rdx :
    (lit : ℕ) (id : RdxId) (value rest : List ℕ)
    → IsUpper lit
    → IsId id
    → length value + 17 ≤ max_rec_len
    → read_rdx (write_rdx [] lit id value ++ rest)
      ≡ ok (record { lit = lit; id = id; value = value; rest = rest; error = none })
unfolding read_rdx write_rdx with_id
read_rdx-write_rdx lit id value rest up h fits =
    let short = length-zip_id id h in
    rw (
      read_tlkv-write_tlkv lit (zip_id id) value rest up (omega arith) (omega arith),
      unzip_id-zip id h,
    )

-- ReadInteger reads back every int64 that I writes with an identifier of two uint64s, and
-- leaves what follows it.
read_integer-make_integer :
    (id : RdxId) (i : ℤ) (rest : List ℕ)
    → IsId id
    → IsInt64 i
    → read_integer (make_integer id i ++ rest)
      ≡ ok (record { val = some i; id = id; rest = rest; error = none })
unfolding read_integer make_integer typed_read
read_integer-make_integer id i rest h k =
    let (back, short) = unzip_int64-zip i k in
    rw (read_rdx-write_rdx lit_integer id (zip_int64 i) rest (omega arith) h (omega arith))
      (ground (arith, back, short))

-- ReadID reads back every reference that R writes with an identifier, both of two uint64s, and
-- leaves what follows it.
read_id-make_reference :
    (id val : RdxId) (rest : List ℕ)
    → IsId id
    → IsId val
    → read_id (make_reference id val ++ rest)
      ≡ ok (record { val = some val; id = id; rest = rest; error = none })
unfolding read_id make_reference typed_read
read_id-make_reference id val rest h k =
    let short = length-zip_id val k in
    rw (read_rdx-write_rdx lit_reference id (zip_id val) rest (omega arith) h (omega arith))
      (ground (arith, short, unzip_id-zip val k))

module _ {P : Type 0} where
  bind_out :
      (m : Outcome P) (f : P → Closed) {c : Closed}
      → (m >>= λ p. ok (f p)) ≡ ok c
      → (m >>= λ p. ok (f p).out) ≡ ok c.out
  bind_out (Outcome.ok p) f h = cc
  bind_out (Outcome.err e) f h = cc
  bind_out Outcome.panic f h = cc
  bind_out Outcome.out_of_fuel f h = cc

pub write_tlv-eq-write_tlkv :
    (out : List ℕ) (lit : ℕ) (key value : List ℕ)
    → length key ≤ 255
    → write_tlv out lit (byte (length key) ∷ key ++ value) ≡ write_tlkv out lit key value
unfolding write_tlv write_tlkv
write_tlv-eq-write_tlkv out lit key value h =
    let size : length key + length value + 1 ≡ suc (length (key ++ value)) =
      omega (arith, length-append key value) in
    rw (cut_key-short key h, size)

-- AppendPLEX writes the same bytes as WriteRDX for a capital letter and an identifier of two
-- uint64s, whatever the length of the content and whichever way it opens the container.
pub append_plex-eq-write_rdx :
    (rdx : List ℕ) (lit : ℕ) (id : RdxId) (val : List ℕ)
    → IsUpper lit
    → IsId id
    → append_plex rdx lit id val ≡ ok (write_rdx rdx lit id val)
unfolding append_plex write_rdx
append_plex-eq-write_rdx rdx lit id val up h =
    let zip = zip_id id in
    let body : List ℕ = byte (length zip) ∷ zip ++ val in
    let same : write_tlv rdx lit body ≡ write_tlkv rdx lit zip val =
      write_tlv-eq-write_tlkv rdx lit zip val (omega (arith, length-zip_id id h)) in
    elim (Bool-cases (leb (length val) 0xff)) [
      | inl short ↦
          rw short (bind_out _ _ (close_tlv-open_short_tlv rdx lit body [] up) ∙ ap ok same)
      | inr long ↦ rw long (bind_out _ _ (close_tlv-open_tlv rdx lit body [] up) ∙ ap ok same)
    ]

-- AppendFloat writes an element that ReadRDX reads as an integer, and never as a float.
pub append_float-IsInteger :
    (bits : ℕ) (rest : List ℕ)
    → IsU64 bits
    → (r : RdxRead) × (read_rdx (append_float [] bits ++ rest) ≡ ok r)
      × (r.error ≡ none)
      × (r.lit ≡ lit_integer)
      × (r.value ≡ zip_float64 bits)
unfolding append_float read_rdx with_id
append_float-IsInteger bits rest h = (
  record {
    lit = lit_integer;
    id = unzip_id [];
    value = zip_float64 bits;
    rest = rest;
    error = none;
  },
  rw
      (read_tlkv-write_tlkv lit_integer [] (zip_float64 bits) rest (omega arith) (omega arith)
        (omega (arith, length-zip_float64 bits h)))
      refl,
  refl,
  refl,
  refl,
)
