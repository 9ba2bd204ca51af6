-- ===== src/Iter/Reading.antt =====
-- Read at a record that WriteTLKV wrote, and the accessors behind it.
use go_rdx.Prelude.{
  ℕ, ◌+◌, ◌%◌, ◌^◌, ◌<◌, ◌≡◌, refl, ap, sym, ◌∙◌, arith, true, false, ltb, ◌==◌, List, [], ◌∷◌,
  ◌++◌, length, byte, le_bytes, length-append, length-le_bytes, le_value-le_bytes, append_assoc, ok,
  Bool-cases, inl, inr, slice-append, slice_from-append, ltb→le,
}
use go_rdx.Prelude.Int.{pos}
use go_rdx.Ident.{unzip_id}
use go_rdx.Tlv.Case.{IsUpper, case_lem}
use go_rdx.Tlv.Keyed.{write_tlkv-body, cut_key-short, body}
use go_rdx.Tlv.{header, write_tlkv}
use go_rdx.Iter.{
  Iter, value_start, record_end, rest, value, iter_id, iter_lit, parsed, read, read_next,
  read_record, read_id, peek_bytes,
}

-- The cursor stands at a record with this type, identifier bytes and value; `tail` follows it.
pub record IsAt (it : Iter) (lit : ℕ) (key val tail : List ℕ) : Type 0 where
  pub head : List ℕ
  pub bytes : it.bytes ≡ head ++ (key ++ (val ++ tail))
  pub type_byte : peek_bytes head ≡ lit
  pub not_empty : 0 < length head
  pub hdrlen : it.hdrlen ≡ length head
  pub idlen : it.idlen ≡ length key
  pub vallen : it.vallen ≡ pos (length val)
  pub short_head : length head + length key < 256
  pub no_error : it.errndx ≡ 0

peek_bytes-append : (xs ys : List ℕ) → 0 < length xs → peek_bytes (xs ++ ys) ≡ peek_bytes xs
unfolding peek_bytes
peek_bytes-append [] ys h = absurd (omega arith)
peek_bytes-append (x ∷ xs) ys h = refl

pub nonempty :
    (it : Iter) {lit : ℕ} {key val tail : List ℕ}
    → IsAt it lit key val tail
    → (length it.bytes == 0) ≡ false
nonempty it {key = key} {val = val} {tail = tail} p =
    ground (arith, ap length p.bytes, length-append p.head (key ++ (val ++ tail)), p.not_empty)

module _ {it : Iter} {lit : ℕ} {key val tail : List ℕ} (p : IsAt it lit key val tail) where
  start_lem : value_start it ≡ length (p.head ++ key)
  unfolding value_start
  start_lem = rw (p.hdrlen, p.idlen) (omega (arith, p.short_head, length-append p.head key))

  pub end_lem : record_end it ≡ ok (length (p.head ++ key) + length val)
  unfolding record_end
  end_lem = rw (start_lem, p.vallen)

  grouped : it.bytes ≡ (p.head ++ key) ++ (val ++ tail)
  grouped = p.bytes ∙ sym (append_assoc p.head key (val ++ tail))

  pub value_lem : value it ≡ ok val
  unfolding value
  value_lem =
      rw (end_lem, start_lem, grouped)
        (slice-append (p.head ++ key) val tail (length (p.head ++ key)) _ refl refl)

  pub rest_lem : rest it ≡ ok tail
  unfolding rest
  rest_lem = rw (end_lem, grouped) (slice_from-append (p.head ++ key) val tail _ refl)

  pub iter_id_lem : iter_id it ≡ ok (unzip_id key)
  unfolding iter_id
  iter_id_lem = rw (
    start_lem,
    p.bytes,
    p.hdrlen,
    slice-append p.head key (val ++ tail) (length p.head) (length (p.head ++ key)) refl
        (length-append p.head key),
  )

  pub iter_lit_lem : iter_lit it ≡ lit
  unfolding iter_lit
  iter_lit_lem = rw p.bytes (peek_bytes-append p.head _ p.not_empty ∙ p.type_byte)

  pub parsed_lem : parsed it ≡ ok (lit, unzip_id key, val)
  unfolding parsed
  parsed_lem = rw (nonempty it p, iter_id_lem, value_lem, iter_lit_lem)

-- What Read finds behind the type byte and the length of a record that WriteTLKV wrote.
module _ (it : Iter) (lit : ℕ) (up : IsUpper lit) (key val tail : List ℕ) where
  abbrev key_size : ℕ
  key_size = length key

  abbrev size : ℕ
  size = length (body key val)

  abbrev found : List ℕ → ℕ → Iter
  found head n = record {
    bytes = head ++ (key ++ (val ++ tail));
    vallen = pos (length val);
    hdrlen = n;
    idlen = key_size;
    lit = lit;
    errndx = it.errndx;
  }

  abbrev short_head : List ℕ
  short_head = (lit + 32) ∷ size ∷ key_size ∷ []

  abbrev long_head : List ℕ
  long_head = (lit ∷ le_bytes 4 size) ++ (key_size ∷ [])

  read_next-short : read_next it (short_head ++ (key ++ (val ++ tail))) ≡ (found short_head 3, true)
  unfolding read_next read_record read_id
  read_next-short =
      let (low, keep, drops, clear, set_bit) = case_lem lit up in
      ground (
        arith,
        set_bit,
        length-append key (val ++ tail),
        length-append val tail,
        length-append key val,
      )

  read_next-long :
      size < 2 ^ 30 → read_next it (long_head ++ (key ++ (val ++ tail))) ≡ (found long_head 6, true)
  unfolding read_next read_record read_id le_bytes
  read_next-long h =
      let (low, keep, drops, clear, set_bit) = case_lem lit up in
      ground (
        arith,
        clear,
        le_value-le_bytes 4 size (omega arith),
        length-append key (val ++ tail),
        length-append val tail,
        length-append key val,
      )

  abbrev record_bytes : List ℕ
  record_bytes = header lit size ++ (body key val ++ tail)

  bytes-long :
      ltb 0xff size ≡ true → size < 2 ^ 30 → record_bytes ≡ long_head ++ (key ++ (val ++ tail))
  bytes-long long h =
      let narrow : size % 2 ^ 32 ≡ size = omega arith in rw (long, narrow) (simp append_assoc)

  bytes-short : ltb 0xff size ≡ false → record_bytes ≡ short_head ++ (key ++ (val ++ tail))
  bytes-short short =
      let narrow : byte size ≡ size = omega (arith, ltb→le 0xff size short) in
      rw (short, (case_lem lit up).0, narrow) (simp append_assoc)

  -- Read at such a record stands at it afterwards.
  pub read_next-IsAt :
      size < 2 ^ 30
      → length key < 250
      → it.errndx ≡ 0
      → (it' : Iter) × (read_next it record_bytes ≡ (it', true)) × IsAt it' lit key val tail
  unfolding peek_bytes
  read_next-IsAt h k e = elim (Bool-cases (ltb 0xff size)) [
    | inl long ↦ (
      found long_head 6,
      ap (read_next it) (bytes-long long h) ∙ read_next-long h,
      record {
        head = long_head;
        bytes = refl;
        type_byte = (case_lem lit up).1;
        not_empty = omega arith;
        hdrlen =
            omega (arith, length-append (le_bytes 4 size) (key_size ∷ []), length-le_bytes 4 size);
        idlen = refl;
        vallen = refl;
        short_head =
            omega (arith, length-append (le_bytes 4 size) (key_size ∷ []), length-le_bytes 4 size);
        no_error = e;
      },
    )
    | inr short ↦ (
      found short_head 3,
      ap (read_next it) (bytes-short short) ∙ read_next-short,
      record {
        head = short_head;
        bytes = refl;
        type_byte = (case_lem lit up).2;
        not_empty = omega arith;
        hdrlen = refl;
        idlen = refl;
        vallen = refl;
        short_head = omega arith;
        no_error = e;
      },
    )
  ]

pub read_lem :
    (it : Iter) (next : List ℕ)
    → it.errndx ≡ 0
    → (length it.bytes == 0) ≡ false
    → rest it ≡ ok next
    → read it ≡ ok (read_next it next)
unfolding read
read_lem it next e more r =
    let clean : ltb 0 it.errndx ≡ false = ground arith in rw (more, clean, r)

-- Read, before a record that WriteTLKV wrote, succeeds and stands at it.
pub read-IsAt :
    (it : Iter) (lit : ℕ) (key val tail : List ℕ)
    → IsUpper lit
    → length key < 250
    → length key + length val + 1 < 2 ^ 30
    → it.errndx ≡ 0
    → (length it.bytes == 0) ≡ false
    → rest it ≡ ok (write_tlkv [] lit key val ++ tail)
    → (it' : Iter) × (read it ≡ ok (it', true)) × IsAt it' lit key val tail
read-IsAt it lit key val tail up k h e more r =
    let (it', reads, stands) =
      read_next-IsAt it lit up key val tail (omega (arith, length-append key val)) k e in
    let written : write_tlkv [] lit key val ++ tail ≡ record_bytes it lit up key val tail =
      rw (cut_key-short key (omega arith)) at (write_tlkv-body lit key val tail) in
    (
      it',
      read_lem it _ e more r ∙ ap (λ (b : List ℕ). ok (read_next it b)) written ∙ ap ok reads,
      stands,
    )
