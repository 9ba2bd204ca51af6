-- ===== src/Tlv/Records.antt =====
-- ReadTLV and WriteTLV.
use go_rdx.Prelude.{
  ℕ, ◌+◌, ◌-◌, ◌%◌, ◌^◌, ◌≤◌, ◌<◌, ◌≡◌, refl, sym, arith, ltb, List, [], ◌∷◌, ◌++◌, length, take,
  byte, slice-append, slice_from-append, le_bytes, length-append, length-le_bytes, take-append,
  le_value-le_bytes, append_assoc, none, ok, Bool-cases, inl, inr,
}
use go_rdx.Tlv.Case.{IsUpper, case_lem}
use go_rdx.Tlv.{TlvRead, read_tlv, write_tlv, header, max_rec_len, cut_record}

cut_record-append :
    (lit : ℕ) (front value rest : List ℕ) (lo e : ℕ)
    → lo ≡ length front
    → e ≡ length front + length value
    → cut_record lit (front ++ (value ++ rest)) lo e
      ≡ ok (record { lit = lit; value = value; rest = rest; error = none })
cut_record-append lit front value rest lo e p q =
    rw (slice-append front value rest lo e p (omega arith), slice_from-append front value rest e q)

module _ (lit : ℕ) (upper_lit : IsUpper lit) (value rest : List ℕ) where
  abbrev whole : TlvRead
  whole = record { lit = lit; value = value; rest = rest; error = none }

  read_short_lem :
      length value < 256 → read_tlv ((lit + 32) ∷ length value ∷ (value ++ rest)) ≡ ok whole
  unfolding read_tlv
  read_short_lem h =
      let front : List ℕ = (lit + 32) ∷ length value ∷ [] in
      let same : lit + 32 - 32 ≡ lit = omega arith in
      ground (
        arith,
        length-append value rest,
        same,
        cut_record-append lit front value rest 2 (length value + 2) refl (omega arith),
      )

  read_long_lem :
      length value ≤ max_rec_len
      → read_tlv (lit ∷ le_bytes 4 (length value) ++ (value ++ rest)) ≡ ok whole
  unfolding read_tlv
  read_long_lem h =
      let n = length value in
      let front : List ℕ = lit ∷ le_bytes 4 n in
      let taken : take 4 (le_bytes 4 n ++ (value ++ rest)) ≡ le_bytes 4 n =
        take-append (le_bytes 4 n) (value ++ rest) 4 (sym (length-le_bytes 4 n)) in
      ground (
        arith,
        taken,
        length-le_bytes 4 n,
        le_value-le_bytes 4 n (omega arith),
        length-append value rest,
        length-append front (value ++ rest),
        cut_record-append lit front value rest 5 (5 + n) (omega (arith, length-le_bytes 4 n))
            (omega (arith, length-le_bytes 4 n)),
      )

  -- A record's header and value are read as they stand, and the rest is left.
  pub read_tlv-header :
      length value ≤ max_rec_len
      → read_tlv (header lit (length value) ++ (value ++ rest)) ≡ ok whole
  read_tlv-header h = elim (Bool-cases (ltb 0xff (length value))) [
    | inl long ↦
        let narrow : length value % 2 ^ 32 ≡ length value = omega arith in
        rw (long, narrow) (read_long_lem h)
    | inr short ↦
        let narrow : byte (length value) ≡ length value = ground arith in
        rw (short, (case_lem lit upper_lit).0, narrow) (read_short_lem (ground arith))
  ]

-- ReadTLV reads back the record that WriteTLV writes for a capital letter, and leaves what follows
-- it, as long as the value does not pass MaxRecLen.
read_tlv-write_tlv :
    (lit : ℕ) (value rest : List ℕ)
    → IsUpper lit
    → length value ≤ max_rec_len
    → read_tlv (write_tlv [] lit value ++ rest)
      ≡ ok (record { lit = lit; value = value; rest = rest; error = none })
unfolding write_tlv
read_tlv-write_tlv lit value rest up h =
    rw (append_assoc (header lit (length value)) value rest) (read_tlv-header lit up value rest h)
