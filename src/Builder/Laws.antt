-- ===== src/Builder/Laws.antt =====
-- A builder writes the same elements as WriteRDX.
use go_rdx.Prelude.{
  ℕ, ◌+◌, ◌-◌, ◌%◌, ◌^◌, ◌≤◌, ◌≡◌, refl, ap, sym, arith, bit_or, false, ltb, leb, ◌==◌, ◌||◌, List,
  [], ◌∷◌, ◌++◌, length, get_or, byte, le_bytes, length-append, append_assoc, take-append,
  drop-append, get_or-append, set-append, ok, ◌>>=◌, Bool-cases, inl, inr,
}
use go_rdx.Ident.{RdxId, id0, zip_id}
use go_rdx.Tlv.{case_bit, header, write_tlkv}
use go_rdx.Tlv.Keyed.{cut_key-short}
use go_rdx.Ident.Order.{IsId}
use go_rdx.Element.{write_rdx}
use go_rdx.Element.RoundTrip.{length-zip_id}
use go_rdx.Builder.{
  Builder, append_last, kv_header, first0, first, into0, into, outo_header, outo_top, outo, stream,
}

kv_header-eq-header : (lit n : ℕ) → kv_header lit n ≡ header lit n
unfolding kv_header
kv_header-eq-header lit n = ground arith

write_rdx_lem :
    (top : List ℕ) (lit : ℕ) (id : RdxId) (val : List ℕ) (n : ℕ)
    → IsId id
    → n ≡ length (zip_id id) + length val + 1
    → write_rdx top lit id val
      ≡ top ++ (kv_header lit n ++ (byte (length (zip_id id)) ∷ zip_id id ++ val))
unfolding write_rdx write_tlkv
write_rdx_lem top lit id val n h e =
    let short = length-zip_id id h in
    rw (cut_key-short (zip_id id) (omega arith), kv_header-eq-header lit n, e)

zip_id-zero : zip_id id0 ≡ []
unfolding zip_id go_rdx.ZipInt.zip_uint64_pair
zip_id-zero = refl

-- FIRST appends the element that WriteRDX appends, for an identifier of two uint64s and any
-- letter; FIRST0 does it for the zero identifier.
pub first-eq-write_rdx :
    (b : Builder) (top : List ℕ) (lit : ℕ) (id : RdxId) (val : List ℕ)
    → IsId id
    → (first (top ∷ b) lit val id ≡ ok (write_rdx top lit id val ∷ b))
      × (first0 (top ∷ b) lit val ≡ ok (write_rdx top lit id0 val ∷ b))
unfolding first first0 append_last
first-eq-write_rdx b top lit id val h =
    let n = length val + length (zip_id id) + 1 in
    (
      rw (write_rdx_lem top lit id val n h (omega arith)),
      rw (
        write_rdx_lem top lit id0 val (length val + 1) (omega arith)
            (omega (arith, ap length zip_id-zero)),
        zip_id-zero,
      ),
    )

module _ (out : List ℕ) (lit : ℕ) (id inner : List ℕ) (short : length id ≤ 16) where
  abbrev opened : List ℕ
  opened = out ++ (lit ∷ [])

  abbrev kvlen : ℕ
  kvlen = length inner + 1 + length id

  length-opened : length opened ≡ length out + 1
  length-opened = length-append out (lit ∷ [])

  outo_header-eq-kv_header : outo_header opened id inner ≡ ok (out ++ kv_header lit kvlen)
  unfolding outo_header kv_header
  outo_header-eq-kv_header =
      let n = length out in
      let last : length opened - 1 ≡ n = omega (arith, length-opened) in
      let some_letter : length opened == 0 ≡ false = ground (arith, length-opened) in
      elim (Bool-cases (leb kvlen 0xff)) [
        | inl small ↦ rw (
          small,
          some_letter,
          last,
          get_or-append out (lit ∷ []) n 0 0 (omega arith),
          set-append out (lit ∷ []) n 0 (bit_or lit case_bit) (omega arith),
          append_assoc out (bit_or lit case_bit ∷ []) (byte kvlen ∷ []),
        )
        | inr large ↦ rw (large, append_assoc out (lit ∷ []) (le_bytes 4 (kvlen % 2 ^ 32)))
      ]

  outo_top_lem :
      outo_top inner (opened ++ (id ++ (length id ∷ [])))
      ≡ ok (out ++ kv_header lit kvlen ++ (byte (length id) ∷ id ++ inner))
  unfolding outo_top
  outo_top_lem =
      let n = length id in
      let top = opened ++ (id ++ (n ∷ [])) in
      let size : length top ≡ length opened + (n + 1) =
        omega (arith, length-append opened (id ++ (n ∷ [])), length-append id (n ∷ [])) in
      let at : get_or top (length opened + (n + 1) - 1) 0 ≡ n = rw (
        get_or-append opened (id ++ (n ∷ [])) (length opened + (n + 1) - 1) n 0 (omega arith),
        get_or-append id (n ∷ []) n 0 0 (omega arith),
      ) in
      let fits : length opened + (n + 1) == 0 || (ltb 16 n || ltb (length opened + (n + 1)) (n + 1))
          ≡ false =
        ground arith in
      let back : length opened + (n + 1) - (n + 1) ≡ length opened = omega arith in
      rw (
        size,
        at,
        fits,
        back,
        take-append opened (id ++ (n ∷ [])) (length opened) refl,
        drop-append opened (id ++ (n ∷ [])) (length opened) refl,
        take-append id (n ∷ []) n refl,
        outo_header-eq-kv_header,
      )

module _ (b : Builder) (top : List ℕ) (lit : ℕ) (id : RdxId) (body : List ℕ) (valid : IsId id) where
  outo-marked :
      outo (body ∷ (top ++ (lit ∷ (zip_id id ++ (byte (length (zip_id id)) ∷ [])))) ∷ b)
      ≡ ok (write_rdx top lit id body ∷ b)
  unfolding outo
  outo-marked =
      let zip = zip_id id in
      let short = length-zip_id id valid in
      let small : byte (length zip) ≡ length zip = omega (arith, short) in
      let n = length body + 1 + length zip in
      rw (
        write_rdx_lem top lit id body n valid (omega arith),
        small,
        sym (append_assoc top (lit ∷ []) (zip ++ (length zip ∷ []))),
        outo_top_lem top lit zip body short,
        small,
        append_assoc top (kv_header lit n) (length zip ∷ (zip ++ body)),
      )

  -- A container opened by Into, filled with any content and closed by Outo, is the element
  -- that WriteRDX appends to the stream below, for any letter and an identifier of two uint64s.
  pub outo-into :
      (into (top ∷ b) lit id >>= λ opened. stream opened body >>= λ full. outo full)
      ≡ ok (write_rdx top lit id body ∷ b)
  unfolding into stream append_last
  outo-into = outo-marked

-- The same holds of Into0 and the zero identifier.
outo-into0 :
    (b : Builder) (top : List ℕ) (lit : ℕ) (body : List ℕ)
    → (into0 (top ∷ b) lit >>= λ opened. stream opened body >>= λ full. outo full)
      ≡ ok (write_rdx top lit id0 body ∷ b)
unfolding into0 stream append_last
outo-into0 b top lit body =
    rw zip_id-zero at (outo-marked b top lit id0 body (omega arith, omega arith))
