-- ===== src/Tlv/Nesting.antt =====
-- OpenTLV, OpenShortTLV and CloseTLV against WriteTLV.
use go_rdx.Prelude.{
  ℕ, suc, ◌+◌, ◌-◌, ◌%◌, ◌^◌, ◌≤◌, ◌<◌, ◌≡◌, refl, ap, sym, ◌∙◌, arith, true, false, ltb, leb, ◌==◌,
  ◌||◌, List, [], ◌∷◌, ◌++◌, length, take, copy_to, byte, le_bytes, length-le_bytes, length-append,
  append_assoc, copy_to-append, set-append, take-append_past, drop-append_past, get_or-append,
  overwrite-append, take-overwrite, copy_to-rest, length-take, none, ok, ◌>>=◌, take-append,
  Bool-cases, inl, inr, bit_and, ltb→lt, ltb→le,
}
use go_rdx.Tlv.Case.{IsUpper, case_lem}
use go_rdx.Tlv.{
  Mark, Closed, new_mark, open_tlv, open_short_tlv, close_tlv, close_at, closed_with, put_length,
  shrink, grow, cancel_tlv, write_tlv, lower, upper, case_bit,
}

module _ (out : List ℕ) (lit : ℕ) (body : List ℕ) where
  abbrev open_long : List ℕ
  open_long = out ++ (lit ∷ 0 ∷ 0 ∷ 0 ∷ 0 ∷ body)

  abbrev short_record : List ℕ
  short_record = out ++ (lower lit ∷ byte (length body) ∷ body)

  abbrev long_record : List ℕ
  long_record = out ++ (lit ∷ le_bytes 4 (length body % 2 ^ 32) ++ body)

  shrink_lem : shrink open_long (length out) ≡ out ++ (lower lit ∷ 0 ∷ body)
  unfolding shrink
  shrink_lem =
      let n = length out in
      let ys : List ℕ = lit ∷ 0 ∷ 0 ∷ 0 ∷ 0 ∷ body in
      let zs : List ℕ = lit ∷ 0 ∷ body in
      rw (
        drop-append_past out ys (n + 5) 5 refl,
        copy_to-append out body ys (n + 2) 2 refl,
        take-append_past out (copy_to 2 body ys) (length (out ++ ys) - 3) (suc (suc (length body)))
            (omega (arith, length-append out ys)),
        take-overwrite body (0 ∷ 0 ∷ 0 ∷ body) (omega arith),
        get_or-append out zs n 0 0 (omega arith),
        set-append out zs n 0 (lower lit) (omega arith),
      )

  put_length-short :
      (b : ℕ)
      → length body ≤ 0xff
      → put_length (out ++ (b ∷ 0 ∷ body)) (length out) (length body)
        ≡ out ++ (b ∷ byte (length body) ∷ body)
  unfolding put_length
  put_length-short b h =
      let narrow : ltb (length body) 0x100 ≡ true = ground arith in
      rw (narrow, set-append out (b ∷ 0 ∷ body) (length out + 1) 1 (byte (length body)) refl)

  -- Between the type byte and the body stand four bytes for the length, still to be written.
  abbrev gap : List ℕ
  gap = 0 ∷ take 3 (body ++ (0 ∷ 0 ∷ 0 ∷ []))

  length-gap : length gap ≡ 4
  length-gap =
      omega (arith, length-take 3 (body ++ (0 ∷ 0 ∷ 0 ∷ [])), length-append body (0 ∷ 0 ∷ 0 ∷ []))

  grow_lem : (b : ℕ) → grow (out ++ (b ∷ 0 ∷ body)) (length out) ≡ out ++ (upper b ∷ gap ++ body)
  unfolding grow
  grow_lem b =
      let n = length out in
      let zeros : List ℕ = 0 ∷ 0 ∷ 0 ∷ [] in
      let tail : List ℕ = body ++ zeros in
      let zs : List ℕ = b ∷ gap ++ body in
      rw (
        append_assoc out (b ∷ 0 ∷ body) zeros,
        drop-append_past out (b ∷ 0 ∷ body) (n + 2) 2 refl,
        copy_to-append out body (b ∷ 0 ∷ tail) (n + 5) 5 refl,
        copy_to-rest 3 body tail (omega (arith, length-append body zeros)),
        get_or-append out zs n 0 0 (omega arith),
        set-append out zs n 0 (upper b) (omega arith),
      )

  put_length-gap :
      (four : List ℕ)
      → length four ≡ 4
      → 0xff < length body
      → put_length (out ++ (lit ∷ four ++ body)) (length out) (length body) ≡ long_record
  unfolding put_length
  put_length-gap four e h =
      let n = length body in
      let wide : ltb n 0x100 ≡ false = ground arith in
      let le = le_bytes 4 (n % 2 ^ 32) in
      rw (wide, copy_to-append out le (lit ∷ four ++ body) (length out + 1) 1 refl)
        (ap (λ (t : List ℕ). out ++ (lit ∷ t))
          (overwrite-append le four body (e ∙ sym (length-le_bytes 4 (n % 2 ^ 32)))))

  module _ (upper_lit : IsUpper lit) (stack : List Mark) where
    abbrev done : List ℕ → Closed
    done out' = record { out = out'; stack = stack; error = none }

    close_at-long : close_at open_long (length out) stack ≡ done (write_tlv out lit body)
    unfolding close_at closed_with write_tlv
    close_at-long =
        let ys : List ℕ = lit ∷ 0 ∷ 0 ∷ 0 ∷ 0 ∷ body in
        let n = length out in
        let (low, keep, drops, clear, set_bit) = case_lem lit upper_lit in
        let at = get_or-append out ys n 0 0 (omega arith) in
        let size : length (out ++ ys) - n ≡ length body + 5 = omega (arith, length-append out ys) in
        let room : ltb (length body + 5) 5 ≡ false = ground arith in
        let left : length body + 5 - 5 ≡ length body = omega arith in
        elim (Bool-cases (ltb 0xff (length body))) [
          | inl long ↦
              let wide : ltb (length body) 0x100 ≡ false = ground arith in
              rw (at, clear, size, room, left, wide, long)
                (ap done (put_length-gap (0 ∷ 0 ∷ 0 ∷ 0 ∷ []) refl (ltb→lt _ _ long)))
          | inr short ↦
              let narrow : ltb (length body) 0x100 ≡ true = ground arith in
              rw (at, clear, size, room, left, narrow, shrink_lem, short)
                (ap done (put_length-short (lower lit) (ltb→le _ _ short)))
        ]

    close_at-short :
        close_at (out ++ (lower lit ∷ 0 ∷ body)) (length out) stack ≡ done (write_tlv out lit body)
    unfolding close_at closed_with write_tlv
    close_at-short =
        let ys : List ℕ = lower lit ∷ 0 ∷ body in
        let n = length out in
        let (low, keep, drops, clear, set_bit) = case_lem lit upper_lit in
        let at = get_or-append out ys n 0 0 (omega arith) in
        let size : length (out ++ ys) - n ≡ length body + 2 = omega (arith, length-append out ys) in
        let room : ltb (length body + 2) 2 ≡ false = ground arith in
        let left : length body + 2 - 2 ≡ length body = omega arith in
        let marked : bit_and (lower lit) case_bit ≡ 32 = rw low set_bit in
        let raised : upper (lower lit) ≡ lit = rw low drops in
        elim (Bool-cases (ltb 0xff (length body))) [
          | inl long ↦
              let wide : ltb (length body) 0x100 ≡ false = ground arith in
              rw (at, marked, size, room, left, wide, grow_lem (lower lit), raised, long)
                (ap done (put_length-gap gap length-gap (ltb→lt _ _ long)))
          | inr short ↦
              let narrow : ltb (length body) 0x100 ≡ true = ground arith in
              rw (at, marked, size, room, left, narrow, short)
                (ap done (put_length-short (lower lit) (ltb→le _ _ short)))
        ]

module _ (out : List ℕ) (lit : ℕ) (body : List ℕ) (stack : List Mark)
    (upper_lit : IsUpper lit) where
  letter : ltb lit b'A' || ltb b'Z' lit ≡ false
  letter = ground arith

  close_tlv-at :
      (b : ℕ) (tail : List ℕ)
      → upper b ≡ lit
      → 0 < length tail
      → close_tlv (out ++ (b ∷ tail)) lit (new_mark (length out) b ∷ stack)
        ≡ close_at (out ++ (b ∷ tail)) (length out) stack
  unfolding close_tlv
  close_tlv-at b tail e h =
      let n = length out in
      let fits : ltb (length (out ++ (b ∷ tail))) (n + 2) ≡ false =
        ground (arith, length-append out (b ∷ tail)) in
      let same : lit == lit ≡ true = ground arith in
      rw (fits, get_or-append out (b ∷ tail) n 0 0 (omega arith), e, same)

  -- A record with a capital letter that OpenTLV opens, filled with any body and closed by
  -- CloseTLV, is what WriteTLV writes, and the stack is as before.
  pub close_tlv-open_tlv :
      (open_tlv out lit stack >>= λ (bytes, marks). ok (close_tlv (bytes ++ body) lit marks))
      ≡ ok (record { out = write_tlv out lit body; stack = stack; error = none })
  unfolding open_tlv
  close_tlv-open_tlv =
      rw (letter, append_assoc out (lit ∷ 0 ∷ 0 ∷ 0 ∷ 0 ∷ []) body)
        (ap ok (
          close_tlv-at lit (0 ∷ 0 ∷ 0 ∷ 0 ∷ body) (case_lem lit upper_lit).1 (omega arith)
          ∙ close_at-long out lit body upper_lit stack))

  -- A record with a capital letter that OpenShortTLV opens, filled with a body of any length
  -- and closed by CloseTLV, is what WriteTLV writes, and the stack is as before.
  pub close_tlv-open_short_tlv :
      (open_short_tlv out lit stack >>= λ (bytes, marks). ok (close_tlv (bytes ++ body) lit marks))
      ≡ ok (record { out = write_tlv out lit body; stack = stack; error = none })
  unfolding open_short_tlv
  close_tlv-open_short_tlv =
      let raised : upper (lower lit) ≡ lit =
        rw (case_lem lit upper_lit).0 (case_lem lit upper_lit).2 in
      rw (letter, append_assoc out (lower lit ∷ 0 ∷ []) body)
        (ap ok (
          close_tlv-at (lower lit) (0 ∷ body) raised (omega arith)
          ∙ close_at-short out lit body upper_lit stack))

  -- For a capital letter, CancelTLV takes back what OpenTLV and the body appended, and the
  -- mark.
  cancel_tlv-open_tlv :
      (open_tlv out lit stack >>= λ (bytes, marks). cancel_tlv (bytes ++ body) lit marks)
      ≡ ok (record { out = out; stack = stack; error = none })
  unfolding open_tlv cancel_tlv
  cancel_tlv-open_tlv =
      let ys : List ℕ = lit ∷ 0 ∷ 0 ∷ 0 ∷ 0 ∷ body in
      let same : lit == lit ≡ true = ground arith in
      let fits : leb (length out) (length (out ++ ys)) ≡ true =
        ground (arith, length-append out ys) in
      rw (
        letter,
        append_assoc out (lit ∷ 0 ∷ 0 ∷ 0 ∷ 0 ∷ []) body,
        (case_lem lit upper_lit).1,
        same,
        fits,
        take-append out ys (length out) refl,
      )

pub open_tlv-capital :
    (bytes : List ℕ) (lit : ℕ) (stack : List Mark)
    → IsUpper lit
    → open_tlv bytes lit stack
      ≡ ok (bytes ++ (lit ∷ 0 ∷ 0 ∷ 0 ∷ 0 ∷ []), new_mark (length bytes) lit ∷ stack)
unfolding open_tlv
open_tlv-capital bytes lit stack h = ground (arith, h)
