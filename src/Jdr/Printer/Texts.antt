-- ===== src/Jdr/Printer/Texts.antt =====
-- The texts of identifiers and strings are of the rules of JDR.go.rl, and no FIRST token starts a
-- stamp.
use go_rdx.Prelude.{
  ℕ, ◌<◌, ◌^◌, ◌/◌, ◌%◌, ◌≡◌, refl, ap, sym, ◌∙◌, arith, Bool, true, false, ltb, ◌==◌, List, [],
  ◌∷◌, ◌++◌, append_assoc, append-nil, dec_lt, Bool-cases, inl, inr, holds_under, holds_under_lem,
  bit_and,
}
use go_rdx.Prelude.Order.{lt_wf}
use mathlib.Core.WellFounded.{Acc}
use go_rdx.Ident.{RdxId, dash, string_loop, digit_shrinks, ron64_string, ron_string}
use go_rdx.Ident.Digits.{ron64}
use go_rdx.Ident.Numbers.{string_loop_more, string_loop_last, low_digit}
use go_rdx.Jdr.{escape, escaped, append_escaped}
use go_rdx.Jdr.Printer.Tokens.{
  quote, every, is_digit, is_ron64, is_ws, is_empty, is_natural, is_int, after_natural, after_int,
  is_rest, is_number, is_float, is_term, id128_from, is_id128, is_ref, is_quoted, is_string,
  is_first_token, at_stamp,
}

digits_table : holds_under (λ d. is_ron64 (ron64 d)) 64 ≡ true
unfolding holds_under ron64 is_ron64
digits_table = refl

is_ron64-ron64 : (d : ℕ) → d < 64 → is_ron64 (ron64 d) ≡ true
is_ron64-ron64 d h = holds_under_lem (λ d. is_ron64 (ron64 d)) 64 d h digits_table

every-string_loop :
    (u : ℕ) (w : Acc ◌<◌ u) (ret : List ℕ)
    → every is_ron64 ret ≡ true
    → every is_ron64 (string_loop u w ret) ≡ true
unfolding every
every-string_loop u (Acc.intro _ smaller) ret h =
    let more : every is_ron64 (ron64 (bit_and u 63) ∷ ret) ≡ true =
      rw (low_digit u, is_ron64-ron64 (u % 64) (omega arith), h) refl in
    elim (dec_lt 0 (u / 2 ^ 6)) [
      | yes p ↦
          rw (string_loop_more u smaller ret p)
            (every-string_loop (u / 2 ^ 6) (smaller (u / 2 ^ 6) (digit_shrinks u p)) _ more)
      | no p ↦ rw (string_loop_last u smaller ret p) more
    ]

filled-string_loop : (u : ℕ) (w : Acc ◌<◌ u) (ret : List ℕ) → is_empty (string_loop u w ret) ≡ false
unfolding is_empty
filled-string_loop u (Acc.intro _ smaller) ret = elim (dec_lt 0 (u / 2 ^ 6)) [
  | yes p ↦
      rw (string_loop_more u smaller ret p)
        (filled-string_loop (u / 2 ^ 6) (smaller (u / 2 ^ 6) (digit_shrinks u p)) _)
  | no p ↦ rw (string_loop_last u smaller ret p) refl
]

id128_from-digit :
    (seen dashed : Bool) (c : ℕ) (cs : List ℕ)
    → is_ron64 c ≡ true
    → id128_from seen dashed (c ∷ cs) ≡ id128_from true dashed cs
unfolding id128_from
id128_from-digit seen true c cs h = rw h refl
id128_from-digit seen false c cs h = rw h refl

id128_from-digits :
    (seen dashed : Bool) (digits after : List ℕ)
    → every is_ron64 digits ≡ true
    → is_empty digits ≡ false
    → id128_from seen dashed (digits ++ after) ≡ id128_from true dashed after
unfolding every is_empty
id128_from-digits seen dashed [] after h k = absurd (ground arith)
id128_from-digits seen dashed (c ∷ []) after h k =
    id128_from-digit seen dashed c after (ground arith)
id128_from-digits seen dashed (c ∷ d ∷ ds) after h k =
    id128_from-digit seen dashed c (d ∷ (ds ++ after)) (ground arith)
    ∙ id128_from-digits true dashed (d ∷ ds) after (ground arith) refl

ron64_string-digits :
    (seen dashed : Bool) (u : ℕ) (after : List ℕ)
    → id128_from seen dashed (ron64_string u ++ after) ≡ id128_from true dashed after
unfolding ron64_string every
ron64_string-digits seen dashed u after =
    id128_from-digits seen dashed (string_loop u (lt_wf.apply u) []) after
      (every-string_loop u (lt_wf.apply u) [] refl) (filled-string_loop u (lt_wf.apply u) [])

-- The text of an identifier is a JDRid128.
pub is_id128-ron_string : (id : RdxId) → is_id128 (ron_string id) ≡ true
unfolding is_id128 ron_string id128_from is_ron64 is_digit
is_id128-ron_string id = elim (Bool-cases (id.src == 0)) [
  | inl z ↦ rw z (
      ap (id128_from false false) (sym (append-nil (ron64_string id.seq)))
      ∙ ron64_string-digits false false id.seq [])
  | inr z ↦ rw z (
      ron64_string-digits false false id.src (dash ∷ ron64_string id.seq)
      ∙ ap (id128_from false true) (sym (append-nil (ron64_string id.seq)))
      ∙ ron64_string-digits false true id.seq [])
]

is_quoted-escape :
    (c : ℕ) (after : List ℕ)
    → ltb c 128 ≡ true
    → is_quoted false (escape c ++ after) ≡ is_quoted false after
unfolding is_quoted escape is_empty
is_quoted-escape c after h = ground (arith, h)

is_quoted-escaped :
    (val : List ℕ)
    → every (λ c. ltb c 128) val ≡ true
    → is_quoted false (escaped val ++ (34 ∷ [])) ≡ true
unfolding escaped every is_quoted is_empty
is_quoted-escaped [] h = refl
is_quoted-escaped (c ∷ cs) h = rw (append_assoc (escape c) (escaped cs) (34 ∷ [])) (
    is_quoted-escape c (escaped cs ++ (34 ∷ [])) (ground arith)
    ∙ is_quoted-escaped cs (ground arith))

pub is_string-escaped :
    (val : List ℕ)
    → every (λ c. ltb c 128) val ≡ true
    → is_string (append_escaped (34 ∷ []) val ++ (34 ∷ [])) ≡ true
unfolding is_string append_escaped
is_string-escaped val h = is_quoted-escaped val h

-- A byte that no FIRST token starts with.
abbrev IsForeign : ℕ → Type 0
IsForeign c = (is_ron64 c ≡ false) × ((c == dash) ≡ false) × ((c == quote) ≡ false)

foreign-digit : (c : ℕ) → IsForeign c → is_digit c ≡ false
unfolding is_ron64 is_digit
foreign-digit c h = ground (arith, h)

foreign-zero : (c : ℕ) → is_digit c ≡ false → (c == b'0') ≡ false
unfolding is_digit
foreign-zero c h = ground (arith, h)

foreign-int : (c : ℕ) (cs : List ℕ) → IsForeign c → is_int (c ∷ cs) ≡ false
unfolding is_int is_natural
foreign-int c cs h =
    let (letter, no_dash, no_quote) = h in
    let d = foreign-digit c h in rw (no_dash, foreign-zero c d, d) refl

foreign-float : (c : ℕ) (cs : List ℕ) → IsForeign c → is_float (c ∷ cs) ≡ false
unfolding is_float is_number is_rest after_int after_natural is_digit
foreign-float c cs h =
    let (letter, no_dash, no_quote) = h in
    let d = foreign-digit c h in rw (no_dash, foreign-zero c d, d) refl

foreign-term : (c : ℕ) (cs : List ℕ) → IsForeign c → is_term (c ∷ cs) ≡ false
unfolding is_term is_empty every
foreign-term c cs (letter, no_dash, no_quote) = rw letter refl

foreign-id128 : (c : ℕ) (cs : List ℕ) → IsForeign c → is_id128 (c ∷ cs) ≡ false
unfolding is_id128 id128_from
foreign-id128 c cs (letter, no_dash, no_quote) = rw (letter, no_dash) refl

foreign-ref : (c : ℕ) (cs : List ℕ) → IsForeign c → is_ref (c ∷ cs) ≡ false
unfolding is_ref
foreign-ref c cs h = rw (foreign-id128 c cs h) refl

foreign-string : (c : ℕ) (cs : List ℕ) → IsForeign c → is_string (c ∷ cs) ≡ false
unfolding is_string
foreign-string c cs (letter, no_dash, no_quote) = rw no_quote refl

foreign-first : (lit c : ℕ) (cs : List ℕ) → IsForeign c → is_first_token lit (c ∷ cs) ≡ false
unfolding is_first_token
foreign-first lit c cs h =
    rw
      (
        foreign-ref c cs h,
        foreign-string c cs h,
        foreign-term c cs h,
        foreign-float c cs h,
        foreign-int c cs h,
      )
      (ground arith)

at_stamp-IsForeign : (c : ℕ) (t : List ℕ) → at_stamp (c ∷ t) ≡ true → IsForeign c
unfolding at_stamp is_ws is_ron64 is_digit
at_stamp-IsForeign c t h = ground (arith, h)

no_token : (lit : ℕ) → is_first_token lit [] ≡ false
unfolding is_first_token is_float is_number is_rest after_int is_int is_ref is_id128 id128_from
    is_string is_term is_empty
no_token lit = ground arith

-- A FIRST token does not start with a stamp, also behind white space.
pub at_stamp-first :
    (lit : ℕ) (tok after : List ℕ) → is_first_token lit tok ≡ true → at_stamp (tok ++ after) ≡ false
at_stamp-first lit [] after h = absurd (ground (arith, h, no_token lit))
at_stamp-first lit (c ∷ cs) after h = elim (Bool-cases (at_stamp (c ∷ (cs ++ after)))) [
  | inl s ↦ absurd (ground (arith, h, foreign-first lit c cs (at_stamp-IsForeign c _ s)))
  | inr s ↦ s
]
