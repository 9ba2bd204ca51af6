-- ===== src/Jdr/Printer/Fits.antt =====
-- The tokens of the calls for a printed document are of the rules of JDR.go.rl.
use go_rdx.Prelude.{
  ℕ, ◌+◌, ◌<◌, ◌^◌, ◌/◌, ◌%◌, ◌≡◌, refl, arith, Bool, true, false, List, [], ◌∷◌, ◌++◌, IsU64,
  Bool-cases, inl, inr,
}
use go_rdx.Prelude.Int.{ℤ, IsInt64}
use go_rdx.Ident.{RdxId, is_zero, ron_string}
use go_rdx.Element.Docs.{Doc, end, leaf, node, IsWhole}
use go_rdx.Jdr.Actions.Events.{Event, first_start, stamp, no_stamp, first_end, close_plex, root}
use go_rdx.ZipInt.Signed.{unzip_int64-zip}
use go_rdx.ZipInt.Scalar.{unzip_float64-zip}
use go_rdx.Element.RoundTrip.{unzip_id-zip}
use go_rdx.Jdr.Printer.{first_text}
use go_rdx.Jdr.Printer.Calls.{
  Calls, done, call, text, opening, closing, stamp_of, stamp_space, gap, comma_before, calls, Token,
  IsSpelled, document_calls,
}
use go_rdx.Jdr.Printer.Tokens.{
  every, is_digit, is_ron64, is_ws, is_int, is_float, is_stamp, is_first_token, goes_on, at_stamp,
}
use go_rdx.Jdr.Printer.Texts.{is_id128-ron_string, is_string-escaped, at_stamp-first}

-- The text of a call's token is of its rule, and the text behind it does not let the token go on
-- or, where there is no stamp, read one.
abbrev pub Fits : Event → List ℕ → Type 0
Fits (first_start tok lit) after = (is_first_token lit tok ≡ true) × (goes_on after ≡ false)
Fits (stamp tok) after = (is_stamp tok ≡ true) × (goes_on after ≡ false)
Fits no_stamp after = at_stamp after ≡ false
Fits _ after = Unit {0}

-- Every token is of its rule, with white space behind it.
abbrev pub IsTokens : Calls → Type 0
IsTokens done = Unit {0}
IsTokens (call event space more) =
    (every is_ws space ≡ true) × Fits event (space ++ text more) × IsTokens more

module _ (format_float : ℕ → List ℕ) (format_int : ℤ → List ℕ)
    (float_texts : (bits : ℕ)
      → IsU64 bits
      → bits / 2 ^ 52 % 2 ^ 11 < 2047
      → is_float (format_float bits) ≡ true)
    (int_texts : (i : ℤ) → IsInt64 i → is_int (format_int i) ≡ true) where
  -- The text of a FIRST value is of the rule of its type.
  is_first_token-first_text :
      (lit : ℕ) (val : List ℕ)
      → Token lit val
      → is_first_token lit (first_text format_float format_int lit val) ≡ true
  unfolding is_first_token first_text
  is_first_token-first_text lit val (Token.float_token bits l h fin v) =
      rw (l, v, unzip_float64-zip bits h) (float_texts bits h fin)
  is_first_token-first_text lit val (Token.integer_token i l h v) =
      rw (l, v, (unzip_int64-zip i h).0) (int_texts i h)
  is_first_token-first_text lit val (Token.reference_token id l h k ref v) =
      rw (l, v, unzip_id-zip id (omega (arith, h), omega (arith, k))) ref
  is_first_token-first_text lit val (Token.string_token l ascii) =
      rw l (is_string-escaped val ascii)
  is_first_token-first_text lit val (Token.term_token l term) = rw l term

  -- The text neither lets a token go on nor reads a stamp.
  abbrev pub Stops : List ℕ → Type 0
  Stops t = (goes_on t ≡ false) × (at_stamp t ≡ false)

  opening-Stops : (lit : ℕ) (t : List ℕ) → Stops (opening lit ∷ t)
  unfolding goes_on at_stamp is_ws is_ron64 is_digit
  opening-Stops lit t = (ground arith, ground arith)

  closing-Stops : (lit : ℕ) (t : List ℕ) → Stops (closing lit ∷ t)
  unfolding goes_on at_stamp is_ws is_ron64 is_digit
  closing-Stops lit t = (ground arith, ground arith)

  comma-Stops : (t : List ℕ) → Stops (b',' ∷ t)
  unfolding goes_on at_stamp is_ws is_ron64 is_digit
  comma-Stops t = (refl, refl)

  space-Stops : (t : List ℕ) → at_stamp t ≡ false → Stops (32 ∷ t)
  unfolding goes_on at_stamp is_ws is_ron64 is_digit
  space-Stops t h = (refl, h)

  at_stamp-calls :
      (top : Bool) (d : Doc) (more : Calls)
      → IsWhole d
      → (depth : ℕ) → IsSpelled depth d
      → at_stamp (text more) ≡ false
      → at_stamp (text (calls format_float format_int top d more)) ≡ false
  at_stamp-calls top end more w depth p h = h
  at_stamp-calls top (leaf lit id val rest) more w depth (token, short, p) h =
      at_stamp-first lit _ _ (is_first_token-first_text lit val token)
  at_stamp-calls top (node lit id inside rest) more w depth p h = (opening-Stops lit _).1

  -- Behind an element stand a space, a comma or what follows the document.
  behind-Stops :
      (top : Bool) (d : Doc) (more : Calls) (depth : ℕ)
      → IsWhole d
      → IsSpelled depth d
      → Stops (text more)
      → Stops (gap top d ++ text (comma_before top d (calls format_float format_int top d more)))
  behind-Stops top end more depth w p h = h
  behind-Stops true (leaf lit id val rest) more depth w p h =
      space-Stops _ (at_stamp-calls true (leaf lit id val rest) more w depth p h.1)
  behind-Stops false (leaf lit id val rest) more depth w p h = comma-Stops _
  behind-Stops true (node lit id inside rest) more depth w p h =
      space-Stops _ (at_stamp-calls true (node lit id inside rest) more w depth p h.1)
  behind-Stops false (node lit id inside rest) more depth w p h = comma-Stops _

  gap-ws : (top : Bool) (d : Doc) → every is_ws (gap top d) ≡ true
  unfolding every is_ws
  gap-ws top end = refl
  gap-ws true (leaf lit id val rest) = refl
  gap-ws false (leaf lit id val rest) = refl
  gap-ws true (node lit id inside rest) = refl
  gap-ws false (node lit id inside rest) = refl

  comma-IsTokens :
      (top : Bool) (d : Doc) (more : Calls) → IsTokens more → IsTokens (comma_before top d more)
  unfolding every
  comma-IsTokens top end more t = t
  comma-IsTokens true (leaf lit id val rest) more t = t
  comma-IsTokens false (leaf lit id val rest) more t = (refl, tt, t)
  comma-IsTokens true (node lit id inside rest) more t = t
  comma-IsTokens false (node lit id inside rest) more t = (refl, tt, t)

  is_stamp-ron_string : (id : RdxId) → is_stamp (b'@' ∷ ron_string id) ≡ true
  unfolding is_stamp
  is_stamp-ron_string id = is_id128-ron_string id

  -- The stamp behind a FIRST token.
  named-IsTokens :
      (id : RdxId) (more : Calls)
      → Stops (text more)
      → IsTokens more
      → IsTokens (call (stamp_of id) [] more)
        × (goes_on (text (call (stamp_of id) [] more)) ≡ false)
  unfolding every goes_on is_ron64 is_digit
  named-IsTokens id more (ends, plain) t = elim (Bool-cases (is_zero id)) [
    | inl z ↦ rw z ((refl, plain, t), ends)
    | inr z ↦ rw z ((refl, (is_stamp-ron_string id, ends), t), refl)
  ]

  -- The stamp behind an opening bracket.
  opened-IsTokens :
      (id : RdxId) (more : Calls)
      → at_stamp (text more) ≡ false
      → IsTokens more
      → IsTokens (call (stamp_of id) (stamp_space id) more)
  unfolding every is_ws goes_on is_ron64 is_digit
  opened-IsTokens id more plain t = elim (Bool-cases (is_zero id)) [
    | inl z ↦ rw z (refl, plain, t)
    | inr z ↦ rw z (refl, (is_stamp-ron_string id, refl), t)
  ]

  pub calls-IsTokens :
      (top : Bool) (d : Doc) (more : Calls) (depth : ℕ)
      → IsWhole d
      → IsSpelled depth d
      → Stops (text more)
      → IsTokens more
      → IsTokens (calls format_float format_int top d more)
  unfolding every
  calls-IsTokens top end more depth w p stops t = t
  calls-IsTokens top (leaf lit id val rest) more depth w p stops t =
      let (f, i, fits, w') = w in
      let (token, short, p') = p in
      let behind = calls-IsTokens top rest more depth w' p' stops t in
      let (named, ends) =
        named-IsTokens id
          (call first_end (gap top rest)
            (comma_before top rest (calls format_float format_int top rest more)))
          (behind-Stops top rest more depth w' p' stops)
          (gap-ws top rest, tt, comma-IsTokens top rest _ behind) in
      (refl, (is_first_token-first_text lit val token, ends), named)
  calls-IsTokens top (node lit id inside rest) more depth w p stops t =
      let (f, i, fits, v, w') = w in
      let (bracketed, shallow, short, q, p') = p in
      let behind = calls-IsTokens top rest more depth w' p' stops t in
      let closed =
        call (close_plex lit) (gap top rest)
          (comma_before top rest (calls format_float format_int top rest more)) in
      let close : IsTokens closed = (gap-ws top rest, tt, comma-IsTokens top rest _ behind) in
      let close_stops : Stops (text closed) = closing-Stops lit _ in
      (
        refl,
        tt,
        opened-IsTokens id _ (at_stamp-calls false inside closed v (depth + 1) q close_stops.1)
            (calls-IsTokens false inside closed (depth + 1) v q close_stops close),
      )

  pub document_calls-IsTokens :
      (d : Doc) → IsWhole d → IsSpelled 0 d → IsTokens (document_calls format_float format_int d)
  unfolding every goes_on at_stamp
  document_calls-IsTokens d w p =
      calls-IsTokens true d (call root [] done) 0 w p (refl, refl) (refl, tt, tt)
