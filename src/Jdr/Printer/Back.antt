-- ===== src/Jdr/Printer/Back.antt =====
-- The parser reads a printed document back.
use go_rdx.Prelude.{
  ℕ, ◌+◌, ◌-◌, ◌<◌, ◌≤◌, ◌^◌, ◌/◌, ◌%◌, ◌≡◌, refl, ap, sym, ◌∙◌, arith, Bool, true, false, ◌||◌,
  leb, ◌&&◌, ◌==◌, List, [], ◌∷◌, ◌++◌, length, append-nil, length-append, none, ok, IsU64, slice,
  take-append,
}
use go_rdx.Prelude.Int.{ℤ, IsInt64}
use go_rdx.ZipInt.Signed.{unzip_int64-zip}
use go_rdx.ZipInt.Scalar.{unzip_float64-zip}
use go_rdx.Ident.{RdxId, zip_id}
use go_rdx.Ident.Texts.{new_id-ron_string}
use go_rdx.Tlv.{Mark, write_tlkv}
use go_rdx.Iter.{is_plex}
use go_rdx.Element.{write_rdx}
use go_rdx.Element.Nesting.{open_element}
use go_rdx.Element.RoundTrip.{unzip_id-zip, length-zip_id}
use go_rdx.Element.Docs.{
  Doc, end, leaf, node, print, IsWhole, first_letter, plex_letter, write_rdx-append,
}
use go_rdx.Jdr.{append_escaped, escaped}
use go_rdx.Jdr.Escapes.{append_unescaped-append_escaped}
use go_rdx.Jdr.Actions.{JdrState, inline_tuple, first_value, finite}
use go_rdx.Jdr.Actions.Events.{Event, run, close_plex}
use go_rdx.Jdr.Actions.Written.{stamped_mark}
use go_rdx.Jdr.Printer.{first_text}
use go_rdx.Jdr.Printer.Calls.{
  Token, float_token, integer_token, reference_token, string_token, term_token, IsSpelled, Calls,
  call, events, calls, comma_before, gap,
}
use go_rdx.Jdr.Printer.Parsed.{run_first, run_open, run_close, run_comma}

finite-same : (bits : ℕ) → bits / 2 ^ 52 % 2 ^ 11 < 2047 → finite bits ≡ bits
finite-same bits h = ground arith

-- The text between the quotes.
between_quotes :
    (val : List ℕ)
    → slice (34 ∷ (val ++ (34 ∷ []))) 1 (length (34 ∷ (val ++ (34 ∷ []))) - 1) ≡ ok val
between_quotes val =
    let long = length-append val (34 ∷ []) in
    let n = length (34 ∷ (val ++ (34 ∷ []))) - 1 in
    let fits : leb 1 n && leb n (length (34 ∷ (val ++ (34 ∷ [])))) ≡ true = ground (arith, long) in
    rw (fits, take-append val (34 ∷ []) (n - 1) (omega (arith, long))) refl

unquoted :
    (val : List ℕ)
    → slice
        (append_escaped (34 ∷ []) val ++ (34 ∷ []))
        1
        (length (append_escaped (34 ∷ []) val ++ (34 ∷ [])) - 1)
      ≡ ok (append_escaped [] val)
unfolding append_escaped
unquoted val = between_quotes (escaped val)

module _ (format_float : ℕ → List ℕ) (format_int : ℤ → List ℕ) (parse_float : List ℕ → ℕ)
    (parse_int : List ℕ → ℤ)
    (floats : (bits : ℕ)
      → IsU64 bits
      → bits / 2 ^ 52 % 2 ^ 11 < 2047
      → parse_float (format_float bits) ≡ bits)
    (ints : (i : ℤ) → IsInt64 i → parse_int (format_int i) ≡ i) where
  first_value-first_text :
      (lit : ℕ) (val : List ℕ)
      → Token lit val
      → first_value parse_float parse_int lit (first_text format_float format_int lit val)
        ≡ ok (val, none)
  unfolding first_value first_text
  first_value-first_text lit val (float_token bits l h fin v) =
      rw (l, v, unzip_float64-zip bits h, floats bits h fin) (rw (finite-same bits fin) refl)
  first_value-first_text lit val (integer_token i l h v) =
      rw (l, v, (unzip_int64-zip i h).0, ints i h) refl
  first_value-first_text lit val (reference_token id l h k ref v) =
      rw (l, v, unzip_id-zip id (omega (arith, h), omega (arith, k)), new_id-ron_string id h k) refl
  first_value-first_text lit val (string_token l ascii) =
      rw (l, unquoted val) (ap (λ t. ok (t, none)) (append_unescaped-append_escaped [] val))
  first_value-first_text lit val (term_token l term) = rw l refl

  -- What `Pre` is behind a document.
  abbrev Settled : Doc → ℕ → ℕ → Type 0
  Settled end pre pre' = pre' ≡ pre
  Settled (leaf lit id val rest) pre pre' = (pre' == b',') ≡ false
  Settled (node lit id inside rest) pre pre' = (pre' == b',') ≡ false

  settled :
      (d : Doc) (pre pre' : ℕ) → (pre == b',') ≡ false → Settled d pre pre' → (pre' == b',') ≡ false
  settled end pre pre' h e = rw e h
  settled (leaf lit id val rest) pre pre' h e = e
  settled (node lit id inside rest) pre pre' h e = e

  restack :
      (s : JdrState) (m : Mark) (ms : List Mark) (more : List Event)
      → s.stack ≡ m ∷ ms
      → run parse_float parse_int more s
        ≡ run parse_float parse_int more (record s { stack = m ∷ ms })
  restack s m ms more e =
      ap (λ stack. run parse_float parse_int more (record s { stack = stack })) e

  -- The line behind a comma, if one is due.
  step_comma :
      (top : Bool) (rest : Doc) (s : JdrState) (m : Mark) (ms : List Mark) (more : Calls)
      → s.stack ≡ m ∷ ms
      → (m.lit == inline_tuple) ≡ false
      → (m.pre == 0 || (m.pre == b',' || m.pre == b';')) ≡ false
      → (m' : Mark) × (m'.start ≡ m.start)
        × (m'.lit ≡ m.lit)
        × ((pre : ℕ) → Settled rest m'.pre pre → (pre == b',') ≡ false)
        × (run parse_float parse_int (events (comma_before top rest more)) s
            ≡ run parse_float parse_int (events more) (record s { stack = m' ∷ ms }))
  step_comma top end s m ms more e line pre = (
    m,
    refl,
    refl,
    (λ p h. settled end m.pre p (ground (arith, pre)) h),
    restack s m ms (events more) e,
  )
  step_comma true (leaf lit id val rest) s m ms more e line pre =
      (m, refl, refl, (λ p h. h), restack s m ms (events more) e)
  step_comma false (leaf lit id val rest) s m ms more e line pre =
      (_, refl, refl, (λ p h. h), run_comma parse_float parse_int s m ms (events more) e line pre)
  step_comma true (node lit id inside rest) s m ms more e line pre =
      (m, refl, refl, (λ p h. h), restack s m ms (events more) e)
  step_comma false (node lit id inside rest) s m ms more e line pre =
      (_, refl, refl, (λ p h. h), run_comma parse_float parse_int s m ms (events more) e line pre)

  -- The run on the calls for `d` writes the document and ends in the same line.
  abbrev Runs : Bool → Doc → JdrState → Mark → List Mark → Calls → Type 0
  Runs top d s m ms more =
      (m' : Mark) × (val' : List ℕ) × (m'.start ≡ m.start)
      × (m'.lit ≡ m.lit)
      × Settled d m.pre m'.pre
      × (run parse_float parse_int (events (calls format_float format_int top d more)) s
          ≡ run parse_float parse_int (events more)
              (record s { rdx = s.rdx ++ print d; stack = m' ∷ ms; val = val' }))

  -- From the end of an element to the end of the document.
  run_rest :
      (top : Bool) (rest : Doc) (lit : ℕ) (id : RdxId) (val val1 : List ℕ) (s : JdrState)
      (m m1 : Mark) (ms : List Mark) (here more : Calls)
      → m1.start ≡ m.start
      → m1.lit ≡ m.lit
      → (m.lit == inline_tuple) ≡ false
      → (m1.pre == 0 || (m1.pre == b',' || m1.pre == b';')) ≡ false
      → run parse_float parse_int (events here) s
        ≡ run parse_float parse_int
            (events (comma_before top rest (calls format_float format_int top rest more)))
            (record s { rdx = write_tlkv s.rdx lit (zip_id id) val; stack = m1 ∷ ms; val = val1 })
      → ((t : JdrState) (o : Mark)
          → t.stack ≡ o ∷ ms
          → (o.lit == inline_tuple) ≡ false
          → Runs top rest t o ms more)
      → (m' : Mark) × (val' : List ℕ) × (m'.start ≡ m.start)
        × (m'.lit ≡ m.lit)
        × ((m'.pre == b',') ≡ false)
        × (run parse_float parse_int (events here) s
            ≡ run parse_float parse_int (events more) (record s {
              rdx = s.rdx ++ (write_rdx [] lit id val ++ print rest);
              stack = m' ∷ ms;
              val = val';
            }))
  run_rest top rest lit id val val1 s m m1 ms here more at same line pre first next =
      let out = write_tlkv s.rdx lit (zip_id id) val in
      let s1 : JdrState = record s { rdx = out; stack = m1 ∷ ms; val = val1 } in
      let (m2, start, same', then, comma) =
        step_comma top rest s1 m1 ms (calls format_float format_int top rest more) refl
          (rw same line) pre in
      let (m3, val3, start', same'', settles, runs) =
        next (record s1 { stack = m2 ∷ ms }) m2 refl (rw (same', same) line) in
      (
        m3,
        val3,
        start' ∙ start ∙ at,
        same'' ∙ same' ∙ same,
        then m3.pre settles,
        first
            ∙ comma
            ∙ runs
            ∙ ap
                (λ b.
                  run parse_float parse_int (events more)
                    (record s { rdx = b; stack = m3 ∷ ms; val = val3 }))
                (write_rdx-append s.rdx lit id val (print rest)),
      )

  plex_pre : (lit : ℕ) → is_plex lit ≡ true → (lit == 0 || (lit == b',' || lit == b';')) ≡ false
  unfolding is_plex
  plex_pre lit p = ground (arith, p)

  plex_line : (lit : ℕ) → is_plex lit ≡ true → (lit == inline_tuple) ≡ false
  unfolding is_plex
  plex_line lit p = ground (arith, p)

  pub run_calls :
      (top : Bool) (depth : ℕ) (d : Doc)
      → IsWhole d
      → IsSpelled depth d
      → (s : JdrState) (m : Mark) (ms : List Mark) (more : Calls) → s.stack ≡ m ∷ ms
      → (m.lit == inline_tuple) ≡ false
      → Runs top d s m ms more
  unfolding print
  run_calls top depth end w p s m ms more e line = (
    m,
    s.val,
    refl,
    refl,
    refl,
    restack s m ms (events more) e
        ∙ ap (λ b. run parse_float parse_int (events more) (record s { rdx = b; stack = m ∷ ms }))
            (sym (append-nil s.rdx)),
  )
  run_calls top depth (leaf lit id val rest) w p s m ms more e line =
      let (f, i, fits, w') = w in
      let (token, short, p') = p in
      let tok = first_text format_float format_int lit val in
      let m1 : Mark = record m { last_element = length s.rdx; pre = b'1' } in
      let tail = comma_before top rest (calls format_float format_int top rest more) in
      run_rest top rest lit id val tok s m m1 ms
        (calls format_float format_int top (leaf lit id val rest) more) more refl refl line refl
        (run_first parse_float parse_int s m ms tok lit id val (events tail) e line
          (first_letter lit f) short (first_value-first_text lit val token))
        (λ t o e' line'. run_calls top depth rest w' p' t o ms more e' line')
  run_calls top depth (node lit id inside rest) w p s m ms more e line =
      let (f, i, fits, v, w') = w in
      let (bracketed, shallow, short, q, p') = p in
      let key = zip_id id in
      let few : length key ≤ 16 = length-zip_id id i in
      let o : Mark = record m { last_element = length s.rdx } in
      let here = open_element s.rdx lit key in
      let inner = stamped_mark s.rdx lit (length here) in
      let s1 : JdrState = record s { rdx = here; stack = inner ∷ o ∷ ms } in
      let tail = comma_before top rest (calls format_float format_int top rest more) in
      let close = call (close_plex lit) (gap top rest) tail in
      let opens =
        run_open parse_float parse_int s m ms lit id
          (events (calls format_float format_int false inside close)) e line (plex_letter lit f)
          short in
      let (m2, val2, start, same, settles, runs) =
        run_calls false (depth + 1) inside v q s1 inner (o ∷ ms) close refl (plex_line lit f) in
      let closes =
        run_close parse_float parse_int
          (record s1 { rdx = here ++ print inside; stack = m2 ∷ o ∷ ms; val = val2 }) m2 o ms s.rdx
          lit key (print inside) (events tail) refl refl start same
          (settled inside 0 m2.pre refl settles) f (omega (arith, few)) in
      run_rest top rest lit id (print inside) val2 s m (record o { pre = lit }) ms
        (calls format_float format_int top (node lit id inside rest) more) more refl refl line
        (plex_pre lit f) (opens ∙ runs ∙ closes)
        (λ t o' e' line'. run_calls top depth rest w' p' t o' ms more e' line')
