-- ===== src/Jdr/Printer/RoundTrip.antt =====
-- WriteAllJDR of a document, and the parser on what it writes.
use go_rdx.Prelude.{
  ℕ, zero, suc, ◌+◌, ◌<◌, ◌≤◌, ◌^◌, ◌/◌, ◌%◌, ◌≡◌, refl, ap, sym, ◌∙◌, arith, Bool, true, false,
  not, ◌||◌, ◌==◌, List, [], ◌∷◌, ◌++◌, length, append_assoc, append-nil, none, Outcome, ok, IsU64,
}
use go_rdx.Prelude.Int.{ℤ, IsInt64}
use go_rdx.Tlv.{Mark, new_mark, top_lit}
use go_rdx.Element.Docs.{Doc, end, leaf, node, print, size, IsWhole}
use go_rdx.Jdr.Actions.{JdrState, on_root, top_mark}
use go_rdx.Jdr.Actions.Events.{
  root, first_start, first_end, open_plex, close_plex, act, run, parse_jdr, parse_start, verdict,
}
use go_rdx.Jdr.Printer.{Printed, first_text, write_jdr, write_all_jdr}
use go_rdx.Jdr.Printer.Calls.{
  Calls, done, call, text, events, calls, document_calls, gap, comma_before, stamp_of, stamp_space,
  opening, closing, count, IsSpelled,
}
use go_rdx.Jdr.Printer.FirstTuples.{full}
use go_rdx.Jdr.Printer.Spelling.{
  glue, glue-text, loop, loop-end, loop-next, headed, headed-text, first-text, write_jdr-first,
  write_jdr-plex,
}
use go_rdx.Jdr.Actions.Lexed.{Lexed, between, whole, stops}
use go_rdx.Jdr.Printer.Grammar.{calls-Lexed}
use go_rdx.Jdr.Printer.Back.{run_calls}
use go_rdx.Jdr.Printer.Tokens.{is_int, is_float}
use go_rdx.Jdr.Printer.Fits.{IsTokens, document_calls-IsTokens}

count_size : (d : Doc) → count d ≤ size d
count_size end = omega arith
count_size (leaf lit id val rest) = omega (arith, count_size rest)
count_size (node lit id inside rest) = omega (arith, count_size rest)

module _ (format_float : ℕ → List ℕ) (format_int : ℤ → List ℕ) where
  -- The loop writes the texts of the calls.
  abbrev Writes :
      Bool
      → (List ℕ → List ℕ → ℕ → Outcome Printed)
      → ℕ
      → List ℕ
      → List ℕ
      → ℕ
      → (Calls → Calls)
      → Type 0
  Writes top write n jdr rdx style spelled =
      (out : List ℕ) × (loop top write n jdr rdx style ≡ ok (out, none))
      × ((more : Calls) → out ++ text more ≡ jdr ++ text (spelled more))

  write_rest :
      (top : Bool) (write : List ℕ → List ℕ → ℕ → Outcome Printed) (n style : ℕ)
      (jdr rdx out : List ℕ) (rest : Doc) (element : List ℕ → Calls → Calls)
      → style < 256
      → (length rdx == 0) ≡ false
      → write jdr rdx style ≡ ok (record { text = out; rest = print rest; error = none })
      → ((space : List ℕ) (more : Calls)
          → out ++ (space ++ text more) ≡ jdr ++ text (element space more))
      → Writes top write n
          (glue top rest out)
          (print rest)
          style
          (calls format_float format_int top rest)
      → Writes top write (suc n) jdr rdx style (λ more.
        element
          (gap top rest)
          (comma_before top rest (calls format_float format_int top rest more)))
  write_rest top write n style jdr rdx out rest element small some_bytes wrote same
        (out', runs, spells) =
      (
        out',
        loop-next write n style small top jdr rdx out rest some_bytes wrote ∙ runs,
        λ more.
            let after = calls format_float format_int top rest more in
            spells more
            ∙ glue-text top rest out after
            ∙ same (gap top rest) (comma_before top rest after),
      )

  writes :
      (top : Bool) (d : Doc) (depth n fuel style : ℕ) (jdr : List ℕ)
      → IsWhole d
      → IsSpelled style d
      → style < 256
      → size d ≤ depth
      → size d < n
      → size d < fuel
      → Writes top
          (write_jdr format_float format_int depth fuel)
          n
          jdr
          (print d)
          style
          (calls format_float format_int top d)
  unfolding print
  writes top d depth zero fuel style jdr w p small a b c = absurd (omega arith)
  writes top end depth (suc n) fuel style jdr w p small a b c = (
    jdr,
    loop-end (write_jdr format_float format_int depth fuel) n style small top jdr,
    λ more. refl,
  )
  writes top (leaf lit id val rest) zero (suc n) fuel style jdr w p small a b c =
      absurd (omega arith)
  writes top (leaf lit id val rest) (suc depth) (suc n) fuel style jdr w p small a b c =
      let (f, i, fits, w') = w in
      let (token, short, p') = p in
      let tok = first_text format_float format_int lit val in
      write_rest top (write_jdr format_float format_int (suc depth) fuel) n style jdr _ _ rest
        (λ space more.
          call (first_start tok lit) [] (call (stamp_of id) [] (call first_end space more)))
        small (full lit id val (print rest))
        (write_jdr-first format_float format_int depth fuel jdr lit id val (print rest) style f i
          fits)
        (first-text format_float format_int lit id val jdr)
        (writes top rest (suc depth) n fuel style _ w' p' small (omega arith) (omega arith)
          (omega arith))
  writes top (node lit id inside rest) zero (suc n) fuel style jdr w p small a b c =
      absurd (omega arith)
  writes top (node lit id inside rest) (suc depth) (suc n) fuel style jdr w p small a b c =
      let (f, i, fits, v, w') = w in
      let (bracketed, shallow, short, q, p') = p in
      let (out, runs, spells) =
        writes false inside depth fuel fuel (style + 1) (headed jdr (opening lit) id) v q shallow
          (omega arith) (omega arith) (omega arith) in
      write_rest top (write_jdr format_float format_int (suc depth) fuel) n style jdr _ _ rest
        (λ space more. call (open_plex lit) [] (
          call (stamp_of id) (stamp_space id)
            (calls format_float format_int false inside (call (close_plex lit) space more))))
        small (full lit id (print inside) (print rest))
        (write_jdr-plex format_float format_int depth fuel jdr lit id inside (print rest) style out
          f i fits v (omega (arith, count_size inside)) bracketed shallow runs)
        (λ space more.
          append_assoc out (closing lit ∷ []) (space ++ text more)
          ∙ spells (call (close_plex lit) space more)
          ∙ headed-text jdr (opening lit) id _)
        (writes top rest (suc depth) n fuel style _ w' p' small (omega arith) (omega arith)
          (omega arith))

module _ (format_float : ℕ → List ℕ) (format_int : ℤ → List ℕ) (parse_float : List ℕ → ℕ)
    (parse_int : List ℕ → ℤ)
    (floats : (bits : ℕ)
      → IsU64 bits
      → bits / 2 ^ 52 % 2 ^ 11 < 2047
      → parse_float (format_float bits) ≡ bits)
    (ints : (i : ℤ) → IsInt64 i → parse_int (format_int i) ≡ i)
    (float_texts : (bits : ℕ)
      → IsU64 bits
      → bits / 2 ^ 52 % 2 ^ 11 < 2047
      → is_float (format_float bits) ≡ true)
    (int_texts : (i : ℤ) → IsInt64 i → is_int (format_int i) ≡ true) where
  -- The end of the document on a line that is the document's.
  at_root :
      (s : JdrState) (m : Mark)
      → s.stack ≡ m ∷ []
      → m.lit ≡ 32
      → run parse_float parse_int (root ∷ []) s ≡ ok (s, none)
  unfolding run act on_root top_mark
  at_root s m e l = rw (e, l) refl

  parse_calls :
      (d : Doc)
      → IsWhole d
      → IsSpelled 0 d
      → parse_jdr parse_float parse_int (events (document_calls format_float format_int d))
        ≡ ok (print d, none)
  unfolding parse_jdr verdict top_lit
  parse_calls d w p =
      let (m, val, start, same, settles, runs) =
        run_calls format_float format_int parse_float parse_int floats ints true 0 d w p parse_start
          (new_mark 0 32) [] (call root [] done) refl refl in
      let last : JdrState = record { rdx = print d; stack = m ∷ []; val = val; line = 0 } in
      let whole_line : (not (length (m ∷ []) == 1) || not (m.lit == 32)) ≡ false =
        ground (arith, same) in
      rw (runs ∙ at_root last m refl same) (rw whole_line refl)

  -- WriteAllJDR with style 0 and the parser, where strconv reads back the finite floats and the
  -- int64s that it prints and prints a float as a JDRFloat and an integer as a JDRInt: for a
  -- document whose types fit and whose values are within the limits of Read, of less than 256
  -- levels and without a tuple that is printed inline, with identifiers of halves below 2 ^ 60 and
  -- numbers as ZipFloat64, ZipInt64 and ZipID write them, whose references print as a JDRRef
  -- (with a dash, so that the source is not 0), whose terms are JDRTerms and whose strings are of
  -- ASCII bytes, and with enough fuel, WriteAllJDR returns no error and the texts of the tokens
  -- of a list of calls. The calls come in an order that the grammar allows, each token is of its
  -- rule of JDR.go.rl with white space behind it, and no text behind a token lets it go on; and
  -- ParseJDR on these calls returns the bytes of the document and no error.
  pub parse_jdr-write_all_jdr :
      (d : Doc) (depth fuel : ℕ)
      → IsWhole d
      → IsSpelled 0 d
      → size d ≤ depth
      → size d < fuel
      → (write_all_jdr format_float format_int depth fuel [] (print d) 0
          ≡ ok (text (document_calls format_float format_int d), none))
        × Lexed between (events (document_calls format_float format_int d))
        × IsTokens (document_calls format_float format_int d)
        × (parse_jdr parse_float parse_int (events (document_calls format_float format_int d))
            ≡ ok (print d, none))
  unfolding write_all_jdr
  parse_jdr-write_all_jdr d depth fuel w p a b =
      let (out, runs, spells) =
        writes format_float format_int true d depth fuel fuel 0 [] w p (omega arith) a b b in
      (
        runs ∙ ap (λ t. ok (t, none)) (sym (append-nil out) ∙ spells (call root [] done)),
        calls-Lexed format_float format_int true d (call root [] done) w (whole stops),
        document_calls-IsTokens format_float format_int float_texts int_texts d w p,
        parse_calls d w p,
      )
