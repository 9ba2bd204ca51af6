-- ===== src/Jdr/Actions/Parse.antt =====
-- A run of the parser on the calls of the lexer.
use go_rdx.Prelude.{
  ℕ, ◌+◌, ◌≡◌, refl, arith, false, ◌==◌, List, [], ◌∷◌, length, ◌⊎◌, inl, inr, bad_jdr_nesting,
  Option, none, some, Error, ok, Returns, Returns-bind,
}
use go_rdx.Prelude.Int.{ℤ}
use go_rdx.Tlv.{Mark}
use go_rdx.Element.Docs.{plex_letter}
use go_rdx.Jdr.Actions.{JdrState}
use go_rdx.Jdr.Actions.Events.{
  Event, utf8cp2, utf8cp3, first_start, stamp, no_stamp, first_end, semicolon, open_plex,
  close_plex, comma, colon, root, act, run, parse_start, verdict, parse_jdr,
}
use go_rdx.Jdr.Actions.Rooted.{IsRooted, Keeps, IsRooted-cons}
use go_rdx.Jdr.Actions.Steps.{
  Returns-error, on_root-IsRooted, on_colon-IsRooted, on_comma-IsRooted, on_semicolon-IsRooted,
  on_open_plex-IsRooted, on_close_plex-IsRooted, on_utf8cp2-IsRooted, on_utf8cp3-IsRooted,
}
use go_rdx.Jdr.Actions.Lexed.{
  Phase, between, opened, token, stamped, Lexed, stops, line_end, two_bytes, three_bytes, starts,
  named, unnamed, ends, opens, plex_named, plex_unnamed, closes, has_comma, has_colon,
  has_semicolon, whole,
}
use go_rdx.Jdr.Actions.First.{
  Held, same-Held, mark_all-Held, mark_all-IsRooted, on_stamp-keeps, on_no_stamp-keeps,
  on_first0-Held, on_first-IsRooted,
}

-- What holds of the state where the lexer stands.
Holds : Phase → JdrState → Type 0
Holds between s = IsRooted s.stack
Holds opened s = IsRooted s.stack
Holds (token tok lit) s = Held tok lit s
Holds (stamped tok lit) s = Held tok lit s

-- The line number does not matter.
Holds-line :
    (phase : Phase) (s : JdrState) → Holds phase s → Holds phase (record s { line = s.line + 1 })
unfolding Holds
Holds-line between s h = h
Holds-line opened s h = h
Holds-line (token tok lit) s h = same-Held tok lit s _ h refl refl
Holds-line (stamped tok lit) s h = same-Held tok lit s _ h refl refl

Holds-IsRooted : (phase : Phase) (s : JdrState) → Holds phase s → IsRooted s.stack
unfolding Holds
Holds-IsRooted between s h = h
Holds-IsRooted opened s h = h
Holds-IsRooted (token tok lit) s h = rw h.lines (IsRooted-cons h.top h.outer h.rooted)
Holds-IsRooted (stamped tok lit) s h = rw h.lines (IsRooted-cons h.top h.outer h.rooted)

module _ (parse_float : List ℕ → ℕ) (parse_int : List ℕ → ℤ) where
  -- A call and the rest of the run.
  run-next :
      {Q : JdrState → Type 0} (event : Event) (events : List Event) (s : JdrState)
      → Returns (λ (t, e). Q t) (act parse_float parse_int event s)
      → ((t : JdrState) → Q t → IsRooted t.stack)
      → ((t : JdrState) → Q t → Returns Keeps (run parse_float parse_int events t))
      → Returns Keeps (run parse_float parse_int (event ∷ events) s)
  unfolding run
  run-next event events s this roots next =
      Returns-bind _ _ this
        (λ (t, e) q. Returns-error {Q = Keeps} e (λ e'. (_, refl, roots t q)) (next t q))

  -- The same between elements.
  run-between :
      (event : Event) (events : List Event) (s : JdrState)
      → Returns Keeps (act parse_float parse_int event s)
      → ((t : JdrState) → IsRooted t.stack → Returns Keeps (run parse_float parse_int events t))
      → Returns Keeps (run parse_float parse_int (event ∷ events) s)
  run-between event events s this next = run-next event events s this (λ t r. r) next

  run_lexed :
      (phase : Phase) (events : List Event)
      → Lexed phase events
      → (s : JdrState) → Holds phase s
      → Returns Keeps (run parse_float parse_int events s)
  unfolding run act Holds
  run_lexed phase _ stops s h = (_, refl, Holds-IsRooted phase s h)
  run_lexed phase _ (line_end {events = events} l) s h =
      run_lexed phase events l (record s { line = s.line + 1 }) (Holds-line phase s h)
  run_lexed _ _ (two_bytes {events} tok n l) s h =
      run-between (utf8cp2 tok) events s (on_utf8cp2-IsRooted tok s n h)
        (run_lexed between events l)
  run_lexed _ _ (three_bytes {events} tok n l) s h =
      run-between (utf8cp3 tok) events s (on_utf8cp3-IsRooted tok s n h)
        (run_lexed between events l)
  run_lexed _ _ (starts {events} tok lit f q l) s h =
      run-next (first_start tok lit) events s (on_first0-Held tok lit s f q h)
        (Holds-IsRooted (token tok lit)) (run_lexed (token tok lit) events l)
  run_lexed _ _ (named {events} {tok} {lit} id n l) s h =
      run-next (stamp id) events s
        (on_stamp-keeps (Held tok lit) (mark_all-Held tok lit)
          (λ t bytes p. same-Held tok lit t _ p refl refl) id s n h)
        (Holds-IsRooted (token tok lit)) (run_lexed (stamped tok lit) events l)
  run_lexed _ _ (unnamed {events} {tok} {lit} l) s h =
      run-next no_stamp events s
        (on_no_stamp-keeps (Held tok lit) (mark_all-Held tok lit)
          (λ t bytes p. same-Held tok lit t _ p refl refl) s h)
        (Holds-IsRooted (token tok lit)) (run_lexed (stamped tok lit) events l)
  run_lexed _ _ (ends {events} {tok} {lit} l) s h =
      run-between first_end events s (on_first-IsRooted parse_float parse_int tok lit s h)
        (run_lexed between events l)
  run_lexed _ _ (opens {events} plex p l) s h =
      run-between (open_plex plex) events s (on_open_plex-IsRooted plex s (plex_letter plex p) h)
        (run_lexed opened events l)
  run_lexed _ _ (plex_named {events} id n l) s h =
      run-between (stamp id) events s
        (on_stamp-keeps (λ t. IsRooted t.stack) mark_all-IsRooted (λ t bytes p. p) id s n h)
        (run_lexed between events l)
  run_lexed _ _ (plex_unnamed {events} l) s h =
      run-between no_stamp events s
        (on_no_stamp-keeps (λ t. IsRooted t.stack) mark_all-IsRooted (λ t bytes p. p) s h)
        (run_lexed between events l)
  run_lexed _ _ (closes {events} plex l) s h =
      run-between (close_plex plex) events s (on_close_plex-IsRooted plex s h)
        (run_lexed between events l)
  run_lexed _ _ (has_comma {events} l) s h =
      run-between comma events s (on_comma-IsRooted s h) (run_lexed between events l)
  run_lexed _ _ (has_colon {events} l) s h =
      run-between colon events s (on_colon-IsRooted s h) (run_lexed between events l)
  run_lexed _ _ (has_semicolon {events} l) s h =
      run-between semicolon events s (on_semicolon-IsRooted s h) (run_lexed between events l)
  run_lexed _ _ (whole {events} l) s h =
      run-between root events s (on_root-IsRooted s h) (run_lexed between events l)

  -- A parse with no error has closed every line but the document's.
  closed_document :
      (stack : List Mark) (e : Option Error)
      → IsRooted stack
      → ((e' : Error) × (verdict stack e ≡ some e'))
        ⊎ ((m : Mark) × (stack ≡ m ∷ []) × (m.lit ≡ 32))
  unfolding IsRooted verdict
  closed_document stack (some e) r = inl (e, refl)
  closed_document [] none r = absurd r
  closed_document (m ∷ []) none r = inr (m, refl, r)
  closed_document (m ∷ n ∷ ms) none r =
      let many : (length (m ∷ n ∷ ms) == 1) ≡ false = ground arith in
      inl (bad_jdr_nesting, rw many refl)

  -- ParseJDR of a text that the lexer reads in the order of the grammar, up to its end or to where
  -- it stops: no action panics, the result is the bytes that the actions have written, and either
  -- it comes with an error or the mark of the document alone is left on the stack.
  pub parse_jdr-Lexed :
      (events : List Event)
      → Lexed between events
      → (s : JdrState) × (e : Option Error) × (run parse_float parse_int events parse_start
          ≡ ok (s, e))
        × (parse_jdr parse_float parse_int events ≡ ok (s.rdx, verdict s.stack e))
        × (((e' : Error) × (verdict s.stack e ≡ some e'))
            ⊎ ((m : Mark) × (s.stack ≡ m ∷ []) × (m.lit ≡ 32)))
  unfolding parse_jdr Holds IsRooted
  parse_jdr-Lexed events l =
      let ((s, e), ran, r) = run_lexed between events l parse_start refl in
      (s, e, ran, rw ran refl, closed_document s.stack e r)
