-- ===== src/Jdr/Actions/Events.antt =====
-- The parser as a machine over the actions that the generated lexer calls, in the order in which it
-- calls them; it stops at the first error.
use go_rdx.Prelude.{
  ℕ, not, ◌||◌, ◌==◌, if◌then◌else◌, List, [], ◌∷◌, length, Option, none, some, Error,
  bad_jdr_nesting, Outcome, ok, ◌>>=◌,
}
use go_rdx.Prelude.Int.{ℤ}
use go_rdx.Tlv.{Mark, new_mark, top_lit}
use go_rdx.Jdr.Actions.{
  JdrState, Acted, on_nl, on_utf8cp2, on_utf8cp3, on_first0, on_stamp, on_no_stamp, on_first,
  on_semicolon, on_open_plex, on_close_plex, on_comma, on_colon, on_root,
}

-- The actions that do something. FIRST tokens come with the letter of their type.
pub data Event : Type 0 where
  nl : Event
  utf8cp2 : List ℕ → Event
  utf8cp3 : List ℕ → Event
  first_start : List ℕ → ℕ → Event
  stamp : List ℕ → Event
  no_stamp : Event
  first_end : Event
  semicolon : Event
  open_plex : ℕ → Event
  close_plex : ℕ → Event
  comma : Event
  colon : Event
  root : Event

-- The state in which ParseJDR starts the lexer: the mark of the document has a space for its type.
abbrev pub parse_start : JdrState
parse_start = record { rdx = []; stack = new_mark 0 32 ∷ []; val = []; line = 0 }

-- The error of ParseJDR: the lexer's, or that a line is still open.
unfoldable pub verdict : List Mark → Option Error → Option Error
verdict stack (some e) = some e
verdict stack none =
    if not (length stack == 1) || not (top_lit stack == 32) then some bad_jdr_nesting else none

module _ (parse_float : List ℕ → ℕ) (parse_int : List ℕ → ℤ) where
  unfoldable pub act : Event → JdrState → Acted
  unfolding on_nl on_utf8cp2 on_utf8cp3 on_first0 on_stamp on_no_stamp on_first on_semicolon
      on_open_plex on_close_plex on_comma on_colon on_root
  act nl s = on_nl s
  act (utf8cp2 tok) s = on_utf8cp2 tok s
  act (utf8cp3 tok) s = on_utf8cp3 tok s
  act (first_start tok lit) s = on_first0 tok lit s
  act (stamp tok) s = on_stamp tok s
  act no_stamp s = on_no_stamp s
  act first_end s = on_first parse_float parse_int s
  act semicolon s = on_semicolon s
  act (open_plex lit) s = on_open_plex lit s
  act (close_plex lit) s = on_close_plex lit s
  act comma s = on_comma s
  act colon s = on_colon s
  act root s = on_root s

  unfoldable pub run : List Event → JdrState → Acted
  unfolding act
  run [] s = ok (s, none)
  run (event ∷ events) s = do
    (t, e) ← act event s
    let rest = run events t
    elim e [ some e ↦ ok (t, some e) | none ↦ rest ]

  unfoldable pub parse_jdr : List Event → Outcome (List ℕ × Option Error)
  unfolding run verdict
  parse_jdr events = do (s, e) ← run events parse_start; ok (s.rdx, verdict s.stack e)
