-- ===== src/Jdr/Printer/Grammar.antt =====
-- The calls for a printed document come in an order that the grammar allows.
use go_rdx.Prelude.{
  ℕ, ◌≤◌, ◌≡◌, arith, Bool, true, false, List, [], ◌∷◌, length, length-append, inl, inr, Bool-cases,
}
use go_rdx.Prelude.Int.{ℤ}
use go_rdx.Ident.{RdxId, is_zero, ron_string}
use go_rdx.Iter.{lit_string}
use go_rdx.Element.Docs.{Doc, end, leaf, node, IsWhole}
use go_rdx.Jdr.{append_escaped}
use go_rdx.Jdr.Actions.Events.{Event}
use go_rdx.Jdr.Actions.Lexed.{
  Lexed, between, opened, token, stamped, starts, named, unnamed, ends, opens, plex_named,
  plex_unnamed, closes, has_comma,
}
use go_rdx.Jdr.Printer.{first_text}
use go_rdx.Jdr.Printer.Calls.{Calls, events, calls, comma_before, stamp_of}

comma-Lexed :
    (top : Bool) (d : Doc) (more : Calls)
    → Lexed between (events more)
    → Lexed between (events (comma_before top d more))
comma-Lexed top end more l = l
comma-Lexed true (leaf lit id val rest) more l = l
comma-Lexed false (leaf lit id val rest) more l = has_comma l
comma-Lexed true (node lit id inside rest) more l = l
comma-Lexed false (node lit id inside rest) more l = has_comma l

stamp-Lexed :
    (id : RdxId) (tok : List ℕ) (lit : ℕ) (more : List Event)
    → Lexed (stamped tok lit) more
    → Lexed (token tok lit) (stamp_of id ∷ more)
stamp-Lexed id tok lit more l = elim (Bool-cases (is_zero id)) [
  | inl z ↦ rw z (unnamed l)
  | inr z ↦ rw z (named (b'@' ∷ ron_string id) (omega arith) l)
]

plex_stamp-Lexed :
    (id : RdxId) (more : List Event) → Lexed between more → Lexed opened (stamp_of id ∷ more)
plex_stamp-Lexed id more l = elim (Bool-cases (is_zero id)) [
  | inl z ↦ rw z (plex_unnamed l)
  | inr z ↦ rw z (plex_named (b'@' ∷ ron_string id) (omega arith) l)
]

module _ (format_float : ℕ → List ℕ) (format_int : ℤ → List ℕ) where
  -- The text of a string has its two quotes.
  quoted :
      (lit : ℕ) (val : List ℕ)
      → lit ≡ lit_string
      → 2 ≤ length (first_text format_float format_int lit val)
  unfolding first_text append_escaped
  quoted lit val e = rw e (omega (arith, length-append (append_escaped (34 ∷ []) val) (34 ∷ [])))

  pub calls-Lexed :
      (top : Bool) (d : Doc) (more : Calls)
      → IsWhole d
      → Lexed between (events more)
      → Lexed between (events (calls format_float format_int top d more))
  calls-Lexed top end more w l = l
  calls-Lexed top (leaf lit id val rest) more w l =
      let (f, i, fits, w') = w in
      starts _ lit f (quoted lit val)
        (stamp-Lexed id _ lit _ (ends (comma-Lexed top rest _ (calls-Lexed top rest more w' l))))
  calls-Lexed top (node lit id inside rest) more w l =
      let (p, i, fits, v, w') = w in
      opens lit p (
        plex_stamp-Lexed id _ (
          calls-Lexed false inside _ v
            (closes lit (comma-Lexed top rest _ (calls-Lexed top rest more w' l)))))
