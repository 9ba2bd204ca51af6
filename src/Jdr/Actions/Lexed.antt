-- ===== src/Jdr/Actions/Lexed.antt =====
-- The order in which the grammar of JDR.go.rl lets the lexer call the actions, with what it says of
-- their tokens, and a run of the parser on such a list of calls.
use go_rdx.Prelude.{ℕ, ◌≤◌, ◌≡◌, true, List, [], ◌∷◌, length}
use go_rdx.Iter.{is_plex, is_first, lit_string}
use go_rdx.Jdr.Actions.Events.{
  Event, nl, utf8cp2, utf8cp3, first_start, stamp, no_stamp, first_end, semicolon, open_plex,
  close_plex, comma, colon, root,
}

-- Where the lexer stands: between elements, behind an opening bracket, behind the token of a FIRST
-- element, or behind its stamp.
pub data Phase : Type 0 where
  between opened : Phase
  token stamped : List ℕ → ℕ → Phase

-- The calls that may follow. The lexer may stop after any of them.
pub data Lexed : Phase → List Event → Type 0 where
  stops : {phase : Phase} → Lexed phase []
  line_end : {phase : Phase} {events : List Event} → Lexed phase events → Lexed phase (nl ∷ events)
  two_bytes :
      {events : List Event} (tok : List ℕ)
      → 2 ≤ length tok
      → Lexed between events
      → Lexed between (utf8cp2 tok ∷ events)
  three_bytes :
      {events : List Event} (tok : List ℕ)
      → 3 ≤ length tok
      → Lexed between events
      → Lexed between (utf8cp3 tok ∷ events)
  starts :
      {events : List Event} (tok : List ℕ) (lit : ℕ)
      → is_first lit ≡ true
      → (lit ≡ lit_string → 2 ≤ length tok)
      → Lexed (token tok lit) events
      → Lexed between (first_start tok lit ∷ events)
  named :
      {events : List Event} {tok : List ℕ} {lit : ℕ} (id : List ℕ)
      → 1 ≤ length id
      → Lexed (stamped tok lit) events
      → Lexed (token tok lit) (stamp id ∷ events)
  unnamed :
      {events : List Event} {tok : List ℕ} {lit : ℕ}
      → Lexed (stamped tok lit) events
      → Lexed (token tok lit) (no_stamp ∷ events)
  ends :
      {events : List Event} {tok : List ℕ} {lit : ℕ}
      → Lexed between events
      → Lexed (stamped tok lit) (first_end ∷ events)
  opens :
      {events : List Event} (plex : ℕ)
      → is_plex plex ≡ true
      → Lexed opened events
      → Lexed between (open_plex plex ∷ events)
  plex_named :
      {events : List Event} (id : List ℕ)
      → 1 ≤ length id
      → Lexed between events
      → Lexed opened (stamp id ∷ events)
  plex_unnamed : {events : List Event} → Lexed between events → Lexed opened (no_stamp ∷ events)
  closes :
      {events : List Event} (plex : ℕ)
      → Lexed between events
      → Lexed between (close_plex plex ∷ events)
  has_comma : {events : List Event} → Lexed between events → Lexed between (comma ∷ events)
  has_colon : {events : List Event} → Lexed between events → Lexed between (colon ∷ events)
  has_semicolon : {events : List Event} → Lexed between events → Lexed between (semicolon ∷ events)
  whole : {events : List Event} → Lexed between events → Lexed between (root ∷ events)
