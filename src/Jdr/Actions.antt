-- ===== src/Jdr/Actions.antt =====
-- jdr.go: the actions that the parser of the text form calls for its tokens. An action changes the
-- state and may return an error; Go keeps the state that goes with an error, and so does the model.
-- The fields `jdr` and `col` of JDRstate serve the generated lexer alone. `parse_float` and
-- `parse_int` are the results of strconv, of which the source drops the errors.
pub mod Events
pub mod Rooted
pub mod Steps
pub mod Lexed
pub mod First
pub mod Parse
pub mod Written
mod Tests
use go_rdx.Prelude.{
  ℕ, ◌+◌, ◌-◌, ◌*◌, ◌^◌, bit_and, bit_or, Bool, true, false, not, ◌&&◌, ◌||◌, ltb, leb, ◌==◌,
  if◌then◌else◌, List, [], ◌∷◌, ◌++◌, length, drop, get_elem?, set, copy_to, slice, slice_from,
  byte, Option, none, some, Error, bad_jdr_nesting, bad_state, bad_utf8, Outcome, ok, err, panic,
  ◌>>=◌, or_panic,
}
use go_rdx.Prelude.Int.{ℤ}
use go_rdx.Ident.{RdxId, new_id, zip_id}
use go_rdx.Tlv.{Mark, new_mark, Closed, open_tlv, close_tlv}
use go_rdx.Iter.{
  is_plex, lit_float, lit_integer, lit_reference, lit_string, lit_term, lit_tuple, lit_linear,
  lit_euler, lit_multix,
}
use go_rdx.ZipInt.{zip_float64, zip_int64}
use go_rdx.Jdr.{append_unescaped}

pub record JdrState : Type 0 where
  pub rdx : List ℕ
  pub stack : List Mark
  pub val : List ℕ
  pub line : ℕ

-- What an action returns, and the state it leaves.
abbrev pub Acted : Type 0
Acted = Outcome (JdrState × Option Error)

abbrev pub empty_tuple : List ℕ
empty_tuple = b'p' ∷ 1 ∷ 0 ∷ []

-- The mark of a tuple that `:` or `;` opened.
abbrev pub inline_tuple : ℕ
inline_tuple = b'p'

-- `*state.Line()`
unfoldable pub top_mark : JdrState → Outcome Mark
top_mark s = elim s.stack [ [] ↦ panic | m ∷ marks ↦ ok m ]

-- An assignment to fields of `state.Line()`.
unfoldable pub on_line : (Mark → Mark) → JdrState → Outcome JdrState
on_line f s = elim s.stack [ [] ↦ panic | m ∷ marks ↦ ok (record s { stack = f m ∷ marks }) ]

unfoldable pub set_pre : ℕ → JdrState → Outcome JdrState
unfolding on_line
set_pre pre = on_line (λ m. record m { pre = pre })

unfoldable pub set_break : JdrState → Outcome JdrState
unfolding on_line
set_break s = on_line (λ m. record m { last_break = length s.rdx }) s

unfoldable pub set_element : JdrState → Outcome JdrState
unfolding on_line
set_element s = on_line (λ m. record m { last_element = length s.rdx }) s

unfoldable pub close_top : ℕ → JdrState → JdrState × Option Error
close_top lit s =
    let c = close_tlv s.rdx lit s.stack in (record s { rdx = c.out; stack = c.stack }, c.error)

unfoldable pub on_nl : JdrState → Acted
on_nl s = ok (record s { line = s.line + 1 }, none)

abbrev pub is_surrogate : ℕ → Bool
is_surrogate cp = leb 0xd800 cp && ltb cp 0xe000

unfoldable pub on_utf8cp2 : List ℕ → JdrState → Acted
on_utf8cp2 tok s = do
  a ← or_panic (get_elem? tok 0)
  b ← or_panic (get_elem? tok 1)
  let cp = bit_or (bit_and a 0x1f * 2 ^ 6) (bit_and b 0x3f)
  ok (s, if is_surrogate cp then some bad_utf8 else none)

unfoldable pub on_utf8cp3 : List ℕ → JdrState → Acted
on_utf8cp3 tok s = do
  a ← or_panic (get_elem? tok 0)
  b ← or_panic (get_elem? tok 1)
  c ← or_panic (get_elem? tok 2)
  let cp = bit_or (bit_or (bit_and a 0x1f * 2 ^ 6) (bit_and b 0x3f) * 2 ^ 6) (bit_and c 0x3f)
  ok (s, if is_surrogate cp then some bad_utf8 else none)

unfoldable pub close_inline_tuple : JdrState → Acted
unfolding top_mark set_break set_pre close_top
close_inline_tuple s = do
  m ← top_mark s
  let full = record s { rdx = if m.pre == b':' then s.rdx ++ empty_tuple else s.rdx }
  let (closed, e) = close_top lit_tuple full
  let done : Acted = set_break closed >>= λ t. set_pre b'p' t >>= λ u. ok (u, e)
  (if length closed.stack == 0 then ok (closed, some bad_state) else done)

-- A tuple that `:` or `;` opened ends, unless a `:` asks for more.
unfoldable pub end_inline : JdrState → Acted
unfolding top_mark close_inline_tuple
end_inline s = do
  m ← top_mark s
  (if m.lit == inline_tuple && not (m.pre == b':') then close_inline_tuple s else ok (s, none))

unfoldable pub on_first0 : List ℕ → ℕ → JdrState → Acted
unfolding end_inline set_element
on_first0 tok lit s = do
  (ended, e) ← end_inline s
  t ← set_element ended
  (rdx, stack) ← open_tlv t.rdx lit t.stack
  ok (record t { rdx = rdx; stack = stack; val = tok }, e)

unfoldable pub mark_all : JdrState → Outcome JdrState
unfolding set_element set_break
mark_all s = set_element s >>= set_break

unfoldable pub on_stamp : List ℕ → JdrState → Acted
unfolding mark_all
on_stamp tok s = do
  idstr ← slice_from tok 1
  let r = new_id idstr
  let zip = zip_id r.id
  let stamped = mark_all (record s { rdx = s.rdx ++ (byte (length zip) ∷ zip) })
  elim r.error [ some e ↦ ok (s, some e) | none ↦ (stamped >>= λ t. ok (t, none)) ]

unfoldable pub on_no_stamp : JdrState → Acted
unfolding mark_all
on_no_stamp s = mark_all (record s { rdx = s.rdx ++ (0 ∷ []) }) >>= λ t. ok (t, none)

-- An infinite float becomes the largest finite one.
abbrev pub finite : ℕ → ℕ
finite f =
    if f == 0x7ff * 2 ^ 52
    then 0x7ff * 2 ^ 52 - 1
    else if f == 0xfff * 2 ^ 52
    then 0xfff * 2 ^ 52 - 1
    else f

module _ (parse_float : List ℕ → ℕ) (parse_int : List ℕ → ℤ) where
  -- The value of a FIRST element from its token.
  unfoldable pub first_value : ℕ → List ℕ → Outcome (List ℕ × Option Error)
  first_value lit val =
      let r = new_id val in
      let text = slice val 1 (length val - 1) >>= λ t. ok (append_unescaped [] t, none) in
      if lit == lit_float
      then ok (zip_float64 (finite (parse_float val)), none)
      else if lit == lit_integer
      then ok (zip_int64 (parse_int val), none)
      else if lit == lit_reference
      then ok (zip_id r.id, r.error)
      else if lit == lit_string
      then text
      else if lit == lit_term
      then ok (val, none)
      else ok ([], none)

  unfoldable pub on_first : JdrState → Acted
  unfolding top_mark first_value close_top set_pre
  on_first s = do
    m ← top_mark s
    (bytes, e) ← first_value m.lit s.val
    let (closed, e') = close_top m.lit (record s { rdx = s.rdx ++ bytes })
    let done : Acted = set_pre b'1' closed >>= λ t. ok (t, e')
    elim e [ some e ↦ ok (s, some e) | none ↦ done ]

-- Three bytes for the header of a short tuple are put in at `pos`, and it is open.
unfoldable pub retro_opened : ℕ → JdrState → JdrState
retro_opened pos s =
    let wide = copy_to (pos + 3) (drop pos s.rdx) (s.rdx ++ (0 ∷ 0 ∷ 0 ∷ [])) in
    record s {
      rdx = set (set (set wide pos b'p') (pos + 1) 0) (pos + 2) 0;
      stack = new_mark pos b'p' ∷ s.stack;
    }

unfoldable pub retro_open_tuple : ℕ → JdrState → JdrState × Option Error
unfolding retro_opened
retro_open_tuple pos s =
    if length s.stack == 0
    then (s, some bad_jdr_nesting)
    else if ltb (length s.rdx) pos
    then (s, some bad_state)
    else (retro_opened pos s, none)

unfoldable pub append_empty_tuple : JdrState → Outcome JdrState
unfolding set_pre
append_empty_tuple s = set_pre b'p' (record s { rdx = s.rdx ++ empty_tuple })

unfoldable pub on_semicolon : JdrState → Acted
unfolding top_mark retro_open_tuple close_inline_tuple set_break
on_semicolon s = do
  m ← top_mark s
  let (opened, e) = if m.lit == inline_tuple then (s, none) else retro_open_tuple m.last_break s
  let closed : Acted = do
    (t, e') ← close_inline_tuple opened
    let done = set_break t >>= λ u. ok (u, none)
    elim e' [ some e' ↦ ok (t, some e') | none ↦ done ]
  elim e [ some e ↦ ok (opened, some e) | none ↦ closed ]

unfoldable pub on_open_plex : ℕ → JdrState → Acted
unfolding end_inline set_element set_pre
on_open_plex plex s = do
  (ended, e) ← end_inline s
  let opened : Acted = do
    t ← set_element ended
    (rdx, stack) ← open_tlv t.rdx plex t.stack
    u ← set_pre 0 (record t { rdx = rdx; stack = stack })
    ok (u, none)
  elim e [ some e ↦ ok (ended, some e) | none ↦ opened ]

-- `Pre` of the outer line is set before its absence would be reported.
unfoldable pub on_close_plex : ℕ → JdrState → Acted
unfolding top_mark close_inline_tuple append_empty_tuple close_top set_pre
on_close_plex lit s = do
  m ← top_mark s
  (t, e) ←
      (if m.lit == inline_tuple
        then close_inline_tuple s
        else if m.pre == b','
        then (append_empty_tuple s >>= λ t. ok (t, none))
        else ok (s, none))
  outer ← top_mark t
  let (closed, e'') = close_top lit t
  let done : Acted = set_pre lit closed >>= λ u. ok (u, e'')
  let stopped : Acted = elim e [ some e ↦ ok (t, some e) | none ↦ done ]
  (if not (is_plex lit) || not (lit == outer.lit) then ok (t, some bad_jdr_nesting) else stopped)

unfoldable pub on_comma : JdrState → Acted
unfolding top_mark close_inline_tuple append_empty_tuple set_break set_pre
on_comma s = do
  m ← top_mark s
  (t, e) ← (if m.lit == inline_tuple then close_inline_tuple s else ok (s, none))
  outer ← top_mark t
  u ←
      (if outer.pre == 0 || (outer.pre == b',' || outer.pre == b';')
        then append_empty_tuple t
        else ok t)
  v ← set_break u
  w ← set_pre b',' v
  ok (w, e)

unfoldable pub on_colon : JdrState → Acted
unfolding top_mark retro_open_tuple append_empty_tuple set_pre
on_colon s = do
  m ← top_mark s
  let pos = if ltb m.last_element m.last_break then m.last_break else m.last_element
  (t, e) ←
      (if not (m.lit == inline_tuple)
        then ok (retro_open_tuple pos s)
        else if m.pre == 0 || m.pre == b':'
        then (append_empty_tuple s >>= λ t. ok (t, none))
        else ok (s, none))
  u ← set_pre b':' t
  ok (u, e)

unfoldable pub on_root : JdrState → Acted
unfolding top_mark close_inline_tuple
on_root s = do
  m ← top_mark s
  (if m.lit == inline_tuple then close_inline_tuple s else ok (s, none))
