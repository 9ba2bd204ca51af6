-- ===== src/Jdr/Printer/Calls.antt =====
-- The lexer's calls for a printed document, with the text of their tokens.
use go_rdx.Prelude.{
  ℕ, ◌+◌, ◌<◌, ◌%◌, ◌/◌, ◌^◌, ◌≡◌, Bool, true, false, ◌&&◌, leb, ltb, ◌==◌, if◌then◌else◌, List, [],
  ◌∷◌, ◌++◌, length, IsU64,
}
use go_rdx.Prelude.Int.{ℤ, IsInt64}
use go_rdx.ZipInt.{zip_int64, zip_float64}
use go_rdx.Ident.{RdxId, zip_id, ron_string, is_zero}
use go_rdx.Iter.{
  lit_float, lit_integer, lit_reference, lit_string, lit_term, lit_tuple, lit_linear, lit_euler,
}
use go_rdx.Element.Docs.{Doc, end, leaf, node, print}
use go_rdx.Jdr.Actions.Events.{
  Event, nl, utf8cp2, utf8cp3, first_start, stamp, no_stamp, first_end, semicolon, open_plex,
  close_plex, comma, colon, root,
}
use go_rdx.Jdr.Printer.{first_text}
use go_rdx.Jdr.Printer.Tokens.{every, is_ref, is_term}

abbrev pub opening : ℕ → ℕ
opening lit =
    if lit == lit_tuple
    then b'('
    else if lit == lit_linear
    then b'['
    else if lit == lit_euler
    then 123
    else b'<'

abbrev pub closing : ℕ → ℕ
closing lit =
    if lit == lit_tuple
    then b')'
    else if lit == lit_linear
    then b']'
    else if lit == lit_euler
    then 125
    else b'>'

-- The text of the token of a call; the calls inside a string and at an end have none of their own.
abbrev pub token_text : Event → List ℕ
token_text nl = 10 ∷ []
token_text (utf8cp2 tok) = []
token_text (utf8cp3 tok) = []
token_text (first_start tok lit) = tok
token_text (stamp tok) = tok
token_text no_stamp = []
token_text first_end = []
token_text semicolon = b';' ∷ []
token_text (open_plex lit) = opening lit ∷ []
token_text (close_plex lit) = closing lit ∷ []
token_text comma = b',' ∷ []
token_text colon = b':' ∷ []
token_text root = []

-- Calls, each with the spaces behind its token.
pub data Calls : Type 0 where
  done : Calls
  call : Event → List ℕ → Calls → Calls

abbrev pub events : Calls → List Event
events done = []
events (call event space more) = event ∷ events more

abbrev pub text : Calls → List ℕ
text done = []
text (call event space more) = token_text event ++ (space ++ text more)

abbrev pub stamp_of : RdxId → Event
stamp_of id = if is_zero id then no_stamp else stamp (b'@' ∷ ron_string id)

abbrev pub stamp_space : RdxId → List ℕ
stamp_space id = if is_zero id then [] else 32 ∷ []

-- Between two elements there is a space at the top and a comma in a container.
abbrev pub gap : Bool → Doc → List ℕ
gap top end = []
gap top (leaf lit id val rest) = if top then 32 ∷ [] else []
gap top (node lit id inside rest) = if top then 32 ∷ [] else []

abbrev pub comma_before : Bool → Doc → Calls → Calls
comma_before top end more = more
comma_before top (leaf lit id val rest) more = if top then more else call comma [] more
comma_before top (node lit id inside rest) more = if top then more else call comma [] more

-- How many elements there are at the top, and whether each is of a FIRST type or an empty tuple.
abbrev pub count : Doc → ℕ
count end = 0
count (leaf lit id val rest) = count rest + 1
count (node lit id inside rest) = count rest + 1

abbrev pub are_first : Doc → Bool
are_first end = true
are_first (leaf lit id val rest) = are_first rest
are_first (node lit id inside rest) =
    lit == lit_tuple && length (print inside) == 0 && are_first rest

-- The tuples that style 0 prints without brackets.
abbrev pub inlined : ℕ → RdxId → Doc → Bool
inlined lit id inside = lit == lit_tuple && is_zero id && (are_first inside && leb 2 (count inside))

-- A FIRST value in its shortest form, whose text is a token of its type: the printed reference is a
-- JDRRef, the term a JDRTerm, and the string is of ASCII bytes.
pub data Token (lit : ℕ) (val : List ℕ) : Type 0 where
  float_token :
      (bits : ℕ)
      → lit ≡ lit_float
      → IsU64 bits
      → bits / 2 ^ 52 % 2 ^ 11 < 2047
      → val ≡ zip_float64 bits
      → Token lit val
  integer_token : (i : ℤ) → lit ≡ lit_integer → IsInt64 i → val ≡ zip_int64 i → Token lit val
  reference_token :
      (id : RdxId)
      → lit ≡ lit_reference
      → id.src < 2 ^ 60
      → id.seq < 2 ^ 60
      → is_ref (ron_string id) ≡ true
      → val ≡ zip_id id
      → Token lit val
  string_token : lit ≡ lit_string → every (λ c. ltb c 128) val ≡ true → Token lit val
  term_token : lit ≡ lit_term → is_term val ≡ true → Token lit val

abbrev pub IsShort : RdxId → Type 0
IsShort id = (id.src < 2 ^ 60) × (id.seq < 2 ^ 60)

-- The documents that style 0 prints with brackets around every tuple, at this depth.
abbrev pub IsSpelled : ℕ → Doc → Type 0
IsSpelled depth end = Unit {0}
IsSpelled depth (leaf lit id val rest) = Token lit val × IsShort id × IsSpelled depth rest
IsSpelled depth (node lit id inside rest) =
    (inlined lit id inside ≡ false)
    × (depth + 1 < 256)
    × IsShort id
    × IsSpelled (depth + 1) inside
    × IsSpelled depth rest

module _ (format_float : ℕ → List ℕ) (format_int : ℤ → List ℕ) where
  -- The calls for a document, before `more`.
  abbrev pub calls : Bool → Doc → Calls → Calls
  calls top end more = more
  calls top (leaf lit id val rest) more =
      call (first_start (first_text format_float format_int lit val) lit) [] (
        call (stamp_of id) []
          (call first_end (gap top rest) (comma_before top rest (calls top rest more))))
  calls top (node lit id inside rest) more = call (open_plex lit) [] (
      call (stamp_of id) (stamp_space id) (
        calls false inside
          (call (close_plex lit) (gap top rest) (comma_before top rest (calls top rest more)))))

  -- The calls of the lexer for a whole printed document.
  abbrev pub document_calls : Doc → Calls
  document_calls d = calls true d (call root [] done)
