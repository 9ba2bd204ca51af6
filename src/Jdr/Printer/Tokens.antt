-- ===== src/Jdr/Printer/Tokens.antt =====
-- The tokens of JDR.go.rl: recognisers for the rules of numbers, terms, references, strings and
-- stamps, and what the rules say of the text around a token.
use go_rdx.Prelude.{
  ℕ, Bool, true, false, not, ◌&&◌, ◌||◌, leb, ltb, ◌==◌, if◌then◌else◌, List, [], ◌∷◌, Option, none,
  some,
}
use go_rdx.Ident.{dash}
use go_rdx.Iter.{lit_float, lit_integer, lit_reference, lit_string, lit_term}
use go_rdx.Jdr.{backslash}

abbrev pub quote : ℕ
quote = 34

unfoldable pub every : (ℕ → Bool) → List ℕ → Bool
every p [] = true
every p (c ∷ cs) = p c && every p cs

unfoldable pub is_digit : ℕ → Bool
is_digit c = leb b'0' c && leb c b'9'

-- JDRron64
unfoldable pub is_ron64 : ℕ → Bool
unfolding is_digit
is_ron64 c =
    is_digit c
    || ((leb b'A' c && leb c b'Z') || ((leb b'a' c && leb c b'z') || (c == b'_' || c == b'~')))

-- JDRws
unfoldable pub is_ws : ℕ → Bool
is_ws c = c == 13 || (c == 9 || (c == 32 || c == 10))

unfoldable pub is_empty : List ℕ → Bool
is_empty [] = true
is_empty (c ∷ cs) = false

-- JDRInt, first without its sign.
unfoldable pub is_natural : List ℕ → Bool
unfolding is_empty every is_digit
is_natural [] = false
is_natural (c ∷ cs) = if c == b'0' then is_empty cs else is_digit c && every is_digit cs

unfoldable pub is_int : List ℕ → Bool
unfolding is_natural
is_int [] = false
is_int (c ∷ cs) = if c == dash then is_natural cs else is_natural (c ∷ cs)

unfoldable pub skip_digits : List ℕ → List ℕ
unfolding is_digit
skip_digits [] = []
skip_digits (c ∷ cs) = let after = skip_digits cs in if is_digit c then after else c ∷ cs

-- The text behind the whole part of a number, behind its fraction, and its exponent.
unfoldable pub after_natural : List ℕ → Option (List ℕ)
unfolding is_digit skip_digits
after_natural [] = none
after_natural (c ∷ cs) =
    if c == b'0' then some cs else if is_digit c then some (skip_digits cs) else none

unfoldable pub after_int : List ℕ → Option (List ℕ)
unfolding after_natural
after_int [] = none
after_int (c ∷ cs) = if c == dash then after_natural cs else after_natural (c ∷ cs)

unfoldable pub after_fraction : List ℕ → Option (List ℕ)
unfolding is_digit skip_digits
after_fraction [] = some []
after_fraction (c ∷ []) = if c == b'.' then none else some (c ∷ [])
after_fraction (c ∷ d ∷ ds) =
    if c == b'.' then if is_digit d then some (skip_digits ds) else none else some (c ∷ d ∷ ds)

unfoldable pub is_digits : List ℕ → Bool
unfolding is_empty every is_digit
is_digits cs = not (is_empty cs) && every is_digit cs

unfoldable pub signed_digits : List ℕ → Bool
unfolding is_digits
signed_digits [] = false
signed_digits (c ∷ cs) = if c == dash || c == b'+' then is_digits cs else is_digits (c ∷ cs)

unfoldable pub is_exponent : List ℕ → Bool
unfolding signed_digits
is_exponent [] = true
is_exponent (c ∷ cs) = (c == b'e' || c == b'E') && signed_digits cs

unfoldable pub is_fraction : Option (List ℕ) → Bool
unfolding is_exponent
is_fraction none = false
is_fraction (some cs) = is_exponent cs

unfoldable pub is_rest : Option (List ℕ) → Bool
unfolding is_fraction after_fraction
is_rest none = false
is_rest (some cs) = is_fraction (after_fraction cs)

unfoldable pub is_number : List ℕ → Bool
unfolding is_rest after_int
is_number cs = is_rest (after_int cs)

-- JDRFloat
unfoldable pub is_float : List ℕ → Bool
unfolding is_number is_int
is_float cs = is_number cs && not (is_int cs)

-- JDRTerm
unfoldable pub is_term : List ℕ → Bool
unfolding is_empty every is_ron64 is_float is_int
is_term cs = not (is_empty cs) && (every is_ron64 cs && (not (is_int cs) && not (is_float cs)))

-- JDRid128, from a state: whether there was a digit since the start or the dash, and a dash.
unfoldable pub id128_from : Bool → Bool → List ℕ → Bool
unfolding is_ron64
id128_from seen dashed [] = seen
id128_from seen dashed (c ∷ cs) =
    let digit = is_ron64 c in
    (digit || (c == dash && (seen && not dashed))) && id128_from digit (dashed || not digit) cs

unfoldable pub is_id128 : List ℕ → Bool
unfolding id128_from
is_id128 cs = id128_from false false cs

-- JDRRef
unfoldable pub is_ref : List ℕ → Bool
unfolding is_id128 is_float is_int is_term
is_ref cs = is_id128 cs && (not (is_float cs) && (not (is_int cs) && not (is_term cs)))

-- JDRString without codepoints of two bytes and more and without JDRhexEsc: the text behind the
-- opening quote, and whether a backslash stands before it.
unfoldable pub is_quoted : (marked : Bool) → List ℕ → Bool
unfolding is_empty
is_quoted marked [] = false
is_quoted true (c ∷ cs) =
    (c == quote
      || (c == backslash
          || (c == b'/' || (c == b'b' || (c == b'f' || (c == b'n' || (c == b'r' || c == b't')))))))
    && is_quoted false cs
is_quoted false (c ∷ cs) =
    let after = is_quoted (c == backslash) cs in
    if c == quote then is_empty cs else (ltb c 128 && (not (c == 13) && not (c == 10))) && after

unfoldable pub is_string : List ℕ → Bool
unfolding is_quoted
is_string [] = false
is_string (c ∷ cs) = c == quote && is_quoted false cs

-- JDRStamp
unfoldable pub is_stamp : List ℕ → Bool
unfolding is_id128
is_stamp [] = false
is_stamp (c ∷ cs) = c == b'@' && is_id128 cs

-- The rule of a FIRST token.
unfoldable pub is_first_token : ℕ → List ℕ → Bool
unfolding is_float is_int is_ref is_string is_term
is_first_token lit tok =
    if lit == lit_float
    then is_float tok
    else if lit == lit_integer
    then is_int tok
    else if lit == lit_reference
    then is_ref tok
    else if lit == lit_string
    then is_string tok
    else lit == lit_term && is_term tok

-- The text starts with a byte that may stand in a number, a term or an identifier.
unfoldable pub goes_on : List ℕ → Bool
unfolding is_ron64
goes_on [] = false
goes_on (c ∷ cs) = is_ron64 c || (c == dash || (c == b'+' || c == b'.'))

-- Behind white space there is a stamp.
unfoldable pub at_stamp : List ℕ → Bool
unfolding is_ws
at_stamp [] = false
at_stamp (c ∷ cs) = let after = at_stamp cs in if is_ws c then after else c == b'@'
