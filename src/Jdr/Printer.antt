-- ===== src/Jdr/Printer.antt =====
-- jdr.go: WriteJDR and WriteAllJDR, which print the text form of elements. `format_float` and
-- `format_int` are the texts that strconv appends for a float64 and an int64. The fuel counts the
-- elements of a container and the depth of nesting: a record can be empty.
mod Tests
pub mod Calls
pub mod Tokens
pub mod Texts
pub mod Fits
pub mod Parsed
pub mod Grammar
pub mod RoundTrip
pub mod Spelling
pub mod FirstTuples
pub mod Back
use go_rdx.Prelude.{
  ℕ, zero, suc, ◌+◌, ◌%◌, ◌^◌, bit_and, bit_or, Bool, true, false, not, ◌&&◌, ◌||◌, leb, ◌==◌,
  if◌then◌else◌, List, [], ◌∷◌, ◌++◌, length, Option, none, some, Error, bad_record, Outcome, ok,
  out_of_fuel, ◌>>=◌,
}
use go_rdx.Prelude.Int.{ℤ}
use go_rdx.ZipInt.{unzip_int64, unzip_float64}
use go_rdx.Ident.{RdxId, is_zero, unzip_id, ron_string}
use go_rdx.Iter.{
  is_plex, lit_float, lit_integer, lit_reference, lit_string, lit_term, lit_tuple, lit_linear,
  lit_euler, lit_multix,
}
use go_rdx.Element.{RdxRead, read_rdx}
use go_rdx.Jdr.{append_escaped, append_jdr_stamp, has}

-- The bits of a style; its low eight bits count the nesting.
abbrev pub style_use_comma : ℕ
style_use_comma = 2 ^ 10

abbrev pub style_use_space : ℕ
style_use_space = 2 ^ 11

abbrev pub style_use_lf : ℕ
style_use_lf = 2 ^ 12

abbrev pub style_use_lf_sparingly : ℕ
style_use_lf_sparingly = 2 ^ 13

abbrev pub style_top_comma_nl : ℕ
style_top_comma_nl = 2 ^ 14

abbrev pub style_indent_tab : ℕ
style_indent_tab = 2 ^ 15

abbrev pub style_indent_space4 : ℕ
style_indent_space4 = 2 ^ 16

abbrev pub style_trailing_comma : ℕ
style_trailing_comma = 2 ^ 17

abbrev pub style_bracket_tuples : ℕ
style_bracket_tuples = 2 ^ 18

abbrev pub style_short_inline_tuples : ℕ
style_short_inline_tuples = 2 ^ 19

abbrev pub style_yell : ℕ
style_yell = 2 ^ 21

-- `style + 1` on a uint64.
abbrev pub deeper : ℕ → ℕ
deeper style = (style + 1) % 2 ^ 64

-- The loops of appendCRLF.
unfoldable pub indent : ℕ → List ℕ → List ℕ
indent zero step = []
indent (suc n) step = step ++ indent n step

unfoldable pub append_crlf : List ℕ → ℕ → List ℕ
unfolding indent
append_crlf jdr style =
    let out = jdr ++ (10 ∷ []) in
    let depth = bit_and style 0xff in
    if not (has style style_use_lf)
    then jdr
    else if has style style_indent_tab
    then out ++ indent depth (9 ∷ [])
    else if has style style_indent_space4
    then out ++ indent depth (32 ∷ 32 ∷ 32 ∷ 32 ∷ [])
    else out

unfoldable pub is_all_term : (fuel : ℕ) → List ℕ → Outcome Bool
is_all_term zero rdx = out_of_fuel
is_all_term (suc fuel) rdx =
    let step : Outcome Bool = do
      r ← read_rdx rdx
      let next = is_all_term fuel r.rest
      (if not (r.lit == lit_term)
          then ok false
          else elim r.error [ some e ↦ ok false | none ↦ next ])
    in if length rdx == 0 then ok true else step

-- The loop of IsTupleAllFIRST; `l` counts the elements.
unfoldable pub all_first_loop : (fuel l : ℕ) → List ℕ → Outcome Bool
all_first_loop zero l rdx = out_of_fuel
all_first_loop (suc fuel) l rdx =
    let step : Outcome Bool = do
      r ← read_rdx rdx
      let next = all_first_loop fuel (l + 1) r.rest
      (if is_plex r.lit && not (r.lit == lit_tuple && length r.value == 0)
          then ok false
          else elim r.error [ some e ↦ ok (leb 2 (l + 1)) | none ↦ next ])
    in if length rdx == 0 then ok (leb 2 l) else step

unfoldable pub is_tuple_all_first : (fuel : ℕ) → List ℕ → Outcome Bool
unfolding all_first_loop
is_tuple_all_first fuel rdx = all_first_loop fuel 0 rdx

-- The named results of WriteJDR.
pub record Printed : Type 0 where
  pub text : List ℕ
  pub rest : List ℕ
  pub error : Option Error

-- `commanl` of appendJDRList.
unfoldable pub comma_breaks : ℕ → Bool
comma_breaks style =
    has style style_use_comma || (has style style_top_comma_nl && bit_and style 0xff == 0)

unfoldable pub comma_after : List ℕ → ℕ → List ℕ
unfolding comma_breaks
comma_after jdr style =
    let out = jdr ++ (b',' ∷ []) in if comma_breaks style then append_crlf out style else out

-- The loops over elements; `write` is WriteJDR.
module _ (write : List ℕ → List ℕ → ℕ → Outcome Printed) where
  unfoldable pub jdr_list_loop : (fuel : ℕ) → List ℕ → List ℕ → ℕ → Outcome (List ℕ × Option Error)
  unfolding comma_after
  jdr_list_loop zero jdr rdx style = out_of_fuel
  jdr_list_loop (suc fuel) jdr rdx style =
      let step : Outcome (List ℕ × Option Error) = do
        p ← write jdr rdx style
        let more = not (length p.rest == 0) || has style style_trailing_comma
        let out = if more then comma_after p.text style else p.text
        let next = jdr_list_loop fuel out p.rest style
        elim p.error [ some e ↦ ok (out, some e) | none ↦ next ]
      in if length rdx == 0 then ok (jdr, none) else step

  unfoldable pub append_jdr_list :
      (fuel : ℕ) → List ℕ → List ℕ → ℕ → Outcome (List ℕ × Option Error)
  unfolding jdr_list_loop
  append_jdr_list fuel jdr rdx style = jdr_list_loop fuel jdr rdx style >>= λ (out, e).
      ok (if comma_breaks style then out ++ (10 ∷ []) else out, e)

  -- The loops of appendInlineTuple and WriteAllJDR: the elements with a byte between them.
  unfoldable pub with_between :
      (fuel between : ℕ) → List ℕ → List ℕ → ℕ → Outcome (List ℕ × Option Error)
  with_between zero between jdr rdx style = out_of_fuel
  with_between (suc fuel) between jdr rdx style =
      let step : Outcome (List ℕ × Option Error) = do
        p ← write jdr rdx style
        let out = if length p.rest == 0 then p.text else p.text ++ (between ∷ [])
        let next = with_between fuel between out p.rest style
        elim p.error [ some e ↦ ok (out, some e) | none ↦ next ]
      in if length rdx == 0 then ok (jdr, none) else step

  unfoldable pub append_inline_tuple :
      (fuel : ℕ) → List ℕ → List ℕ → ℕ → Outcome (List ℕ × Option Error)
  unfolding with_between
  append_inline_tuple fuel jdr rdx style =
      with_between fuel b':' jdr rdx (deeper (bit_or style style_bracket_tuples))

module _ (format_float : ℕ → List ℕ) (format_int : ℤ → List ℕ) where
  -- The text of the value of a FIRST element.
  unfoldable pub first_text : ℕ → List ℕ → List ℕ
  first_text lit val =
      if lit == lit_float
      then format_float (unzip_float64 val)
      else if lit == lit_integer
      then format_int (unzip_int64 val)
      else if lit == lit_reference
      then ron_string (unzip_id val)
      else if lit == lit_string
      then append_escaped (34 ∷ []) val ++ (34 ∷ [])
      else val

  -- A bracket, the stamp with a space behind it, the elements and the other bracket.
  unfoldable pub in_brackets :
      (List ℕ → List ℕ → ℕ → Outcome (List ℕ × Option Error))
      → (oc cc : ℕ) → List ℕ
      → RdxId
      → List ℕ
      → ℕ
      → Outcome (List ℕ × Option Error)
  in_brackets list oc cc jdr id val style =
      let bracket = jdr ++ (oc ∷ []) in
      list (if is_zero id then bracket else append_jdr_stamp bracket id ++ (32 ∷ [])) val
        (deeper style)
      >>= λ (out, e). ok (out ++ (cc ∷ []), e)

  -- The switch of WriteJDR.
  unfoldable pub write_read :
      (List ℕ → List ℕ → ℕ → Outcome Printed)
      → (fuel : ℕ) → List ℕ
      → RdxRead
      → ℕ
      → Outcome (List ℕ × Option Error)
  unfolding first_text in_brackets append_jdr_list append_inline_tuple
  write_read write fuel jdr r style =
      let list = append_jdr_list write fuel in
      let stamped = append_jdr_stamp (jdr ++ first_text r.lit r.value) r.id in
      let tuple : Outcome (List ℕ × Option Error) = do
        all_first ←
            (if has style style_bracket_tuples then ok false else is_tuple_all_first fuel r.value)
        (if not all_first || not (is_zero r.id)
            then in_brackets list b'(' b')' jdr r.id r.value style
            else append_inline_tuple write fuel jdr r.value style)
      in if r.lit == lit_float
          || (r.lit == lit_integer
              || (r.lit == lit_reference || (r.lit == lit_string || r.lit == lit_term)))
        then ok (stamped, none)
        else if r.lit == lit_tuple
        then tuple
        else if r.lit == lit_linear
        then in_brackets list b'[' b']' jdr r.id r.value style
        else if r.lit == lit_euler
        then in_brackets list 123 125 jdr r.id r.value style
        else if r.lit == lit_multix
        then in_brackets list b'<' b'>' jdr r.id r.value style
        else ok (jdr, some bad_record)

  -- WriteJDR. On an error of ReadRDX the result `jdr2` is not set.
  unfoldable pub write_jdr : (depth fuel : ℕ) → List ℕ → List ℕ → ℕ → Outcome Printed
  unfolding write_read
  write_jdr zero fuel jdr rdx style = out_of_fuel
  write_jdr (suc depth) fuel jdr rdx style = do
    r ← read_rdx rdx
    let written : Outcome Printed =
        (write_read (write_jdr depth fuel) fuel jdr r style >>= λ (text, e).
        ok (record { text = text; rest = r.rest; error = e }))
    elim r.error [
      | some e ↦ ok (record { text = []; rest = r.rest; error = some e })
      | none ↦ written
    ]

  -- WriteAllJDR.
  unfoldable pub write_all_jdr :
      (depth fuel : ℕ) → List ℕ → List ℕ → ℕ → Outcome (List ℕ × Option Error)
  unfolding write_jdr
  write_all_jdr depth fuel jdr rdx style = with_between (write_jdr depth fuel) fuel 32 jdr rdx style
