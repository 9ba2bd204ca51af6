-- ===== src/Jdr/Renderer.antt =====
-- jdr.go: RenderJDR, which prints a stream with the line breaks, spaces and tuples that a style asks
-- for. `format_float` and `format_int` are the texts of strconv, `sprint_float` and `sprint_int` those
-- of fmt's `%e` and `%d`. The fuel counts the elements of a container and the depth of nesting.
mod Tests
use go_rdx.Prelude.{
  ℕ, zero, suc, ◌+◌, ◌-◌, bit_and, bit_or, Bool, true, false, not, ◌&&◌, ◌||◌, ltb, leb, ◌==◌,
  if◌then◌else◌, List, [], ◌∷◌, ◌++◌, length, Outcome, ok, out_of_fuel, ◌>>=◌,
}
use go_rdx.Prelude.Int.{ℤ}
use go_rdx.ZipInt.{unzip_int64, unzip_float64}
use go_rdx.Ident.{RdxId, is_zero, unzip_id, ron_string, formal_string}
use go_rdx.Iter.{
  Iter, new_iter, read, rest, peek, inner, value, iter_lit, iter_id, iter_record, float, integer,
  reference, is_plex, lit_float, lit_integer, lit_reference, lit_string, lit_term, lit_tuple,
  lit_linear, lit_euler, lit_multix,
}
use go_rdx.Jdr.{append_escaped, append_jdr_stamp, has, without}
use go_rdx.Jdr.Actions.{empty_tuple}
use go_rdx.Jdr.Printer.{
  append_crlf, deeper, style_use_comma, style_use_space, style_use_lf, style_use_lf_sparingly,
  style_trailing_comma, style_short_inline_tuples, style_yell,
}

-- bytes.Equal.
abbrev bytes_equal : List ℕ → List ℕ → Bool
bytes_equal [] [] = true
bytes_equal [] (d ∷ ds) = false
bytes_equal (c ∷ cs) [] = false
bytes_equal (c ∷ cs) (d ∷ ds) = c == d && bytes_equal cs ds

unfoldable pub last_byte : List ℕ → ℕ
last_byte [] = 0
last_byte (b ∷ []) = b
last_byte (b ∷ c ∷ bytes) = last_byte (c ∷ bytes)

-- What follows an element: nothing behind a semicolon.
unfoldable pub separated : List ℕ → List ℕ → ℕ → List ℕ
unfolding last_byte
separated jdr after style =
    let comma = if has style style_use_comma then jdr ++ (b',' ∷ []) else jdr in
    if last_byte jdr == b';'
    then jdr
    else if ltb 0 (length after)
    then (if not (has style style_use_comma) || has style style_use_space
        then comma ++ (32 ∷ [])
        else comma)
    else if has style style_trailing_comma
    then jdr ++ (b',' ∷ [])
    else jdr

-- The line break behind the last element, one level up.
unfoldable pub last_crlf : List ℕ → ℕ → List ℕ
last_crlf jdr style =
    if has style style_use_lf
    then append_crlf jdr (if bit_and style 0xff == 0 then style else style - 1)
    else jdr

unfoldable pub is_yell_tuple : Iter → Outcome Bool
is_yell_tuple p =
    let named : Outcome Bool = do
      inside ← inner p
      (name, more) ← read inside
      let term : Outcome Bool = (value name >>= λ v. ok (leb (length v) 10))
      (if not more
          then ok false
          else if iter_lit name == lit_term
          then term
          else ok (iter_lit name == lit_reference))
    in if iter_lit p == lit_tuple then named else ok false

unfoldable pub shortish_loop : (fuel c : ℕ) → Iter → Outcome Bool
shortish_loop zero c inside = out_of_fuel
shortish_loop (suc fuel) c inside = do
  (it, more) ← read inside
  let next = shortish_loop fuel (c + 1) it
  (if not more
      then ok (ltb 1 c)
      else if is_plex (iter_lit it) && not (iter_lit it == lit_tuple)
      then ok false
      else next)

unfoldable pub is_shortish_tuple : (fuel : ℕ) → Iter → Outcome Bool
unfolding shortish_loop
is_shortish_tuple fuel p =
    let tuple : Outcome Bool = do
      v ← value p
      inside ← inner p
      let counted = shortish_loop fuel 0 inside
      (if ltb 64 (length v) then ok false else counted)
    in if iter_lit p == lit_tuple then tuple else ok false

module _ (sprint_float : ℕ → List ℕ) (sprint_int : ℤ → List ℕ) where
  -- Iter.String.
  unfoldable pub iter_string : Iter → Outcome (List ℕ)
  iter_string it =
      let lit = iter_lit it in
      let shown = λ (f : List ℕ → List ℕ). (value it >>= λ v. ok (f v)) in
      if lit == lit_float
      then shown (λ v. sprint_float (unzip_float64 v))
      else if lit == lit_integer
      then shown (λ v. sprint_int (unzip_int64 v))
      else if lit == lit_reference
      then shown (λ v. ron_string (unzip_id v))
      else if lit == lit_string || lit == lit_term
      then value it
      else if lit == lit_tuple
      then ok (b'(' ∷ b')' ∷ [])
      else if lit == lit_linear
      then ok (b'[' ∷ b']' ∷ [])
      else if lit == lit_euler
      then ok (123 ∷ 125 ∷ [])
      else if lit == lit_multix
      then ok (b'<' ∷ b'>' ∷ [])
      else ok []

module _ (format_float : ℕ → List ℕ) (format_int : ℤ → List ℕ) where
  unfoldable pub render_first : List ℕ → Iter → Outcome (List ℕ)
  render_first pre it =
      let lit = iter_lit it in
      let stamped = λ (jdr : List ℕ). (iter_id it >>= λ id. ok (append_jdr_stamp jdr id)) in
      if lit == lit_float
      then (float it >>= λ f. stamped (pre ++ format_float f))
      else if lit == lit_integer
      then (integer it >>= λ i. stamped (pre ++ format_int i))
      else if lit == lit_reference
      then (reference it >>= λ i. stamped (pre ++ formal_string i))
      else if lit == lit_string
      then (value it >>= λ v. stamped (append_escaped (pre ++ (34 ∷ [])) v ++ (34 ∷ [])))
      else if lit == lit_term
      then (value it >>= λ v. stamped (pre ++ v))
      else ok pre

  -- `list` is renderJDRList.
  module _ (list : List ℕ → Iter → ℕ → Outcome (List ℕ)) where
    unfoldable pub render_plex : List ℕ → Iter → ℕ → Outcome (List ℕ)
    render_plex pre it style = do
      let lit = iter_lit it
      let (oc, cc) : ℕ × ℕ =
          if lit == lit_tuple
          then (b'(', b')')
          else if lit == lit_linear
          then (b'[', b']')
          else if lit == lit_euler
          then (123, 125)
          else if lit == lit_multix
          then (b'<', b'>')
          else (0, 0)
      let bracket = pre ++ (oc ∷ [])
      id ← iter_id it
      inside ← inner it
      jdr ←
          list (if is_zero id then bracket else append_jdr_stamp bracket id ++ (32 ∷ [])) inside
            (deeper style)
      ok (jdr ++ (cc ∷ []))

    unfoldable pub render_yell_tuple :
        (Iter → Outcome (List ℕ)) → List ℕ → Iter → ℕ → Outcome (List ℕ)
    render_yell_tuple string pre it style = do
      inside ← inner it
      (name, more) ← read inside
      text ← string name
      next ← peek name
      let jdr = pre ++ text
      let mask = bit_or (bit_or style_short_inline_tuples style_use_lf) style_yell
      out ←
          (if next == lit_tuple
            then list jdr name (without style mask)
            else list (jdr ++ (32 ∷ [])) name (without style (bit_or mask style_use_comma)))
      ok (out ++ (b';' ∷ []))

    -- The loop of renderInlineTupleJDR.
    unfoldable pub inline_loop : (fuel : ℕ) → List ℕ → Iter → ℕ → Outcome (List ℕ)
    unfolding render_first render_plex
    inline_loop zero jdr inside style = out_of_fuel
    inline_loop (suc fuel) jdr inside style = do
      (it, more) ← read inside
      let plex : Outcome (List ℕ) = do
        bytes ← iter_record it
        let nested = render_plex jdr it style
        (if bytes_equal bytes empty_tuple then ok jdr else nested)
      let next : Outcome (List ℕ) = do
        out ← (if is_plex (iter_lit it) then plex else render_first jdr it)
        after ← rest it
        inline_loop fuel (if ltb 0 (length after) then out ++ (b':' ∷ []) else out) it style
      (if more then next else ok jdr)

    unfoldable pub render_inline_tuple : (fuel : ℕ) → List ℕ → Iter → ℕ → Outcome (List ℕ)
    unfolding inline_loop
    render_inline_tuple fuel pre it style = do
      inside ← inner it
      all ← rest inside
      let filled =
          inline_loop fuel pre inside
            (without style (bit_or style_short_inline_tuples style_use_lf))
      (if length all == 0 then ok (pre ++ (b'(' ∷ b')' ∷ [])) else filled)

module _ (sprint_float : ℕ → List ℕ) (sprint_int : ℤ → List ℕ) (format_float : ℕ → List ℕ)
    (format_int : ℤ → List ℕ) where
  -- The rendering of an element that the cursor is at.
  unfoldable pub render_element :
      (List ℕ → Iter → ℕ → Outcome (List ℕ)) → (fuel : ℕ) → List ℕ → Iter → ℕ → Outcome (List ℕ)
  unfolding iter_string is_yell_tuple is_shortish_tuple render_first render_plex render_yell_tuple
      render_inline_tuple
  render_element list fuel jdr it style =
      let plex : Outcome (List ℕ) = do
        yell ← (if has style style_yell then is_yell_tuple it else ok false)
        short ←
            (if not yell && (iter_lit it == lit_tuple && has style style_short_inline_tuples)
              then is_shortish_tuple fuel it
              else ok false)
        (if yell
            then render_yell_tuple format_float format_int list
                (iter_string sprint_float sprint_int) jdr it style
            else if short
            then render_inline_tuple format_float format_int list fuel jdr it style
            else render_plex format_float format_int list jdr it style)
      in if is_plex (iter_lit it) then plex else render_first format_float format_int jdr it

  -- The loop of renderJDRList.
  unfoldable pub render_loop :
      (List ℕ → Iter → ℕ → Outcome (List ℕ)) → (fuel : ℕ) → List ℕ → Iter → ℕ → Outcome (List ℕ)
  unfolding render_element separated last_crlf
  render_loop list zero jdr it style = out_of_fuel
  render_loop list (suc fuel) jdr it style = do
    (next, more) ← read it
    let go_on : Outcome (List ℕ) = do
      out ←
          render_element list fuel (if has style style_use_lf then append_crlf jdr style else jdr)
            next style
      after ← rest next
      render_loop list fuel (separated out after style) next style
    (if more then go_on else ok (last_crlf jdr style))

  unfoldable pub render_jdr_list : (depth fuel : ℕ) → List ℕ → Iter → ℕ → Outcome (List ℕ)
  unfolding render_loop
  render_jdr_list zero fuel pre it style = out_of_fuel
  render_jdr_list (suc depth) fuel pre it style = do
    all ← rest it
    let sparing = ltb (length all) 32 && has style style_use_lf_sparingly
    render_loop (render_jdr_list depth fuel) fuel pre it
        (if sparing then without style style_use_lf else style)

  unfoldable pub render_jdr : (depth fuel : ℕ) → List ℕ → ℕ → Outcome (List ℕ)
  unfolding render_jdr_list
  render_jdr depth fuel rdx style = render_jdr_list depth fuel [] (new_iter rdx) style
