-- ===== src/Normal/Endless.antt =====
-- Normalize of a document whose first record is too long.
use go_rdx.Prelude.{
  ℕ, zero, suc, ◌≤◌, ◌^◌, ◌≡◌, refl, ◌∙◌, arith, Bool, true, false, ltb, leb, ◌==◌, List, [], ◌∷◌,
  length, le_value, Option, none, Outcome, ok, out_of_fuel,
}
use go_rdx.Prelude.Int.{pos}
use go_rdx.Ident.{zip_id, unzip_id}
use go_rdx.Tlv.{Mark, write_tlkv}
use go_rdx.Tlv.Case.{IsUpper, case_lem}
use go_rdx.Iter.{
  Iter, new_iter, is_first, read, read_next, read_record, record_end, value_start, value, iter_id,
  iter_lit, peek_bytes, has_data,
}
use go_rdx.Iter.Streams.{fresh_rest}
use go_rdx.Iter.Reading.{read_lem}
use go_rdx.Element.Docs.{first_letter}
use go_rdx.Merge.Elements.{Order}
use go_rdx.Normal.{Norm, Chunked, shortest, append_norm, breaks, norm_loop, normalize, normal_form}

-- The bytes of a record with a long header of this length.
abbrev pub too_long : ℕ → ℕ → ℕ → ℕ → ℕ → ℕ → List ℕ → List ℕ
too_long lit a b c d e tail = lit ∷ a ∷ b ∷ c ∷ d ∷ e ∷ tail

-- Where Read leaves the cursor.
abbrev halted : ℕ → List ℕ → Iter
halted lit bytes = record {
  bytes = bytes;
  vallen = pos 0;
  hdrlen = 6;
  idlen = 0;
  lit = lit;
  errndx = 2;
}

module _ (lit a b c d e : ℕ) (tail : List ℕ) (up : IsUpper lit) where
  abbrev long : List ℕ
  long = too_long lit a b c d e tail

  full : (length long == 0) ≡ false
  full = ground arith

  value-halted : value (halted lit long) ≡ ok []
  unfolding value record_end value_start
  value-halted = ground arith

  iter_id-halted : iter_id (halted lit long) ≡ ok (unzip_id [])
  unfolding iter_id value_start
  iter_id-halted = ground arith

  iter_lit-halted : iter_lit (halted lit long) ≡ lit
  unfolding iter_lit peek_bytes
  iter_lit-halted = (case_lem lit up).1

  read-halted : read (halted lit long) ≡ ok (halted lit long, false)
  unfolding read
  read-halted = rw full refl

  read_too_long :
      2 ^ 30 ≤ le_value (a ∷ b ∷ c ∷ d ∷ []) → read (new_iter long) ≡ ok (halted lit long, false)
  unfolding read_next read_record
  read_too_long h =
      let whole : ltb (length long) 6 ≡ false = ground arith in
      let over : leb (2 ^ 30) (le_value (a ∷ b ∷ c ∷ d ∷ [])) ≡ true = ground arith in
      read_lem (new_iter long) long refl (ground arith) (fresh_rest long)
      ∙ rw ((case_lem lit up).3, whole, over) refl

module _ (utf8_valid : List ℕ → Bool) (lit a b c d e : ℕ) (tail v : List ℕ)
    (first : is_first lit ≡ true) (short : shortest utf8_valid lit [] ≡ ok v) where
  abbrev here : Iter
  here = halted lit (too_long lit a b c d e tail)

  append_norm-halted :
      (sub : Option Order → List ℕ → List ℕ → List Mark → Outcome Norm) (to : List ℕ)
      (stack : List Mark)
      → append_norm utf8_valid sub to here stack
        ≡ ok (write_tlkv to lit (zip_id (unzip_id [])) v, stack)
  unfolding append_norm
  append_norm-halted sub to stack =
      let up = first_letter lit first in
      rw
        (
          value-halted lit a b c d e tail up,
          iter_id-halted lit a b c d e tail up,
          iter_lit-halted lit a b c d e tail up,
          first,
          short,
        )
        refl

  norm_loop-halted :
      (sub : Option Order → List ℕ → List ℕ → List Mark → Outcome Norm) (fuel : ℕ) (s : Chunked)
      → norm_loop fuel (append_norm utf8_valid sub) none here s ≡ out_of_fuel
  unfolding norm_loop breaks has_data
  norm_loop-halted sub zero s = refl
  norm_loop-halted sub (suc fuel) s =
      rw
        (
          full lit a b c d e tail (first_letter lit first),
          append_norm-halted sub s.norm s.stack,
          read-halted lit a b c d e tail (first_letter lit first),
        )
        (norm_loop-halted sub fuel
          (record s { norm = write_tlkv s.norm lit (zip_id (unzip_id [])) v }))

  -- Normalize of a document that starts with a FIRST record whose long header gives a length of
  -- 2 ^ 30 or more, for a type that an empty value may have, does not return, whatever the fuel:
  -- Read fails and stays where it is, and the loop writes the same element for ever.
  pub normal_form-endless :
      (depth fuel : ℕ)
      → 2 ^ 30 ≤ le_value (a ∷ b ∷ c ∷ d ∷ [])
      → normal_form utf8_valid depth fuel (too_long lit a b c d e tail) ≡ out_of_fuel
  unfolding normal_form normalize
  normal_form-endless zero fuel h = refl
  normal_form-endless (suc depth) fuel h =
      let some_bytes : (length (too_long lit a b c d e tail) == 0) ≡ false = ground arith in
      rw (some_bytes, read_too_long lit a b c d e tail (first_letter lit first) h)
        (rw
          (norm_loop-halted (normalize utf8_valid depth fuel) fuel
            (record { norm = []; from = 0; chunks = []; stack = [] }))
          refl)
