-- ===== src/Jdr/Actions/Tests.antt =====
-- Runs of the parser on short texts.
use go_rdx.Prelude.{
  ℕ, ◌≡◌, refl, arith, List, [], ◌∷◌, Option, none, some, Error, ok, ◌⊎◌, bad_jdr_nesting,
}
use go_rdx.Prelude.Int.{ℤ, pos}
use go_rdx.Tlv.{
  Mark, new_mark, open_tlv, close_tlv, close_at, closed_with, put_length, shrink, top_lit,
}
use go_rdx.Iter.{is_first, lit_tuple, lit_term}
use go_rdx.Ident.{RdxId, ron_string}
use go_rdx.Ident.Digits.{ron64}
use go_rdx.Element.{write_rdx}
use go_rdx.Jdr.Actions.{JdrState, first_value}
use go_rdx.Jdr.Actions.Events.{
  Event, first_start, stamp, no_stamp, first_end, open_plex, colon, root, run, parse_start, verdict,
  parse_jdr,
}
use go_rdx.Jdr.Actions.Lexed.{Lexed, between, stops, starts, unnamed, ends, has_colon, whole}
use go_rdx.Jdr.Actions.Parse.{parse_jdr-Lexed}
use go_rdx.Jdr.Actions.Written.{run-first_element}

abbrev no_float : List ℕ → ℕ
no_float text = 0

abbrev one_int : List ℕ → ℤ
one_int text = pos 1

-- `a:b`
abbrev pair : List Event
pair =
    first_start (b'a' ∷ []) lit_term
    ∷ no_stamp
    ∷ first_end
    ∷ colon
    ∷ first_start (b'b' ∷ []) lit_term
    ∷ no_stamp
    ∷ first_end
    ∷ root
    ∷ []

pair-Lexed : Lexed between pair
unfolding is_first
pair-Lexed =
    starts (b'a' ∷ []) lit_term refl (λ e. absurd (ground arith))
      (unnamed (
        ends (
          has_colon (
            starts (b'b' ∷ []) lit_term refl (λ e. absurd (ground arith))
              (unnamed (ends (whole stops)))))))

-- The pair is a tuple of two terms.
pair_run :
    parse_jdr no_float one_int pair
    ≡ ok (b'p' ∷ 9 ∷ 0 ∷ b't' ∷ 2 ∷ 0 ∷ b'a' ∷ b't' ∷ 2 ∷ 0 ∷ b'b' ∷ [], none)
unfolding parse_jdr open_tlv close_tlv close_at closed_with put_length shrink top_lit
pair_run = refl

parse_jdr-Lexed_example :
    (s : JdrState) × (e : Option Error) × (run no_float one_int pair parse_start ≡ ok (s, e))
    × (parse_jdr no_float one_int pair ≡ ok (s.rdx, verdict s.stack e))
    × (((e' : Error) × (verdict s.stack e ≡ some e'))
        ⊎ ((m : Mark) × (s.stack ≡ m ∷ []) × (m.lit ≡ 32)))
parse_jdr-Lexed_example = parse_jdr-Lexed no_float one_int pair pair-Lexed

-- A bracket that is never closed.
open_bracket :
    parse_jdr no_float one_int (open_plex lit_tuple ∷ no_stamp ∷ root ∷ [])
    ≡ ok (lit_tuple ∷ 0 ∷ 0 ∷ 0 ∷ 0 ∷ 0 ∷ [], some bad_jdr_nesting)
unfolding parse_jdr open_tlv
open_bracket = refl

abbrev alice : RdxId
alice = record { src = 0xa; seq = 3 }

run-first_element_example :
    run no_float one_int
      (first_start (b'a' ∷ []) lit_term ∷ stamp (b'@' ∷ b'A' ∷ b'-' ∷ b'3' ∷ []) ∷ first_end ∷ [])
      parse_start
    ≡ ok (
      record {
        rdx = write_rdx [] lit_term alice (b'a' ∷ []);
        stack = record (new_mark 0 32) { pre = b'1' } ∷ [];
        val = b'a' ∷ [];
        line = 0;
      },
      none,
    )
unfolding first_value ron_string ron64
run-first_element_example =
    run-first_element no_float one_int parse_start (new_mark 0 32) [] (b'a' ∷ []) lit_term alice
      (b'a' ∷ []) refl refl (omega arith, omega arith) (omega arith) (omega arith) refl
