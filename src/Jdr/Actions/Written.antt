-- ===== src/Jdr/Actions/Written.antt =====
-- What the actions of a FIRST element write, against WriteRDX.
use go_rdx.Prelude.{
  ℕ, ◌≤◌, ◌<◌, ◌^◌, ◌≡◌, refl, ap, ◌∙◌, arith, true, false, not, ◌&&◌, leb, ◌==◌, List, [], ◌∷◌,
  ◌++◌, length, none, some, ok, ◌>>=◌, slice_from, byte,
}
use go_rdx.Prelude.Int.{ℤ}
use go_rdx.Tlv.{Mark, new_mark, write_tlkv}
use go_rdx.Tlv.Case.{IsUpper}
use go_rdx.Tlv.Nesting.{open_tlv-capital}
use go_rdx.Ident.Texts.{new_id-ron_string}
use go_rdx.Ident.{RdxId, NewIdResult, zip_id, ron_string}
use go_rdx.Element.{write_rdx}
use go_rdx.Element.Nesting.{open_element, close_tlv-element}
use go_rdx.Element.RoundTrip.{length-zip_id}
use go_rdx.Jdr.Actions.{
  JdrState, Acted, inline_tuple, top_mark, on_line, set_pre, set_break, set_element, close_top,
  end_inline, mark_all, on_first0, on_stamp, first_value, on_first,
}
use go_rdx.Jdr.Actions.Events.{first_start, stamp, first_end, act, run}

-- A line that is not an inline tuple to end.
abbrev pub OpenLine : Mark → Type 0
OpenLine m = (m.lit == inline_tuple && not (m.pre == b':')) ≡ false

pub on_first0-line :
    (tok : List ℕ) (lit : ℕ) (s : JdrState) (m : Mark) (ms : List Mark)
    → s.stack ≡ m ∷ ms
    → OpenLine m
    → IsUpper lit
    → on_first0 tok lit s
      ≡ ok (
        record s {
          rdx = s.rdx ++ (lit ∷ 0 ∷ 0 ∷ 0 ∷ 0 ∷ []);
          stack = new_mark (length s.rdx) lit ∷ record m { last_element = length s.rdx } ∷ ms;
          val = tok;
        },
        none,
      )
unfolding on_first0 end_inline top_mark set_element on_line
on_first0-line tok lit s m ms e line up =
    rw (e, line, open_tlv-capital s.rdx lit (record m { last_element = length s.rdx } ∷ ms) up) refl

pub mark_all-line :
    (s : JdrState) (m : Mark) (ms : List Mark)
    → s.stack ≡ m ∷ ms
    → mark_all s
      ≡ ok (record s {
        stack = record m { last_element = length s.rdx; last_break = length s.rdx } ∷ ms;
      })
unfolding mark_all set_element set_break on_line
mark_all-line s m ms e = rw e refl

-- The mark of a FIRST element behind its stamp.
abbrev pub stamped_mark : List ℕ → ℕ → ℕ → Mark
stamped_mark out lit place = record (new_mark (length out) lit) {
  last_break = place;
  last_element = place;
}

abbrev pub naming : RdxId → List ℕ
naming id = byte (length (zip_id id)) ∷ zip_id id

pub on_stamp-line :
    (id : RdxId) (s : JdrState) (out : List ℕ) (lit : ℕ) (ms : List Mark)
    → id.src < 2 ^ 60
    → id.seq < 2 ^ 60
    → s.stack ≡ new_mark (length out) lit ∷ ms
    → on_stamp (b'@' ∷ ron_string id) s
      ≡ ok (
        record s {
          rdx = s.rdx ++ naming id;
          stack = stamped_mark out lit (length (s.rdx ++ naming id)) ∷ ms;
        },
        none,
      )
unfolding on_stamp
on_stamp-line id s out lit ms h k e =
    let fits : leb 1 (length (b'@' ∷ ron_string id)) ≡ true = ground arith in
    let cut : slice_from (b'@' ∷ ron_string id) 1 ≡ ok (ron_string id) = rw fits refl in
    let after : NewIdResult → Acted = λ r. (elim r.error [
      | some e' ↦ ok (s, some e')
      | none ↦ (mark_all (record s { rdx = s.rdx ++ naming r.id }) >>= λ t. ok (t, none))
    ]) in
    let marked =
      mark_all-line (record s { rdx = s.rdx ++ naming id }) (new_mark (length out) lit) ms e in
    rw cut (ap after (new_id-ron_string id h k) ∙ rw marked refl)

module _ (parse_float : List ℕ → ℕ) (parse_int : List ℕ → ℤ) where
  pub on_first-line :
      (s : JdrState) (out : List ℕ) (lit : ℕ) (key bytes : List ℕ) (place : ℕ) (o : Mark)
      (ms : List Mark)
      → s.stack ≡ stamped_mark out lit place ∷ o ∷ ms
      → s.rdx ≡ open_element out lit key
      → first_value parse_float parse_int lit s.val ≡ ok (bytes, none)
      → IsUpper lit
      → length key ≤ 255
      → on_first parse_float parse_int s
        ≡ ok (
          record s { rdx = write_tlkv out lit key bytes; stack = record o { pre = b'1' } ∷ ms },
          none,
        )
  unfolding on_first top_mark close_top set_pre on_line
  on_first-line s out lit key bytes place o ms e e' v up k =
      rw
        (
          e,
          v,
          e',
          e,
          close_tlv-element out lit key bytes (stamped_mark out lit place) (o ∷ ms) up k refl refl,
        )
        refl

  -- The actions of a FIRST element with a stamp, on a line that is not an inline tuple to end, for
  -- an identifier of two 60-bit halves and a token whose value can be read: together they write what
  -- WriteRDX writes for the type, the identifier and the value, and leave the line as it was but for
  -- the place of its last element and the mark that an element precedes.
  pub run-first_element :
      (s : JdrState) (m : Mark) (ms : List Mark) (tok : List ℕ) (lit : ℕ) (id : RdxId)
      (bytes : List ℕ)
      → s.stack ≡ m ∷ ms
      → OpenLine m
      → IsUpper lit
      → id.src < 2 ^ 60
      → id.seq < 2 ^ 60
      → first_value parse_float parse_int lit tok ≡ ok (bytes, none)
      → run parse_float parse_int
          (first_start tok lit ∷ stamp (b'@' ∷ ron_string id) ∷ first_end ∷ [])
          s
        ≡ ok (
          record s {
            rdx = write_rdx s.rdx lit id bytes;
            stack = record m { last_element = length s.rdx; pre = b'1' } ∷ ms;
            val = tok;
          },
          none,
        )
  unfolding run act write_rdx
  run-first_element s m ms tok lit id bytes e line up h k v =
      let outer : Mark = record m { last_element = length s.rdx } in
      let begun : List ℕ = s.rdx ++ (lit ∷ 0 ∷ 0 ∷ 0 ∷ 0 ∷ []) in
      let place = length (begun ++ naming id) in
      let t : JdrState = record s {
        rdx = begun;
        stack = new_mark (length s.rdx) lit ∷ outer ∷ ms;
        val = tok;
      } in
      let u : JdrState = record t {
        rdx = begun ++ naming id;
        stack = stamped_mark s.rdx lit place ∷ outer ∷ ms;
      } in
      let short : length (zip_id id) ≤ 16 = length-zip_id id (omega (arith, h), omega (arith, k)) in
      rw
        (
          on_first0-line tok lit s m ms e line up,
          on_stamp-line id t s.rdx lit (outer ∷ ms) h k refl,
          on_first-line u s.rdx lit (zip_id id) bytes place outer ms refl refl v up
              (omega (arith, short)),
        )
        refl
