-- ===== src/Jdr/Printer/Parsed.antt =====
-- The parser's run on the calls for a printed document.
use go_rdx.Prelude.{
  ℕ, ◌≤◌, ◌≡◌, refl, arith, true, false, ◌||◌, ◌==◌, List, [], ◌∷◌, ◌++◌, length, none, ok, inl,
  inr, Bool-cases,
}
use go_rdx.Prelude.Int.{ℤ}
use go_rdx.ZipInt.{zip_uint64_pair}
use go_rdx.Ident.{RdxId, zip_id, is_zero}
use go_rdx.Tlv.{Mark, new_mark, write_tlkv}
use go_rdx.Tlv.Case.{IsUpper}
use go_rdx.Tlv.Nesting.{open_tlv-capital}
use go_rdx.Iter.{is_plex}
use go_rdx.Element.Nesting.{open_element, close_tlv-element}
use go_rdx.Element.RoundTrip.{length-zip_id}
use go_rdx.Element.Docs.{plex_letter}
use go_rdx.Jdr.Actions.{
  JdrState, inline_tuple, first_value, top_mark, on_line, set_pre, set_break, set_element,
  close_top, end_inline, on_no_stamp, on_open_plex, on_close_plex, on_comma,
}
use go_rdx.Jdr.Actions.Events.{
  Event, first_start, first_end, open_plex, close_plex, comma, act, run,
}
use go_rdx.Jdr.Actions.Written.{
  OpenLine, stamped_mark, naming, on_first0-line, mark_all-line, on_stamp-line, on_first-line,
}
use go_rdx.Jdr.Printer.Calls.{IsShort, stamp_of}

naming-zero : (id : RdxId) → is_zero id ≡ true → naming id ≡ 0 ∷ []
unfolding is_zero zip_id zip_uint64_pair
naming-zero id z =
    let src : id.src ≡ 0 = ground (arith, z) in
    let seq : id.seq ≡ 0 = ground (arith, z) in rw (src, seq) refl

on_no_stamp-line :
    (id : RdxId) (s : JdrState) (out : List ℕ) (lit : ℕ) (ms : List Mark)
    → is_zero id ≡ true
    → s.stack ≡ new_mark (length out) lit ∷ ms
    → on_no_stamp s
      ≡ ok (
        record s {
          rdx = s.rdx ++ naming id;
          stack = stamped_mark out lit (length (s.rdx ++ naming id)) ∷ ms;
        },
        none,
      )
unfolding on_no_stamp
on_no_stamp-line id s out lit ms z e =
    rw
      (
        naming-zero id z,
        mark_all-line (record s { rdx = s.rdx ++ (0 ∷ []) }) (new_mark (length out) lit) ms e,
      )
      refl

module _ (parse_float : List ℕ → ℕ) (parse_int : List ℕ → ℤ) where
  act_stamp :
      (id : RdxId) (s : JdrState) (out : List ℕ) (lit : ℕ) (ms : List Mark)
      → IsShort id
      → s.stack ≡ new_mark (length out) lit ∷ ms
      → act parse_float parse_int (stamp_of id) s
        ≡ ok (
          record s {
            rdx = s.rdx ++ naming id;
            stack = stamped_mark out lit (length (s.rdx ++ naming id)) ∷ ms;
          },
          none,
        )
  unfolding act
  act_stamp id s out lit ms (h, k) e = elim (Bool-cases (is_zero id)) [
    | inl z ↦ rw z (on_no_stamp-line id s out lit ms z e)
    | inr z ↦ rw z (on_stamp-line id s out lit ms h k e)
  ]

  pub run_first :
      (s : JdrState) (m : Mark) (ms : List Mark) (tok : List ℕ) (lit : ℕ) (id : RdxId)
      (bytes : List ℕ) (more : List Event)
      → s.stack ≡ m ∷ ms
      → (m.lit == inline_tuple) ≡ false
      → IsUpper lit
      → IsShort id
      → first_value parse_float parse_int lit tok ≡ ok (bytes, none)
      → run parse_float parse_int (first_start tok lit ∷ stamp_of id ∷ first_end ∷ more) s
        ≡ run parse_float parse_int more (record s {
          rdx = write_tlkv s.rdx lit (zip_id id) bytes;
          stack = record m { last_element = length s.rdx; pre = b'1' } ∷ ms;
          val = tok;
        })
  unfolding run act
  run_first s m ms tok lit id bytes more e line up i v =
      let outer : Mark = record m { last_element = length s.rdx } in
      let begun : List ℕ = s.rdx ++ (lit ∷ 0 ∷ 0 ∷ 0 ∷ 0 ∷ []) in
      let place = length (begun ++ naming id) in
      let t : JdrState = record s {
        rdx = begun;
        stack = new_mark (length s.rdx) lit ∷ outer ∷ ms;
        val = tok;
      } in
      let u : JdrState = record t {
        rdx = begun ++ naming id;
        stack = stamped_mark s.rdx lit place ∷ outer ∷ ms;
      } in
      let plain : OpenLine m = ground (arith, line) in
      let short : length (zip_id id) ≤ 16 = length-zip_id id (omega (arith, i), omega (arith, i)) in
      rw
        (
          on_first0-line tok lit s m ms e plain up,
          act_stamp id t s.rdx lit (outer ∷ ms) i refl,
          on_first-line parse_float parse_int u s.rdx lit (zip_id id) bytes place outer ms refl refl
              v up (omega (arith, short)),
        )
        refl

  pub run_open :
      (s : JdrState) (m : Mark) (ms : List Mark) (lit : ℕ) (id : RdxId) (more : List Event)
      → s.stack ≡ m ∷ ms
      → (m.lit == inline_tuple) ≡ false
      → IsUpper lit
      → IsShort id
      → run parse_float parse_int (open_plex lit ∷ stamp_of id ∷ more) s
        ≡ run parse_float parse_int more (record s {
          rdx = open_element s.rdx lit (zip_id id);
          stack =
              stamped_mark s.rdx lit (length (open_element s.rdx lit (zip_id id)))
              ∷ record m { last_element = length s.rdx }
              ∷ ms;
        })
  unfolding run act on_open_plex end_inline top_mark set_element set_pre on_line
  run_open s m ms lit id more e line up i =
      let outer : Mark = record m { last_element = length s.rdx } in
      let begun : List ℕ = s.rdx ++ (lit ∷ 0 ∷ 0 ∷ 0 ∷ 0 ∷ []) in
      let t : JdrState = record s {
        rdx = begun;
        stack = new_mark (length s.rdx) lit ∷ outer ∷ ms;
      } in
      rw (e, line, open_tlv-capital s.rdx lit (outer ∷ ms) up)
        (rw (act_stamp id t s.rdx lit (outer ∷ ms) i refl) refl)

  pub run_close :
      (s : JdrState) (m o : Mark) (ms : List Mark) (out : List ℕ) (lit : ℕ) (key bytes : List ℕ)
      (more : List Event)
      → s.stack ≡ m ∷ o ∷ ms
      → s.rdx ≡ open_element out lit key ++ bytes
      → m.start ≡ length out
      → m.lit ≡ lit
      → (m.pre == b',') ≡ false
      → is_plex lit ≡ true
      → length key ≤ 255
      → run parse_float parse_int (close_plex lit ∷ more) s
        ≡ run parse_float parse_int more
            (record s { rdx = write_tlkv out lit key bytes; stack = record o { pre = lit } ∷ ms })
  unfolding run act on_close_plex top_mark close_top set_pre on_line
  run_close s m o ms out lit key bytes more e e' start of no_comma p k =
      let line : (m.lit == inline_tuple) ≡ false = unfold is_plex in ground (arith, p, of) in
      let same : (lit == m.lit) ≡ true = ground (arith, of) in
      rw (e, line, no_comma)
        (rw (p, same)
          (rw (e', close_tlv-element out lit key bytes m (o ∷ ms) (plex_letter lit p) k start of)
            refl))

  pub run_comma :
      (s : JdrState) (m : Mark) (ms : List Mark) (more : List Event)
      → s.stack ≡ m ∷ ms
      → (m.lit == inline_tuple) ≡ false
      → (m.pre == 0 || (m.pre == b',' || m.pre == b';')) ≡ false
      → run parse_float parse_int (comma ∷ more) s
        ≡ run parse_float parse_int more
            (record s { stack = record m { last_break = length s.rdx; pre = b',' } ∷ ms })
  unfolding run act on_comma top_mark set_break set_pre on_line
  run_comma s m ms more e line pre = rw (e, line, pre) refl
