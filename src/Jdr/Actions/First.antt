-- ===== src/Jdr/Actions/First.antt =====
-- A FIRST element in the parser: its token is held from its first action to its last.
use go_rdx.Prelude.{
  ℕ, ◌-◌, ◌≤◌, ◌≡◌, refl, sym, ◌∙◌, arith, true, ◌&&◌, leb, ◌==◌, List, ◌∷◌, ◌++◌, length, ok,
  Returns, Returns-bind, Returns-if, drop, byte,
}
use go_rdx.Prelude.Int.{ℤ}
use go_rdx.Tlv.{Mark, new_mark}
use go_rdx.Iter.{is_first, lit_float, lit_integer, lit_reference, lit_string, lit_term}
use go_rdx.Ident.{new_id, zip_id}
use go_rdx.Tlv.Nesting.{open_tlv-capital}
use go_rdx.Element.Docs.{first_letter}
use go_rdx.Jdr.Actions.{
  JdrState, top_mark, close_top, mark_all, on_first0, on_stamp, on_no_stamp, first_value, on_first,
}
use go_rdx.Jdr.Actions.Events.{run}
use go_rdx.Jdr.Actions.Rooted.{
  IsRooted, Keeps, IsRooted-cons, Stays, set_element-Stays, set_break-Stays, close_tlv-pops,
  set_pre-IsRooted, set_break-IsRooted, set_element-IsRooted, end_inline-IsRooted,
}
use go_rdx.Jdr.Actions.Steps.{Returns-error}

-- A FIRST element of the token is open.
pub record Held (tok : List ℕ) (lit : ℕ) (s : JdrState) : Type 0 where
  pub top : Mark
  pub outer : List Mark
  pub lines : s.stack ≡ top ∷ outer
  pub type_of : top.lit ≡ lit
  pub held : s.val ≡ tok
  pub rooted : IsRooted outer
  pub first_type : is_first lit ≡ true
  pub quoted : lit ≡ lit_string → 2 ≤ length tok

Stays-Held :
    (tok : List ℕ) (lit : ℕ) (s t : JdrState) (h : Held tok lit s)
    → Stays s h.top h.outer t
    → Held tok lit t
Stays-Held tok lit s t h v = record {
  top = v.top;
  outer = h.outer;
  lines = v.top_stack;
  type_of = sym v.top_type ∙ h.type_of;
  held = v.top_val ∙ h.held;
  rooted = h.rooted;
  first_type = h.first_type;
  quoted = h.quoted;
}

pub same-Held :
    (tok : List ℕ) (lit : ℕ) (s t : JdrState)
    → Held tok lit s
    → t.stack ≡ s.stack
    → t.val ≡ s.val
    → Held tok lit t
same-Held tok lit s t h e e' = record {
  top = h.top;
  outer = h.outer;
  lines = e ∙ h.lines;
  type_of = h.type_of;
  held = e' ∙ h.held;
  rooted = h.rooted;
  first_type = h.first_type;
  quoted = h.quoted;
}

pub mark_all-Held :
    (tok : List ℕ) (lit : ℕ) (s : JdrState) → Held tok lit s → Returns (Held tok lit) (mark_all s)
unfolding mark_all
mark_all-Held tok lit s h = Returns-bind _ _ (set_element-Stays s h.top h.outer h.lines) (λ t v.
    let h' = Stays-Held tok lit s t h v in
    let (u, run, w) = set_break-Stays t h'.top h'.outer h'.lines in
    (u, run, Stays-Held tok lit t u h' w))

pub mark_all-IsRooted :
    (s : JdrState) → IsRooted s.stack → Returns (λ t. IsRooted t.stack) (mark_all s)
unfolding mark_all
mark_all-IsRooted s h = Returns-bind _ _ (set_element-IsRooted s h) (λ t r. set_break-IsRooted t r)

-- A stamp keeps what marking the line and writing bytes keep.
module _ (Q : JdrState → Type 0) (marks : (s : JdrState) → Q s → Returns Q (mark_all s))
    (writes : (s : JdrState) (bytes : List ℕ) → Q s → Q (record s { rdx = bytes })) where
  pub on_no_stamp-keeps : (s : JdrState) → Q s → Returns (λ (t, e). Q t) (on_no_stamp s)
  unfolding on_no_stamp
  on_no_stamp-keeps s q = Returns-bind _ _ (marks _ (writes s _ q)) (λ t r. (_, refl, r))

  pub on_stamp-keeps :
      (id : List ℕ) (s : JdrState) → 1 ≤ length id → Q s → Returns (λ (t, e). Q t) (on_stamp id s)
  unfolding on_stamp
  on_stamp-keeps id s h q =
      let fits : leb 1 (length id) ≡ true = ground arith in
      let zip = zip_id (new_id (drop 1 id)).id in
      rw fits (
        Returns-error {Q = λ (t, e). Q t} (new_id (drop 1 id)).error (λ e. (_, refl, q))
          (Returns-bind _ _ (marks _ (writes s (s.rdx ++ (byte (length zip) ∷ zip)) q))
            (λ t r. (_, refl, r))))

pub on_first0-Held :
    (tok : List ℕ) (lit : ℕ) (s : JdrState)
    → is_first lit ≡ true
    → (lit ≡ lit_string → 2 ≤ length tok)
    → IsRooted s.stack
    → Returns (λ (t, e). Held tok lit t) (on_first0 tok lit s)
unfolding on_first0
on_first0-Held tok lit s f q h = Returns-bind _ _ (end_inline-IsRooted s h) (λ (t, e) h'.
    Returns-bind _ _ (set_element-IsRooted t h') (λ u r.
      rw (open_tlv-capital u.rdx lit u.stack (first_letter lit f)) (
        _,
        refl,
        record {
          top = new_mark (length u.rdx) lit;
          outer = u.stack;
          lines = refl;
          type_of = refl;
          held = refl;
          rooted = r;
          first_type = f;
          quoted = q;
        },
      )))

top_mark-Held : (tok : List ℕ) (lit : ℕ) (s : JdrState) (h : Held tok lit s) → top_mark s ≡ ok h.top
unfolding top_mark
top_mark-Held tok lit s h = rw h.lines refl

close_top-Held :
    (tok bytes : List ℕ) (lit : ℕ) (s : JdrState) (h : Held tok lit s)
    → IsRooted (close_top h.top.lit (record s { rdx = bytes })).0.stack
unfolding close_top
close_top-Held tok bytes lit s h =
    rw (h.lines, close_tlv-pops bytes h.top.lit h.top h.outer) h.rooted

module _ (parse_float : List ℕ → ℕ) (parse_int : List ℕ → ℤ) where
  -- A string token has its quotes, so its text can be cut out.
  first_value-Returns :
      (lit : ℕ) (val : List ℕ)
      → (lit ≡ lit_string → 2 ≤ length val)
      → Returns (λ r. Unit {0}) (first_value parse_float parse_int lit val)
  unfolding first_value
  first_value-Returns lit val h =
      Returns-if (lit == lit_float) _ _ (λ t. (_, refl, tt))
        (λ t.
          Returns-if (lit == lit_integer) _ _ (λ t. (_, refl, tt))
            (λ t.
              Returns-if (lit == lit_reference) _ _ (λ t. (_, refl, tt))
                (λ t.
                  Returns-if (lit == lit_string) _ _
                    (λ t.
                      let fits : leb 1 (length val - 1) && leb (length val - 1) (length val)
                          ≡ true =
                        ground (arith, t, h) in
                      rw fits (_, refl, tt))
                    (λ t.
                      Returns-if (lit == lit_term) _ _ (λ t. (_, refl, tt)) (λ t. (_, refl, tt))))))

  pub on_first-IsRooted :
      (tok : List ℕ) (lit : ℕ) (s : JdrState)
      → Held tok lit s
      → Returns Keeps (on_first parse_float parse_int s)
  unfolding on_first
  on_first-IsRooted tok lit s h =
      let below : IsRooted s.stack = rw h.lines (IsRooted-cons h.top h.outer h.rooted) in
      rw (top_mark-Held tok lit s h) (
        Returns-bind _ _ (first_value-Returns h.top.lit s.val (rw (h.type_of, h.held) h.quoted))
          (λ (bytes, e) u.
            Returns-error {Q = Keeps} e (λ e'. (_, refl, below))
              (Returns-bind _ _
                (set_pre-IsRooted b'1' (close_top h.top.lit (record s { rdx = s.rdx ++ bytes })).0
                  (close_top-Held tok (s.rdx ++ bytes) lit s h))
                (λ t r. (_, refl, r)))))
