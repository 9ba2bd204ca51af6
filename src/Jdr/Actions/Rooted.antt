-- ===== src/Jdr/Actions/Rooted.antt =====
-- The mark of the document stays at the bottom of the stack of marks, whatever the parser's actions do
-- in an order in which the lexer calls them. So no action reads a line that is not there.
use go_rdx.Prelude.{
  ℕ, ◌≡◌, ◌≢◌, refl, ap, sym, ◌∙◌, arith, true, false, not, ◌&&◌, ltb, ◌==◌, if◌then◌else◌, List,
  [], ◌∷◌, ◌++◌, length, Option, Bool-cases, inl, inr, none, Error, Outcome, ok, ◌>>=◌, Returns,
  Returns-bind, Returns-if,
}
use go_rdx.Tlv.{Mark, new_mark, close_tlv, close_at, closed_with}
use go_rdx.Iter.{lit_tuple}
use go_rdx.Jdr.Actions.{
  JdrState, empty_tuple, inline_tuple, top_mark, on_line, set_pre, set_break, set_element,
  close_top, close_inline_tuple, end_inline, retro_open_tuple, append_empty_tuple,
}

-- The last mark is the document's.
unfoldable pub IsRooted : List Mark → Type 0
IsRooted [] = ⊥
IsRooted (m ∷ []) = m.lit ≡ 32
IsRooted (m ∷ n ∷ ms) = IsRooted (n ∷ ms)

abbrev pub Keeps : JdrState × Option Error → Type 0
Keeps r = IsRooted r.0.stack

pub IsRooted-cons : (m : Mark) (ms : List Mark) → IsRooted ms → IsRooted (m ∷ ms)
unfolding IsRooted
IsRooted-cons m [] h = absurd h
IsRooted-cons m (n ∷ ms) h = h

pub IsRooted-tail : (m : Mark) (ms : List Mark) → m.lit ≢ 32 → IsRooted (m ∷ ms) → IsRooted ms
unfolding IsRooted
IsRooted-tail m [] n h = absurd (n h)
IsRooted-tail m (k ∷ ms) n h = h

pub IsRooted-same :
    (m n : Mark) (ms : List Mark) → m.lit ≡ n.lit → IsRooted (m ∷ ms) → IsRooted (n ∷ ms)
unfolding IsRooted
IsRooted-same m n [] e h = sym e ∙ h
IsRooted-same m n (k ∷ ms) e h = h

-- A stack that the mark of the document ends has a top.
pub IsRooted-top :
    (stack : List Mark) → IsRooted stack → (m : Mark) × (ms : List Mark) × (stack ≡ m ∷ ms)
unfolding IsRooted
IsRooted-top [] h = absurd h
IsRooted-top (m ∷ ms) h = (m, ms, refl)

-- CloseTLV takes one mark off, also when it fails.
pub close_tlv-pops :
    (bytes : List ℕ) (lit : ℕ) (m : Mark) (ms : List Mark)
    → (close_tlv bytes lit (m ∷ ms)).stack ≡ ms
unfolding close_tlv close_at closed_with
close_tlv-pops bytes lit m ms = ground arith

filled : (m : Mark) (ms : List Mark) → (length (m ∷ ms) == 0) ≡ false
filled m ms = ground arith

-- The action changes the top line only, and not its type.
pub record Stays (s : JdrState) (m : Mark) (ms : List Mark) (t : JdrState) : Type 0 where
  pub top : Mark
  pub top_stack : t.stack ≡ top ∷ ms
  pub top_type : m.lit ≡ top.lit
  pub top_val : t.val ≡ s.val

module _ (s : JdrState) (m : Mark) (ms : List Mark) (e : s.stack ≡ m ∷ ms) where
  pub set_pre-Stays : (pre : ℕ) → Returns (Stays s m ms) (set_pre pre s)
  unfolding set_pre on_line
  set_pre-Stays pre = rw e (
    _,
    refl,
    record { top = record m { pre = pre }; top_stack = refl; top_type = refl; top_val = refl },
  )

  pub set_break-Stays : Returns (Stays s m ms) (set_break s)
  unfolding set_break on_line
  set_break-Stays = rw e (
    _,
    refl,
    record {
      top = record m { last_break = length s.rdx };
      top_stack = refl;
      top_type = refl;
      top_val = refl;
    },
  )

  pub set_element-Stays : Returns (Stays s m ms) (set_element s)
  unfolding set_element on_line
  set_element-Stays = rw e (
    _,
    refl,
    record {
      top = record m { last_element = length s.rdx };
      top_stack = refl;
      top_type = refl;
      top_val = refl;
    },
  )

  pub retro_open_tuple-IsRooted :
      (pos : ℕ) → IsRooted (m ∷ ms) → IsRooted (retro_open_tuple pos s).0.stack
  unfolding retro_open_tuple
  retro_open_tuple-IsRooted pos h =
      let put = IsRooted-cons (new_mark pos b'p') (m ∷ ms) h in
      rw (e, filled m ms)
        (elim (Bool-cases (ltb (length s.rdx) pos)) [ inl far ↦ rw far h | inr near ↦ rw near put ])

  -- The state after the top line is set is as good as before.
  pub Stays-IsRooted : (t : JdrState) → Stays s m ms t → IsRooted (m ∷ ms) → IsRooted t.stack
  Stays-IsRooted t v h = rw v.top_stack (IsRooted-same m v.top ms v.top_type h)

  pub append_empty_tuple-IsRooted :
      IsRooted (m ∷ ms) → Returns (λ t. IsRooted t.stack) (append_empty_tuple s)
  unfolding append_empty_tuple set_pre on_line
  append_empty_tuple-IsRooted h = rw e (_, refl, IsRooted-same m _ ms refl h)

IsRooted-line :
    (s : JdrState)
    → IsRooted s.stack
    → (m : Mark) × (ms : List Mark) × (s.stack ≡ m ∷ ms) × IsRooted (m ∷ ms)
IsRooted-line s h = let (m, ms, e) = IsRooted-top s.stack h in (m, ms, e, rw⁻¹ e h)

pub top_mark-IsRooted :
    (s : JdrState)
    → IsRooted s.stack
    → Returns (λ m. (ms : List Mark) × (s.stack ≡ m ∷ ms) × IsRooted (m ∷ ms)) (top_mark s)
unfolding top_mark
top_mark-IsRooted s h = let (m, ms, e, r) = IsRooted-line s h in (m, rw e refl, (ms, e, r))

-- An action that changes the top line only.
pub line-IsRooted :
    (s : JdrState) (act : JdrState → Outcome JdrState)
    → ((m : Mark) (ms : List Mark) → s.stack ≡ m ∷ ms → Returns (Stays s m ms) (act s))
    → IsRooted s.stack
    → Returns (λ t. IsRooted t.stack) (act s)
line-IsRooted s act stays h =
    let (m, ms, e, r) = IsRooted-line s h in
    let (t, run, v) = stays m ms e in (t, run, Stays-IsRooted s m ms e t v r)

pub set_pre-IsRooted :
    (pre : ℕ) (s : JdrState) → IsRooted s.stack → Returns (λ t. IsRooted t.stack) (set_pre pre s)
set_pre-IsRooted pre s = line-IsRooted s (set_pre pre) (λ m ms e. set_pre-Stays s m ms e pre)

pub set_break-IsRooted :
    (s : JdrState) → IsRooted s.stack → Returns (λ t. IsRooted t.stack) (set_break s)
set_break-IsRooted s = line-IsRooted s set_break (set_break-Stays s)

pub set_element-IsRooted :
    (s : JdrState) → IsRooted s.stack → Returns (λ t. IsRooted t.stack) (set_element s)
set_element-IsRooted s = line-IsRooted s set_element (set_element-Stays s)

pub empty-IsRooted :
    (s : JdrState) → IsRooted s.stack → Returns (λ t. IsRooted t.stack) (append_empty_tuple s)
empty-IsRooted s h = let (m, ms, e, r) = IsRooted-line s h in append_empty_tuple-IsRooted s m ms e r

pub retro-IsRooted :
    (pos : ℕ) (s : JdrState) → IsRooted s.stack → IsRooted (retro_open_tuple pos s).0.stack
retro-IsRooted pos s h =
    let (m, ms, e, r) = IsRooted-line s h in retro_open_tuple-IsRooted s m ms e pos r

-- The state that comes with no error.
pub fine-IsRooted :
    (m : Outcome JdrState)
    → Returns (λ t. IsRooted t.stack) m
    → Returns Keeps (m >>= λ t. ok (t, none))
fine-IsRooted m h = Returns-bind _ _ h (λ t r. (_, refl, r))

-- The line that an inline tuple stood on is marked.
tidied-IsRooted :
    (s : JdrState) (e : Option Error)
    → IsRooted s.stack
    → Returns Keeps (set_break s >>= λ t. set_pre b'p' t >>= λ u. ok (u, e))
tidied-IsRooted s e h =
    Returns-bind _ _ (set_break-IsRooted s h)
      (λ t r. Returns-bind _ _ (set_pre-IsRooted b'p' t r) (λ u q. (_, refl, q)))

-- An inline tuple that is closed leaves the line it stands on.
close_inline_tuple-IsRooted :
    (s : JdrState) (m k : Mark) (ks : List Mark)
    → s.stack ≡ m ∷ k ∷ ks
    → IsRooted (k ∷ ks)
    → Returns Keeps (close_inline_tuple s)
unfolding close_inline_tuple top_mark close_top
close_inline_tuple-IsRooted s m k ks e h =
    let bytes : List ℕ = if m.pre == b':' then s.rdx ++ empty_tuple else s.rdx in
    let left : JdrState = record s {
      rdx = (close_tlv bytes lit_tuple (m ∷ k ∷ ks)).out;
      stack = k ∷ ks;
    } in
    rw (e, close_tlv-pops bytes lit_tuple m (k ∷ ks), filled k ks)
      (tidied-IsRooted left (close_tlv bytes lit_tuple (m ∷ k ∷ ks)).error h)

-- An inline tuple is not the document.
pub inline-IsRooted :
    (s : JdrState) (m : Mark) (ms : List Mark)
    → s.stack ≡ m ∷ ms
    → IsRooted (m ∷ ms)
    → (m.lit == inline_tuple) ≡ true
    → Returns Keeps (close_inline_tuple s)
inline-IsRooted s m ms e h t =
    let below = IsRooted-tail m ms (ground (arith, t)) h in
    let (k, ks, e') = IsRooted-top ms below in
    close_inline_tuple-IsRooted s m k ks (e ∙ ap (λ ns. m ∷ ns) e') (rw⁻¹ e' below)

pub end_inline-IsRooted : (s : JdrState) → IsRooted s.stack → Returns Keeps (end_inline s)
unfolding end_inline
end_inline-IsRooted s h = Returns-bind _ _ (top_mark-IsRooted s h) (λ m (ms, e, r).
    Returns-if (m.lit == inline_tuple && not (m.pre == b':')) _ _
      (λ t. inline-IsRooted s m ms e r (ground (arith, t))) (λ t. (_, refl, h)))
