-- ===== src/Jdr/Actions/Steps.antt =====
-- Every action of the parser but those of a FIRST token, in a state in which the mark of the document
-- is at the bottom of the stack, returns such a state.
use go_rdx.Prelude.{
  ℕ, ◌≡◌, ◌≢◌, refl, arith, Bool, true, false, not, ◌||◌, ltb, ◌≤◌, ◌==◌, if◌then◌else◌, List, [],
  ◌∷◌, length, Option, none, some, Error, ok, ◌>>=◌, Returns, Returns-bind, Returns-if, bad_state,
  bad_jdr_nesting,
}
use go_rdx.Tlv.{Mark, new_mark, close_tlv}
use go_rdx.Tlv.Nesting.{open_tlv-capital}
use go_rdx.Tlv.Case.{IsUpper}
use go_rdx.Iter.{is_plex}
use go_rdx.Jdr.Actions.{
  JdrState, Acted, inline_tuple, set_break, close_top, close_inline_tuple, retro_opened,
  retro_open_tuple, on_utf8cp2, on_utf8cp3, on_semicolon, on_open_plex, on_close_plex, on_comma,
  on_colon, on_root,
}
use go_rdx.Jdr.Actions.Rooted.{
  IsRooted, Keeps, IsRooted-cons, IsRooted-tail, close_tlv-pops, top_mark-IsRooted, inline-IsRooted,
  end_inline-IsRooted, set_pre-IsRooted, set_break-IsRooted, set_element-IsRooted, empty-IsRooted,
  retro-IsRooted, fine-IsRooted,
}

pub on_root-IsRooted : (s : JdrState) → IsRooted s.stack → Returns Keeps (on_root s)
unfolding on_root
on_root-IsRooted s h = Returns-bind _ _ (top_mark-IsRooted s h) (λ m (ms, e, r).
    Returns-if (m.lit == inline_tuple) _ _ (λ t. inline-IsRooted s m ms e r t) (λ t. (_, refl, h)))

pub on_colon-IsRooted : (s : JdrState) → IsRooted s.stack → Returns Keeps (on_colon s)
unfolding on_colon
on_colon-IsRooted s h = Returns-bind _ _ (top_mark-IsRooted s h) (λ m (ms, e, r).
    Returns-bind {Q = Keeps} _ _
      (Returns-if (not (m.lit == inline_tuple)) _ _ (λ t. (_, refl, retro-IsRooted _ s h))
        (λ t.
          Returns-if (m.pre == 0 || m.pre == b':') _ _ (λ t'. fine-IsRooted _ (empty-IsRooted s h))
            (λ t'. (_, refl, h))))
      (λ (t, e') r'. Returns-bind _ _ (set_pre-IsRooted b':' t r') (λ u q. (_, refl, q))))

pub on_comma-IsRooted : (s : JdrState) → IsRooted s.stack → Returns Keeps (on_comma s)
unfolding on_comma
on_comma-IsRooted s h = Returns-bind _ _ (top_mark-IsRooted s h) (λ m (ms, e, r).
    Returns-bind {Q = Keeps} _ _
      (Returns-if (m.lit == inline_tuple) _ _ (λ t. inline-IsRooted s m ms e r t)
        (λ t. (_, refl, h)))
      (λ (t, e') h'. Returns-bind _ _ (top_mark-IsRooted t h') (λ o below.
        Returns-bind {Q = λ (u : JdrState). IsRooted u.stack} _ _
          (Returns-if (o.pre == 0 || (o.pre == b',' || o.pre == b';')) _ _
            (λ t'. empty-IsRooted t h') (λ t'. (_, refl, h')))
          (λ u h''.
            Returns-bind _ _ (set_break-IsRooted u h'')
              (λ v q. Returns-bind _ _ (set_pre-IsRooted b',' v q) (λ w q'. (_, refl, q')))))))

-- After an action that may return an error.
pub Returns-error {κ} :
    {Q : JdrState × Option Error → Type κ} (e : Option Error) {m : Error → Acted} {n : Acted}
    → ((e' : Error) → Returns Q (m e'))
    → Returns Q n
    → Returns Q (elim e [ some e' ↦ m e' | none ↦ n ])
Returns-error none bad fine_ = fine_
Returns-error (some e) bad fine_ = bad e

-- An inline tuple is on top, or there is an error.
Opened : JdrState × Option Error → Type 0
Opened (s, some e) = IsRooted s.stack
Opened (s, none) =
    (m : Mark) × (ms : List Mark) × (s.stack ≡ m ∷ ms)
    × IsRooted (m ∷ ms)
    × ((m.lit == inline_tuple) ≡ true)

Opened-if :
    (test : Bool) (r r' : JdrState × Option Error)
    → (test ≡ true → Opened r)
    → (test ≡ false → Opened r')
    → Opened (if test then r else r')
Opened-if true r r' yes_ no_ = yes_ refl
Opened-if false r r' yes_ no_ = no_ refl

Opened-error : (s : JdrState) (e : Error) → IsRooted s.stack → Opened (s, some e)
unfolding Opened
Opened-error s e h = h

Opened-top :
    (s : JdrState) (m : Mark) (ms : List Mark)
    → s.stack ≡ m ∷ ms
    → IsRooted (m ∷ ms)
    → (m.lit == inline_tuple) ≡ true
    → Opened (s, none)
unfolding Opened
Opened-top s m ms e h t = (m, ms, e, h, t)

retro_open_tuple-Opened :
    (pos : ℕ) (s : JdrState) → IsRooted s.stack → Opened (retro_open_tuple pos s)
unfolding retro_open_tuple retro_opened
retro_open_tuple-Opened pos s h =
    Opened-if (length s.stack == 0) (s, some bad_jdr_nesting)
      (if ltb (length s.rdx) pos then (s, some bad_state) else (retro_opened pos s, none))
      (λ empty. Opened-error s bad_jdr_nesting h)
      (λ lines.
        Opened-if (ltb (length s.rdx) pos) (s, some bad_state) (retro_opened pos s, none)
          (λ far. Opened-error s bad_state h)
          (λ near.
            Opened-top (retro_opened pos s) (new_mark pos b'p') s.stack refl
              (IsRooted-cons (new_mark pos b'p') s.stack h) refl))

semicolon-IsRooted :
    (s : JdrState) (m : Mark) (ms : List Mark)
    → s.stack ≡ m ∷ ms
    → IsRooted (m ∷ ms)
    → (m.lit == inline_tuple) ≡ true
    → Returns Keeps (
        close_inline_tuple s >>= λ (t, e). elim e [
          | some e' ↦ ok (t, some e')
          | none ↦ (set_break t >>= λ u. ok (u, none))
        ])
semicolon-IsRooted s m ms e r t =
    Returns-bind {Q = Keeps} _ _ (inline-IsRooted s m ms e r t) (λ (u, e') h.
      Returns-error e' (λ e''. (_, refl, h)) (fine-IsRooted _ (set_break-IsRooted u h)))

after_opening :
    (r : JdrState × Option Error)
    → Opened r
    → Returns Keeps (elim r.1 [
      | some e ↦ ok (r.0, some e)
      | none ↦ close_inline_tuple r.0 >>= λ (t, e). elim e [
        | some e' ↦ ok (t, some e')
        | none ↦ (set_break t >>= λ u. ok (u, none))
      ]
    ])
unfolding Opened
after_opening (s, some e) h = (_, refl, h)
after_opening (s, none) (m, ms, e, r, t) = semicolon-IsRooted s m ms e r t

pub on_semicolon-IsRooted : (s : JdrState) → IsRooted s.stack → Returns Keeps (on_semicolon s)
unfolding on_semicolon
on_semicolon-IsRooted s h = Returns-bind _ _ (top_mark-IsRooted s h) (λ m (ms, e, r).
    after_opening (if m.lit == inline_tuple then (s, none) else retro_open_tuple m.last_break s) (
      Opened-if _ _ _ (λ t. Opened-top s m ms e r t)
        (λ t. retro_open_tuple-Opened m.last_break s h)))

pub on_open_plex-IsRooted :
    (plex : ℕ) (s : JdrState)
    → IsUpper plex
    → IsRooted s.stack
    → Returns Keeps (on_open_plex plex s)
unfolding on_open_plex
on_open_plex-IsRooted plex s up h =
    Returns-bind {Q = Keeps} _ _ (end_inline-IsRooted s h) (λ (t, e) h'.
      Returns-error e (λ e'. (_, refl, h'))
        (Returns-bind _ _ (set_element-IsRooted t h') (λ u q.
          rw (open_tlv-capital u.rdx plex u.stack up) (
            fine-IsRooted _
              (set_pre-IsRooted 0 _ (IsRooted-cons (new_mark (length u.rdx) plex) u.stack q))))))

-- The letter of a container is not the document's.
is_plex-below : (lit top : ℕ) → not (is_plex lit) || not (lit == top) ≡ false → top ≢ 32
unfolding is_plex
is_plex-below lit top h e = ground (arith, e, h)

closed-IsRooted :
    (bytes : List ℕ) (lit : ℕ) (m : Mark) (ms stack : List Mark)
    → stack ≡ m ∷ ms
    → IsRooted (m ∷ ms)
    → m.lit ≢ 32
    → IsRooted (close_tlv bytes lit stack).stack
closed-IsRooted bytes lit m ms stack e h n =
    rw (e, close_tlv-pops bytes lit m ms) (IsRooted-tail m ms n h)

pub on_close_plex-IsRooted :
    (lit : ℕ) (s : JdrState) → IsRooted s.stack → Returns Keeps (on_close_plex lit s)
unfolding on_close_plex close_top
on_close_plex-IsRooted lit s h = Returns-bind _ _ (top_mark-IsRooted s h) (λ m (ms, e, r).
    Returns-bind {Q = Keeps} _ _
      (Returns-if (m.lit == inline_tuple) _ _ (λ t. inline-IsRooted s m ms e r t)
        (λ t.
          Returns-if (m.pre == b',') _ _ (λ t'. fine-IsRooted _ (empty-IsRooted s h))
            (λ t'. (_, refl, h))))
      (λ (t, e') h'. Returns-bind _ _ (top_mark-IsRooted t h') (λ o (below, e'', q).
        Returns-if (not (is_plex lit) || not (lit == o.lit)) _ _ (λ bad. (_, refl, h'))
          (λ good.
            Returns-error e' (λ x. (_, refl, h'))
              (Returns-bind _ _
                (set_pre-IsRooted lit _
                  (closed-IsRooted t.rdx lit o below t.stack e'' q (is_plex-below lit o.lit good)))
                (λ u p. (_, refl, p)))))))

pub on_utf8cp2-IsRooted :
    (tok : List ℕ) (s : JdrState)
    → 2 ≤ length tok
    → IsRooted s.stack
    → Returns Keeps (on_utf8cp2 tok s)
unfolding on_utf8cp2
on_utf8cp2-IsRooted (a ∷ b ∷ tok) s h r = (_, refl, r)
on_utf8cp2-IsRooted (a ∷ []) s h r = absurd (omega arith)
on_utf8cp2-IsRooted [] s h r = absurd (omega arith)

pub on_utf8cp3-IsRooted :
    (tok : List ℕ) (s : JdrState)
    → 3 ≤ length tok
    → IsRooted s.stack
    → Returns Keeps (on_utf8cp3 tok s)
unfolding on_utf8cp3
on_utf8cp3-IsRooted (a ∷ b ∷ c ∷ tok) s h r = (_, refl, r)
on_utf8cp3-IsRooted (a ∷ b ∷ []) s h r = absurd (omega arith)
on_utf8cp3-IsRooted (a ∷ []) s h r = absurd (omega arith)
on_utf8cp3-IsRooted [] s h r = absurd (omega arith)
