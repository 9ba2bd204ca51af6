-- ===== src/Jdr/Printer/Spelling.antt =====
-- WriteJDR writes the texts of the calls.
use go_rdx.Prelude.{
  ℕ, suc, ◌+◌, ◌<◌, ◌^◌, ◌≡◌, refl, ap, ◌∙◌, arith, Bool, true, false, not, ◌&&◌, ◌||◌, leb, ◌==◌,
  if◌then◌else◌, List, [], ◌∷◌, ◌++◌, length, ◌⊎◌, append_assoc, Option, none, Error, Outcome, ok,
  inl, inr, Bool-cases,
}
use go_rdx.Prelude.Int.{ℤ}
use go_rdx.Iter.{is_first, is_plex, lit_tuple, lit_linear, lit_euler, lit_multix}
use go_rdx.Ident.{RdxId, is_zero}
use go_rdx.Element.{RdxRead, write_rdx}
use go_rdx.Element.RoundTrip.{read_rdx-write_rdx}
use go_rdx.Element.Docs.{Doc, end, leaf, node, print, IsWhole, first_letter, plex_letter}
use go_rdx.Jdr.{append_jdr_stamp}
use go_rdx.Ident.Order.{IsId}
use go_rdx.Jdr.Actions.Events.{first_start, first_end}
use go_rdx.Jdr.Printer.{
  Printed, deeper, comma_after, jdr_list_loop, append_jdr_list, with_between, first_text,
  in_brackets, write_read, write_jdr,
}
use go_rdx.Jdr.Printer.Calls.{
  Calls, call, token_text, text, gap, comma_before, stamp_of, stamp_space, opening, closing, count,
  are_first, inlined,
}
use go_rdx.Jdr.Printer.FirstTuples.{
  no_trailing, no_brackets, no_breaks, full, is_tuple_all_first-print,
}

-- What the loop writes between an element and the rest.
abbrev pub glue : Bool → Doc → List ℕ → List ℕ
glue top end out = out
glue top (leaf lit id val rest) out = out ++ ((if top then 32 else b',') ∷ [])
glue top (node lit id inside rest) out = out ++ ((if top then 32 else b',') ∷ [])

pub glue-text :
    (top : Bool) (d : Doc) (out : List ℕ) (more : Calls)
    → glue top d out ++ text more ≡ out ++ (gap top d ++ text (comma_before top d more))
glue-text top end out more = refl
glue-text true (leaf lit id val rest) out more = append_assoc out _ _
glue-text false (leaf lit id val rest) out more = append_assoc out _ _
glue-text true (node lit id inside rest) out more = append_assoc out _ _
glue-text false (node lit id inside rest) out more = append_assoc out _ _

-- The loop at the top, and the loop of a container.
abbrev pub loop :
    Bool
    → (List ℕ → List ℕ → ℕ → Outcome Printed)
    → ℕ
    → List ℕ
    → List ℕ
    → ℕ
    → Outcome (List ℕ × Option Error)
loop true write n jdr rdx style = with_between write n 32 jdr rdx style
loop false write n jdr rdx style = jdr_list_loop write n jdr rdx style

module _ (write : List ℕ → List ℕ → ℕ → Outcome Printed) (n style : ℕ) (small : style < 256) where
  pub loop-end : (top : Bool) (jdr : List ℕ) → loop top write (suc n) jdr [] style ≡ ok (jdr, none)
  unfolding with_between jdr_list_loop
  loop-end true jdr = refl
  loop-end false jdr = refl

  glued :
      (top : Bool) (rest : Doc) (out : List ℕ)
      → (if top
          then (if length (print rest) == 0 then out else out ++ (32 ∷ []))
          else (if not (length (print rest) == 0) || false then out ++ (b',' ∷ []) else out))
        ≡ glue top rest out
  unfolding print
  glued true end out = refl
  glued false end out = refl
  glued true (leaf lit id val rest) out = rw (full lit id val (print rest)) refl
  glued false (leaf lit id val rest) out = rw (full lit id val (print rest)) refl
  glued true (node lit id inside rest) out = rw (full lit id (print inside) (print rest)) refl
  glued false (node lit id inside rest) out = rw (full lit id (print inside) (print rest)) refl

  pub loop-next :
      (top : Bool) (jdr rdx out : List ℕ) (rest : Doc)
      → (length rdx == 0) ≡ false
      → write jdr rdx style ≡ ok (record { text = out; rest = print rest; error = none })
      → loop top write (suc n) jdr rdx style
        ≡ loop top write n (glue top rest out) (print rest) style
  unfolding with_between jdr_list_loop comma_after
  loop-next true jdr rdx out rest some_bytes w =
      rw (some_bytes, w) (ap (λ t. loop true write n t (print rest) style) (glued true rest out))
  loop-next false jdr rdx out rest some_bytes w =
      rw (some_bytes, w)
        (rw (no_trailing style small, no_breaks style small)
          (ap (λ t. loop false write n t (print rest) style) (glued false rest out)))

stamp-text :
    (id : RdxId) (jdr t : List ℕ)
    → append_jdr_stamp jdr id ++ t ≡ jdr ++ (token_text (stamp_of id) ++ t)
unfolding append_jdr_stamp
stamp-text id jdr t = elim (Bool-cases (is_zero id)) [
  | inl z ↦ rw z refl
  | inr z ↦ rw z (append_assoc jdr _ t)
]

-- The text before the elements of a container.
abbrev pub headed : List ℕ → ℕ → RdxId → List ℕ
headed jdr oc id =
    let bracket = jdr ++ (oc ∷ []) in
    if is_zero id then bracket else append_jdr_stamp bracket id ++ (32 ∷ [])

pub headed-text :
    (jdr : List ℕ) (oc : ℕ) (id : RdxId) (t : List ℕ)
    → headed jdr oc id ++ t ≡ jdr ++ (oc ∷ (token_text (stamp_of id) ++ (stamp_space id ++ t)))
unfolding append_jdr_stamp
headed-text jdr oc id t = elim (Bool-cases (is_zero id)) [
  | inl z ↦ rw z (append_assoc jdr _ t)
  | inr z ↦ rw z (simp append_assoc)
]

module _ (format_float : ℕ → List ℕ) (format_int : ℤ → List ℕ) where
  pub first-text :
      (lit : ℕ) (id : RdxId) (val jdr : List ℕ) (space : List ℕ) (more : Calls)
      → append_jdr_stamp (jdr ++ first_text format_float format_int lit val) id
          ++ (space ++ text more)
        ≡ jdr
          ++ text (
              call
                (first_start (first_text format_float format_int lit val) lit)
                []
                (call (stamp_of id) [] (call first_end space more)))
  first-text lit id val jdr space more = stamp-text id _ (space ++ text more) ∙ append_assoc jdr _ _

  pub write_jdr-first :
      (depth fuel : ℕ) (jdr : List ℕ) (lit : ℕ) (id : RdxId) (val tail : List ℕ) (style : ℕ)
      → is_first lit ≡ true
      → IsId id
      → length val + 17 < 2 ^ 30
      → write_jdr format_float format_int
          (suc depth)
          fuel
          jdr
          (write_rdx [] lit id val ++ tail)
          style
        ≡ ok (record {
          text = append_jdr_stamp (jdr ++ first_text format_float format_int lit val) id;
          rest = tail;
          error = none;
        })
  unfolding write_jdr write_read is_first
  write_jdr-first depth fuel jdr lit id val tail style f i fits =
      rw (read_rdx-write_rdx lit id val tail (first_letter lit f) i (omega arith), f) refl

  module _ (write : List ℕ → List ℕ → ℕ → Outcome Printed) (fuel : ℕ) (jdr : List ℕ) (lit : ℕ)
      (id : RdxId) (inside : Doc) (tail : List ℕ) (style : ℕ) (out : List ℕ)
      (p : is_plex lit ≡ true) (w : IsWhole inside) (few : count inside < fuel)
      (br : inlined lit id inside ≡ false) (shallow : style + 1 < 256)
      (filled : jdr_list_loop write fuel (headed jdr (opening lit) id) (print inside) (style + 1)
        ≡ ok (out, none)) where
    bracketed :
        in_brackets format_float format_int
          (append_jdr_list write fuel)
          (opening lit)
          (closing lit)
          jdr
          id
          (print inside)
          style
        ≡ ok (out ++ (closing lit ∷ []), none)
    unfolding in_brackets append_jdr_list
    bracketed =
        let next : deeper style ≡ style + 1 = omega arith in
        rw (next, filled, no_breaks (style + 1) shallow) refl

    abbrev read_of : RdxRead
    read_of = record { lit = lit; id = id; value = print inside; rest = tail; error = none }

    not_inlined :
        (lit == lit_tuple) ≡ true
        → (not (are_first inside && leb 2 (count inside)) || not (is_zero id)) ≡ true
    not_inlined t = ground (arith, t, br)

    plex_cases : (lit ≡ lit_tuple) ⊎ ((lit ≡ lit_linear) ⊎ ((lit ≡ lit_euler) ⊎ (lit ≡ lit_multix)))
    unfolding is_plex
    plex_cases = ground (arith, p)

    write_read-plex :
        write_read format_float format_int write fuel jdr read_of style
        ≡ ok (out ++ (closing lit ∷ []), none)
    unfolding write_read
    write_read-plex = elim plex_cases [
      | inl t ↦
          rw
            (
              t,
              no_brackets style (omega arith),
              is_tuple_all_first-print inside fuel w few,
              not_inlined (ground (arith, t)),
            )
            (rw t at bracketed)
      | inr (inl l) ↦ rw l (rw l at bracketed)
      | inr (inr (inl e)) ↦ rw e (rw e at bracketed)
      | inr (inr (inr m)) ↦ rw m (rw m at bracketed)
    ]

  pub write_jdr-plex :
      (depth fuel : ℕ) (jdr : List ℕ) (lit : ℕ) (id : RdxId) (inside : Doc) (tail : List ℕ)
      (style : ℕ) (out : List ℕ)
      → is_plex lit ≡ true
      → IsId id
      → length (print inside) + 17 < 2 ^ 30
      → IsWhole inside
      → count inside < fuel
      → inlined lit id inside ≡ false
      → style + 1 < 256
      → jdr_list_loop
          (write_jdr format_float format_int depth fuel)
          fuel
          (headed jdr (opening lit) id)
          (print inside)
          (style + 1)
        ≡ ok (out, none)
      → write_jdr format_float format_int
          (suc depth)
          fuel
          jdr
          (write_rdx [] lit id (print inside) ++ tail)
          style
        ≡ ok (record { text = out ++ (closing lit ∷ []); rest = tail; error = none })
  unfolding write_jdr
  write_jdr-plex depth fuel jdr lit id inside tail style out p i fits w few br shallow filled =
      rw (read_rdx-write_rdx lit id (print inside) tail (plex_letter lit p) i (omega arith)) (
        rw
          (write_read-plex (write_jdr format_float format_int depth fuel) fuel jdr lit id inside
            tail style out p w few br shallow filled)
          refl)
