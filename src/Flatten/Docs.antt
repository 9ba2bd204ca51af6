-- ===== src/Flatten/Docs.antt =====
-- Flatten of a document of live elements without sets.
use go_rdx.Prelude.{
  ℕ, zero, suc, ◌+◌, ◌<◌, ◌^◌, ◌≡◌, refl, ap, ◌∙◌, arith, true, false, ◌&&◌, ◌==◌, leb, List, [],
  ◌∷◌, ◌++◌, length, length-append, append-nil, append_assoc, take-length, none, Outcome, ok,
}
use go_rdx.Ident.{RdxId, id0, zip_id, is_live}
use go_rdx.ZipInt.{zip_uint64_pair}
use go_rdx.Tlv.{Mark, Closed, TlkvRead, new_mark, top_lit, write_tlkv}
use go_rdx.Tlv.Nesting.{open_tlv-capital}
use go_rdx.Tlv.Keyed.{read_tlkv-write_tlkv}
use go_rdx.Iter.{is_first, is_plex, lit_tuple, lit_multix}
use go_rdx.Iter.Streams.{written_nonempty}
use go_rdx.Tlv.Case.{IsUpper}
use go_rdx.Ident.Order.{IsId}
use go_rdx.Element.{write_rdx}
use go_rdx.Element.RoundTrip.{unzip_id-zip, length-zip_id}
use go_rdx.Element.Nesting.{open_element, close_tlv-element}
use go_rdx.Element.Docs.{Doc, end, leaf, node, print, size, IsWhole, first_letter, plex_letter}
use go_rdx.Flatten.{Flat, cut_flat, flat_element, flat_plex, flatten_loop, flatten}

-- The document without identifiers.
abbrev pub bare : Doc → Doc
bare end = end
bare (leaf lit id val rest) = leaf lit id0 val (bare rest)
bare (node lit id inside rest) = node lit id0 (bare inside) (bare rest)

-- No element is dead, and no container is a set.
abbrev pub IsLiveDoc : Doc → Type 0
IsLiveDoc end = Unit {0}
IsLiveDoc (leaf lit id val rest) = (is_live id ≡ true) × IsLiveDoc rest
IsLiveDoc (node lit id inside rest) =
    (is_live id ≡ true) × ((lit == lit_multix) ≡ false) × IsLiveDoc inside × IsLiveDoc rest

-- The loop at the end of what has been written.
abbrev flat_at : List ℕ → List Mark → Flat
flat_at out stack = record { out = out; trim = length out; stack = stack; error = none }

write_rdx-id0 :
    (out : List ℕ) (lit : ℕ) (val tail : List ℕ)
    → write_tlkv out lit [] val ++ tail ≡ out ++ (write_rdx [] lit id0 val ++ tail)
unfolding write_rdx write_tlkv zip_id zip_uint64_pair
write_rdx-id0 out lit val tail = append_assoc out _ tail

cut_flat-at :
    (out : List ℕ) (stack : List Mark)
    → cut_flat (flat_at out stack) ≡ ok (record { out = out; stack = stack; error = none })
unfolding cut_flat
cut_flat-at out stack =
    let fits : leb (length out) (length out) ≡ true = ground arith in rw (fits, take-length out)

is_plex-not_first : (lit : ℕ) → is_plex lit ≡ true → is_first lit ≡ false
unfolding is_plex is_first
is_plex-not_first lit h = ground (arith, h)

flat_plex-at :
    (sub : List ℕ → List ℕ → List Mark → Outcome Closed) (out : List ℕ) (stack : List Mark)
    (lit : ℕ) (val full : List ℕ)
    → is_plex lit ≡ true
    → sub (open_element out lit []) val (new_mark (length out) lit ∷ stack)
      ≡ ok (record {
        out = open_element out lit [] ++ full;
        stack = new_mark (length out) lit ∷ stack;
        error = none;
      })
    → flat_plex sub (flat_at out stack) lit val ≡ ok (flat_at (write_tlkv out lit [] full) stack)
unfolding flat_plex
flat_plex-at sub out stack lit val full p filled =
    let up = plex_letter lit p in
    let room = length-append (open_element out lit []) full in
    let room' = length-append (out ++ (lit ∷ 0 ∷ 0 ∷ 0 ∷ 0 ∷ [])) (0 ∷ []) in
    let room'' = length-append out (lit ∷ 0 ∷ 0 ∷ 0 ∷ 0 ∷ []) in
    let more : (length out + 3 == length (open_element out lit [] ++ full)) ≡ false =
      ground (arith, room, room', room'') in
    let never : ((lit == lit_tuple) && false) ≡ false = ground arith in
    let closed =
      close_tlv-element out lit [] full (new_mark (length out) lit) stack up (omega arith) refl
        refl in
    rw (open_tlv-capital out lit stack up) (rw (filled, more, closed, never) refl)

-- The loop before `d`.
abbrev Flattens : ℕ → Doc → Type 0
Flattens fuel d =
    (out : List ℕ) (stack : List Mark)
    → (top_lit stack == lit_multix) ≡ false
    → flatten_loop fuel (flat_at out stack) (print d)
      ≡ ok (record { out = out ++ print (bare d); stack = stack; error = none })

module _ (fuel : ℕ) (out : List ℕ) (stack : List Mark) (lit : ℕ) (id : RdxId) (val val' : List ℕ)
    (after : Doc) (i : IsId id) (up : IsUpper lit) (fits : length val + 17 < 2 ^ 30)
    (not_set : (top_lit stack == lit_multix) ≡ false) (next : Flattens fuel after) where
  -- One round of the loop, from what flat_element makes of the element.
  flatten_round :
      flat_element
          (λ (out val : List ℕ) (stack : List Mark). flatten_loop fuel (flat_at out stack) val)
          (flat_at out stack)
          (record { lit = lit; key = zip_id id; value = val; rest = print after; error = none })
        ≡ ok (flat_at (write_tlkv out lit [] val') stack)
      → flatten_loop (suc fuel) (flat_at out stack) (write_rdx [] lit id val ++ print after)
        ≡ ok (record {
          out = out ++ (write_rdx [] lit id0 val' ++ print (bare after));
          stack = stack;
          error = none;
        })
  unfolding flatten_loop write_rdx
  flatten_round e =
      let short = length-zip_id id i in
      let full = written_nonempty lit (zip_id id) val (print after) in
      let reads =
        read_tlkv-write_tlkv lit (zip_id id) val (print after) up (omega (arith, short))
          (omega (arith, short, fits)) in
      rw (full, reads)
        (rw e (
          next (write_tlkv out lit [] val') stack not_set
          ∙ ap (λ b. ok (record { out = b; stack = stack; error = none }))
              (write_rdx-id0 out lit val' (print (bare after)))))

module _ (sub : List ℕ → List ℕ → List Mark → Outcome Closed) (out : List ℕ) (stack : List Mark)
    (lit : ℕ) (id : RdxId) (val full after : List ℕ) (i : IsId id) (live : is_live id ≡ true)
    (not_set : (top_lit stack == lit_multix) ≡ false) where
  abbrev element : TlkvRead
  element = record { lit = lit; key = zip_id id; value = val; rest = after; error = none }

  flat_element-first :
      is_first lit ≡ true
      → flat_element sub (flat_at out stack) element
        ≡ ok (flat_at (write_tlkv out lit [] val) stack)
  unfolding flat_element
  flat_element-first f = rw (unzip_id-zip id i, live, not_set, f) refl

  flat_element-plex :
      is_plex lit ≡ true
      → sub (open_element out lit []) val (new_mark (length out) lit ∷ stack)
        ≡ ok (record {
          out = open_element out lit [] ++ full;
          stack = new_mark (length out) lit ∷ stack;
          error = none;
        })
      → flat_element sub (flat_at out stack) element
        ≡ ok (flat_at (write_tlkv out lit [] full) stack)
  unfolding flat_element
  flat_element-plex p filled =
      rw (unzip_id-zip id i, live, not_set, is_plex-not_first lit p)
        (flat_plex-at sub out stack lit val full p filled)

flattens : (d : Doc) → IsWhole d → IsLiveDoc d → (fuel : ℕ) → size d < fuel → Flattens fuel d
unfolding print top_lit
flattens d w l zero h = absurd (omega arith)
flattens end w l (suc fuel) h =
    λ out stack n. unfold flatten_loop in rw (cut_flat-at out stack, append-nil out)
flattens (leaf lit id val after) w l (suc fuel) h = λ out stack n.
    let (f, i, fits, w') = w in
    let (live, l') = l in
    flatten_round fuel out stack lit id val val after i (first_letter lit f) fits n
      (flattens after w' l' fuel (omega arith))
      (flat_element-first (λ o v s. flatten_loop fuel (flat_at o s) v) out stack lit id val []
        (print after) i live n f)
flattens (node lit id inside after) w l (suc fuel) h = λ out stack n.
    let (p, i, fits, v, w') = w in
    let (live, not_multix, l', l'') = l in
    flatten_round fuel out stack lit id (print inside) (print (bare inside)) after i
      (plex_letter lit p) fits n (flattens after w' l'' fuel (omega arith))
      (flat_element-plex (λ o v s. flatten_loop fuel (flat_at o s) v) out stack lit id
        (print inside) (print (bare inside)) (print after) i live n p
        (flattens inside v l' fuel (omega arith) (open_element out lit [])
          (new_mark (length out) lit ∷ stack) not_multix))

-- Flatten of a document of live elements without sets, whose types fit, identifiers are of
-- two uint64s and values are within the limits of Read, with a unit of fuel for each
-- element and one more: it returns no error and writes the same document without
-- identifiers behind what was there, empty tuples included.
pub flatten-bare :
    (d : Doc) (out : List ℕ) (fuel : ℕ)
    → IsWhole d
    → IsLiveDoc d
    → size d < fuel
    → flatten fuel out (print d)
      ≡ ok (record { out = out ++ print (bare d); stack = []; error = none })
unfolding flatten
flatten-bare d out fuel w l h = flattens d w l fuel h out [] (unfold top_lit in refl)
