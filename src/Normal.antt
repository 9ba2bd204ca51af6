-- ===== src/Normal.antt =====
-- rdx.go: Normalize, which writes a document with its values in their shortest form, tuples without
-- content left out of maps, and maps and sets in order. `utf8_valid` is the library's test of UTF-8.
-- The bytes that Go returns with an error are not modelled. The fuel counts the elements of a
-- container and the depth of nesting: a cursor on a malformed stream can stay where it is.
pub mod Docs
pub mod Endless
mod Tests
use go_rdx.Prelude.{
  ℕ, zero, suc, ◌+◌, ◌-◌, Bool, true, false, not, ◌&&◌, ltb, ◌==◌, if◌then◌else◌, List, [], ◌∷◌,
  ◌++◌, length, drop, byte, Option, none, some, Outcome, ok, err, panic, out_of_fuel, ◌>>=◌, Error,
  bad_float_record, bad_integer_record, bad_reference_record, bad_string_record, bad_term_record,
}
use go_rdx.Cmp.{Cmp, less}
use go_rdx.ZipInt.{zip_int64, unzip_int64, zip_float64, unzip_float64}
use go_rdx.Ident.{zip_id, unzip_id}
use go_rdx.Ident.Digits.{ron64_rev}
use go_rdx.Tlv.{Mark, Closed, top_lit, write_tlkv, open_tlv, close_tlv, cancel_tlv}
use go_rdx.Iter.{
  Iter, new_iter, read, has_data, has_failed, iter_error, iter_lit, iter_id, value, is_first,
  lit_float, lit_integer, lit_reference, lit_string, lit_term, lit_tuple, lit_linear, lit_euler,
  lit_multix,
}
use go_rdx.Compare.{is_nan, compare_euler, compare_multix}
use go_rdx.Merge.Elements.{Order, heap_merge}

-- The bytes written so far, and the stack of open records.
abbrev pub Norm : Type 0
Norm = List ℕ × List Mark

unfoldable pub all_ron64 : List ℕ → Bool
all_ron64 [] = true
all_ron64 (c ∷ cs) = not (ron64_rev c == 0xff) && all_ron64 cs

abbrev pub closed_norm : Closed → Outcome Norm
closed_norm c = elim c.error [ none ↦ ok (c.out, c.stack) | some e ↦ err e ]

-- The variables of the loop of normalize: `norm`, `oc`, `chunks` and the stack.
pub record Chunked : Type 0 where
  pub norm : List ℕ
  pub from : ℕ
  pub chunks : List (List ℕ)
  pub stack : List Mark

-- Whether the next element does not stand behind this one, in a container with an order.
unfoldable pub breaks : Option Order → Iter → Iter → Outcome Bool
breaks none it next = ok false
breaks (some z) it next =
    let test = z it next >>= λ c. ok (elim c [ less ↦ false | other ↦ true ]) in
    if has_data next then test else ok false

-- The error of the element, unless the step to the next one fails too.
unfoldable pub fail_at : Iter → Error → Outcome (Iter × Chunked)
fail_at next e =
    let own = iter_error next >>= λ e'. elim e' [ none ↦ err e | some e'' ↦ err e'' ] in
    if has_failed next then own else err e

-- The loop of normalize. `append` is appendNorm.
unfoldable pub norm_loop :
    (fuel : ℕ)
    → (List ℕ → Iter → List Mark → Outcome Norm)
    → Option Order
    → Iter
    → Chunked
    → Outcome (Iter × Chunked)
unfolding breaks fail_at
norm_loop zero append z it s = out_of_fuel
norm_loop (suc fuel) append z it s =
    let appended = λ (out : List ℕ) (stack : List Mark). (do
      (next, more) ← read it
      cut ← breaks z it next
      norm_loop fuel append z next (record {
        norm = out;
        from = if cut then length out else s.from;
        chunks = if cut then s.chunks ++ (drop s.from out ∷ []) else s.chunks;
        stack = stack;
      })) in
    let step : Outcome (Iter × Chunked) = elim (append s.norm it s.stack) [
      | ok r ↦ appended r.0 r.1
      | err e ↦ (read it >>= λ (next, more). fail_at next e)
      | panic ↦ panic
      | out_of_fuel ↦ out_of_fuel
    ] in
    if has_data it then step else ok (it, s)

-- The chunks, each in order, are merged.
unfoldable pub join_chunks : (depth fuel : ℕ) → Option Order → List ℕ → Chunked → Outcome Norm
unfolding heap_merge
join_chunks depth fuel none out s = ok (s.norm, s.stack)
join_chunks depth fuel (some z) out s =
    let merged : Outcome Norm = do
      sorted ← heap_merge depth fuel z [] (s.chunks ++ (drop s.from s.norm ∷ []))
      ok (out ++ sorted, s.stack)
    in if length s.chunks == 0 then ok (s.norm, s.stack) else merged

module _ (utf8_valid : List ℕ → Bool) where
  -- The value of a FIRST element in its shortest form.
  unfoldable pub shortest : ℕ → List ℕ → Outcome (List ℕ)
  unfolding all_ron64
  shortest lit val =
      if lit == lit_float
      then (if ltb 8 (length val)
          then err bad_float_record
          else if is_nan (unzip_float64 val)
          then err bad_float_record
          else ok (zip_float64 (unzip_float64 val)))
      else if lit == lit_integer
      then (if ltb 8 (length val) then err bad_integer_record else ok (zip_int64 (unzip_int64 val)))
      else if lit == lit_reference
      then (if ltb 16 (length val) then err bad_reference_record else ok (zip_id (unzip_id val)))
      else if lit == lit_string
      then (if utf8_valid val then ok val else err bad_string_record)
      else if all_ron64 val
      then ok val
      else err bad_term_record

  -- appendNorm. `sub` is normalize.
  unfoldable pub append_norm :
      (Option Order → List ℕ → List ℕ → List Mark → Outcome Norm)
      → List ℕ
      → Iter
      → List Mark
      → Outcome Norm
  unfolding shortest
  append_norm sub to it stack = do
    val ← value it
    id ← iter_id it
    let lit = iter_lit it
    let key = zip_id id
    let plain : Outcome Norm = shortest lit val >>= λ v. ok (write_tlkv to lit key v, stack)
    let opened : Outcome Norm = do
      (out, marks) ← open_tlv to lit stack
      ok (out ++ (byte (length key) ∷ key), marks)
    let tuple : Outcome Norm = do
      (out, marks) ← opened
      (full, marks') ← sub none out val marks
      let cancelled : Outcome Norm = cancel_tlv full lit marks' >>= closed_norm
      (if top_lit stack == lit_euler && length out == length full
          then cancelled
          else closed_norm (close_tlv full lit marks'))
    let container = λ (z : Option Order). (do
      (out, marks) ← opened
      (full, marks') ← sub z out val marks
      closed_norm (close_tlv full lit marks'))
    (if is_first lit
        then plain
        else if lit == lit_tuple
        then tuple
        else if lit == lit_linear
        then container none
        else if lit == lit_euler
        then container (some compare_euler)
        else if lit == lit_multix
        then container (some compare_multix)
        else ok (to, stack))

  unfoldable pub normalize :
      (depth fuel : ℕ) → Option Order → List ℕ → List ℕ → List Mark → Outcome Norm
  unfolding append_norm norm_loop join_chunks
  normalize zero fuel z out rdx stack = out_of_fuel
  normalize (suc depth) fuel z out rdx stack =
      let filled : Outcome Norm = do
        (first, more) ← read (new_iter rdx)
        (last, s) ←
            norm_loop fuel (append_norm (normalize depth fuel)) z first
              (record { norm = out; from = length out; chunks = []; stack = stack })
        let failed : Outcome Norm =
            iter_error last >>= λ e. elim e [ none ↦ ok (s.norm, s.stack) | some e' ↦ err e' ]
        let joined = join_chunks depth fuel z out s
        (if has_failed last then failed else joined)
      in if length rdx == 0 then ok (out, stack) else filled

  -- Normalize.
  unfoldable pub normal_form : (depth fuel : ℕ) → List ℕ → Outcome (List ℕ)
  unfolding normalize
  normal_form depth fuel rdx = normalize depth fuel none [] rdx [] >>= λ (out, stack). ok out
