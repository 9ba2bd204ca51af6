-- ===== src/Flatten.antt =====
-- rdx.go: Flatten, which writes a document without its dead elements and its identifiers. In a set the
-- sources of the identifiers stay. `trim` is the length that the result is cut to at the end.
pub mod Docs
mod Tests
use go_rdx.Prelude.{
  ℕ, zero, suc, ◌+◌, Bool, true, false, not, ◌&&◌, ltb, ◌==◌, if◌then◌else◌, List, [], ◌∷◌, ◌++◌,
  length, byte, slice_to, Option, none, some, Outcome, ok, out_of_fuel, panic, ◌>>=◌, Error,
}
use go_rdx.Ident.{RdxId, zip_id, unzip_id, is_live}
use go_rdx.Tlv.{Mark, Closed, TlkvRead, top_lit, read_tlkv, write_tlkv, open_tlv, close_tlv}
use go_rdx.Iter.{is_first, lit_tuple, lit_multix}
use go_rdx.Jdr.Actions.{empty_tuple}

-- The bytes so far, `trim`, the stack, and the error.
pub record Flat : Type 0 where
  pub out : List ℕ
  pub trim : ℕ
  pub stack : List Mark
  pub error : Option Error

-- `(*stack)[len(*stack)-1].Start`
abbrev pub top_start : List Mark → Outcome ℕ
top_start [] = panic
top_start (m ∷ ms) = ok m.start

unfoldable pub cut_flat : Flat → Outcome Closed
cut_flat f =
    slice_to f.out f.trim >>= λ out. ok (record { out = out; stack = f.stack; error = f.error })

module _ (sub : List ℕ → List ℕ → List Mark → Outcome Closed) where
  -- A dead element leaves an empty tuple in a tuple, which stays only if more follows.
  unfoldable pub flat_dead : Flat → Outcome Flat
  flat_dead f =
      ok (if top_lit f.stack == lit_tuple then record f { out = f.out ++ empty_tuple } else f)

  -- An element of a set. The error of the content is lost.
  unfoldable pub flat_source : Flat → ℕ → RdxId → List ℕ → Outcome Flat
  flat_source f lit id val = do
    let key = zip_id (record id { seq = 0 })
    (out, stack) ← open_tlv f.out lit f.stack
    c ← sub (out ++ (byte (length key) ∷ key)) val stack
    let closed = close_tlv c.out lit c.stack
    ok (record {
      out = closed.out;
      trim = length closed.out;
      stack = closed.stack;
      error = closed.error;
    })

  unfoldable pub flat_plex : Flat → ℕ → List ℕ → Outcome Flat
  flat_plex f lit val = do
    (out, stack) ← open_tlv f.out lit f.stack
    c ← sub (out ++ (0 ∷ [])) val stack
    let done : Outcome Flat = do
      start ← top_start c.stack
      let empty = lit == lit_tuple && start + 3 == length c.out
      let closed = close_tlv c.out lit c.stack
      ok (record {
        out = closed.out;
        trim = if empty then start else length closed.out;
        stack = closed.stack;
        error = closed.error;
      })
    elim c.error [
      | some e ↦ ok (record { out = c.out; trim = f.trim; stack = c.stack; error = some e })
      | none ↦ done
    ]

  unfoldable pub flat_element : Flat → TlkvRead → Outcome Flat
  unfolding flat_dead flat_source flat_plex
  flat_element f r =
      let id = unzip_id r.key in
      let plain = write_tlkv f.out r.lit [] r.value in
      if not (is_live id)
      then flat_dead f
      else if top_lit f.stack == lit_multix
      then flat_source f r.lit id r.value
      else if is_first r.lit
      then ok (record f { out = plain; trim = length plain })
      else flat_plex f r.lit r.value

-- The loop of flatten, and flatten: a call starts with `trim` at the end of what is there.
unfoldable pub flatten_loop : (fuel : ℕ) → Flat → List ℕ → Outcome Closed
unfolding flat_element cut_flat
flatten_loop zero f rdx = out_of_fuel
flatten_loop (suc fuel) f rdx =
    let sub = λ (out val : List ℕ) (stack : List Mark).
      flatten_loop fuel (record { out = out; trim = length out; stack = stack; error = none })
        val in
    let step : Outcome Closed = do
      r ← read_tlkv rdx
      let go_on : Outcome Closed = do
        f' ← flat_element sub f r
        let next = flatten_loop fuel f' r.rest
        elim f'.error [ some e ↦ cut_flat f' | none ↦ next ]
      elim r.error [ some e ↦ cut_flat (record f { error = some e }) | none ↦ go_on ]
    in if length rdx == 0 then cut_flat f else step

-- Flatten.
unfoldable pub flatten : (fuel : ℕ) → List ℕ → List ℕ → Outcome Closed
unfolding flatten_loop
flatten fuel out rdx =
    flatten_loop fuel (record { out = out; trim = length out; stack = []; error = none }) rdx
