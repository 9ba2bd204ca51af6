-- ===== src/Object.antt =====
-- itheap.go: ObjectReader, which reads the pairs of a map: tuples that start with a term. `sprint_float`
-- and `sprint_int` are the texts of fmt's `%e` and `%d`. The fuel counts the elements of the map.
pub mod Docs
mod Tests
use go_rdx.Prelude.{
  ℕ, zero, suc, Bool, true, false, not, ◌||◌, ◌==◌, if◌then◌else◌, List, [], Option, Error,
  bad_record, Outcome, ok, err, out_of_fuel, ◌>>=◌,
}
use go_rdx.Prelude.Int.{ℤ}
use go_rdx.Ident.{RdxId}
use go_rdx.Iter.{
  Iter, new_iter, read, rest, value, parsed, iter_lit, iter_error, lit_euler, lit_tuple, lit_term,
}
use go_rdx.Jdr.Renderer.{iter_string}

pub record ObjectReader : Type 0 where
  pub it : Iter
  pub key : List ℕ
  pub val : Iter

unfoldable pub new_object_reader : List ℕ → Outcome ObjectReader
new_object_reader rdx = do
  (i, more) ← read (new_iter rdx)
  let opened : Outcome ObjectReader =
      (value i >>= λ v. ok (record { it = new_iter v; key = []; val = new_iter [] }))
  (if not more || not (iter_lit i == lit_euler) then err bad_record else opened)

module _ (sprint_float : ℕ → List ℕ) (sprint_int : ℤ → List ℕ) where
  -- ObjectReader.Read; the key and the value change only with a tuple.
  unfoldable pub read_pair : (fuel : ℕ) → ObjectReader → Outcome (ObjectReader × Bool)
  unfolding iter_string
  read_pair zero o = out_of_fuel
  read_pair (suc fuel) o = do
    (it, more) ← read o.it
    let tuple : Outcome (ObjectReader × Bool) = do
      v ← value it
      (name, named) ← read (new_iter v)
      let skip = read_pair fuel (record { it = it; key = o.key; val = name })
      let found : Outcome (ObjectReader × Bool) = do
        key ← iter_string sprint_float sprint_int name
        (val, some_value) ← read name
        ok (record { it = it; key = key; val = val }, true)
      (if not named || not (iter_lit name == lit_term) then skip else found)
    let other = read_pair fuel (record o { it = it })
    (if not more
        then ok (record o { it = it }, false)
        else if iter_lit it == lit_tuple
        then tuple
        else other)

-- ObjectReader.Record, Parsed and Error.
unfoldable pub pair_record : ObjectReader → Outcome (List ℕ)
pair_record o = rest o.val

unfoldable pub pair_parsed : ObjectReader → Outcome (ℕ × RdxId × List ℕ)
pair_parsed o = parsed o.val

unfoldable pub object_error : ObjectReader → Outcome (Option Error)
object_error o = iter_error o.it
