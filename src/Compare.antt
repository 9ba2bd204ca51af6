-- ===== src/Compare.antt =====
-- rdx.go: the orders of elements. A comparison takes two cursors, each at an element, and panics
-- where an accessor does.
pub mod Values
pub mod Making
pub mod Laws
mod Tests
use go_rdx.Prelude.{
  ℕ, ◌+◌, ◌*◌, ◌/◌, ◌%◌, ◌^◌, bit_and, Bool, false, not, ◌&&◌, ◌||◌, ltb, leb, ◌==◌, if◌then◌else◌,
  List, [], ◌∷◌, length, Outcome, ok, ◌>>=◌,
}
use go_rdx.Prelude.Int.{ℤ, ltb_ℤ, eqb_ℤ}
use go_rdx.Cmp.{Cmp, less, l_eq, eq, gr_eq, grtr, by_num, is_eq}
use go_rdx.Ident
use go_rdx.Ident.{RdxId, unzip_id, rev_compare, mask_no_rev}
use go_rdx.Ron60
use go_rdx.ZipInt.{unzip_int64, unzip_float64}
use go_rdx.Iter.{
  Iter, new_iter, is_plex, is_empty, iter_lit, iter_id, value, inner, read, lit_float, lit_integer,
  lit_reference, lit_string, lit_term, lit_tuple,
}

-- `af < bf` and `af == bf` for the floats with these bit patterns.
abbrev pub is_nan : ℕ → Bool
is_nan b = ltb (0x7ff * 2 ^ 52) (b % 2 ^ 63)

abbrev pub is_negative : ℕ → Bool
is_negative b = leb (2 ^ 63) b

unfoldable pub float_lt : ℕ → ℕ → Bool
float_lt a b =
    let m = a % 2 ^ 63 in
    let n = b % 2 ^ 63 in
    not (is_nan a || is_nan b)
    && (if is_negative a
        then (if is_negative b then ltb n m else ltb 0 (m + n))
        else (if is_negative b then false else ltb m n))

unfoldable pub float_eq : ℕ → ℕ → Bool
float_eq a b = not (is_nan a || is_nan b) && (a == b || a % 2 ^ 63 + b % 2 ^ 63 == 0)

-- CompareFloat and CompareInteger on the values.
unfoldable pub float_order : ℕ → ℕ → Cmp
float_order a b = if float_eq a b then eq else if float_lt a b then less else grtr

unfoldable pub integer_order : ℤ → ℤ → Cmp
integer_order a b = if eqb_ℤ a b then eq else if ltb_ℤ a b then less else grtr

-- `bytes.Compare` times two.
unfoldable pub bytes_order : List ℕ → List ℕ → Cmp
bytes_order [] [] = eq
bytes_order [] (b ∷ bs) = less
bytes_order (a ∷ as') [] = grtr
bytes_order (a ∷ as') (b ∷ bs) = by_num a b (bytes_order as' bs)

-- CompareType on the type letters.
unfoldable pub type_order : ℕ → ℕ → Cmp
type_order al bl =
    if al == bl
    then eq
    else if is_plex al
    then (if is_plex bl then by_num al bl grtr else grtr)
    else (if is_plex bl then less else by_num al bl grtr)

unfoldable pub compare_type : Iter → Iter → Cmp
unfolding type_order
compare_type a b = type_order (iter_lit a) (iter_lit b)

-- The values, or the identifiers, of both are read before they are compared.
abbrev pub on_values : {A : Type 0} → (List ℕ → A) → (A → A → Cmp) → Iter → Iter → Outcome Cmp
on_values unzip order a b = do v ← value a; w ← value b; ok (order (unzip v) (unzip w))

abbrev pub on_ids : (RdxId → RdxId → Cmp) → Iter → Iter → Outcome Cmp
on_ids order a b = do x ← iter_id a; y ← iter_id b; ok (order x y)

unfoldable pub compare_float : Iter → Iter → Outcome Cmp
unfolding float_order
compare_float = on_values unzip_float64 float_order

unfoldable pub compare_integer : Iter → Iter → Outcome Cmp
unfolding integer_order
compare_integer = on_values unzip_int64 integer_order

unfoldable pub compare_reference : Iter → Iter → Outcome Cmp
compare_reference = on_values unzip_id Ident.compare

unfoldable pub compare_string : Iter → Iter → Outcome Cmp
unfolding bytes_order
compare_string = on_values (λ v. v) bytes_order

unfoldable pub compare_term : Iter → Iter → Outcome Cmp
unfolding compare_string
compare_term = compare_string

unfoldable pub compare_tuple : Iter → Iter → Outcome Cmp
compare_tuple a b = ok eq

-- CompareLinear on the identifiers.
unfoldable pub linear_order : RdxId → RdxId → Cmp
linear_order a b =
    let aa = Ron60.new_ron60 (a.seq / 2 ^ 6) in
    let bb = Ron60.new_ron60 (b.seq / 2 ^ 6) in
    if Ron60.less aa bb then less else if Ron60.less bb aa then grtr else by_num a.src b.src eq

unfoldable pub compare_linear : Iter → Iter → Outcome Cmp
unfolding linear_order
compare_linear = on_ids linear_order

unfoldable pub rev_id_order : RdxId → RdxId → Cmp
rev_id_order a b =
    by_num (bit_and a.seq mask_no_rev) (bit_and b.seq mask_no_rev) (by_num a.src b.src eq)

unfoldable pub compare_rev_id : Iter → Iter → Outcome Cmp
unfolding rev_id_order
compare_rev_id = on_ids rev_id_order

unfoldable pub compare_id : Iter → Iter → Outcome Cmp
compare_id = on_ids Ident.compare

unfoldable pub compare_id_rev : Iter → Iter → Outcome Cmp
compare_id_rev = on_ids rev_compare

unfoldable pub source_order : RdxId → RdxId → Cmp
source_order a b = by_num a.src b.src eq

unfoldable pub compare_multix : Iter → Iter → Outcome Cmp
unfolding source_order
compare_multix = on_ids source_order

-- The switch of CompareValue on a type that both have.
unfoldable pub compare_same_type : ℕ → Iter → Iter → Outcome Cmp
unfolding compare_float compare_integer compare_reference compare_string compare_term compare_id
compare_same_type lit a b =
    if lit == lit_float
    then compare_float a b
    else if lit == lit_integer
    then compare_integer a b
    else if lit == lit_reference
    then compare_reference a b
    else if lit == lit_string
    then compare_string a b
    else if lit == lit_term
    then compare_term a b
    else if is_plex lit
    then compare_id a b
    else ok eq

unfoldable pub compare_value : Iter → Iter → Outcome Cmp
unfolding compare_type compare_same_type
compare_value a b =
    if is_empty a
    then (if is_empty b then ok eq else ok less)
    else if is_empty b
    then ok grtr
    else if not (iter_lit a == iter_lit b)
    then ok (compare_type a b)
    else compare_same_type (iter_lit a) a b

unfoldable pub is_empty_tuple : Iter → Outcome Bool
is_empty_tuple a =
    if iter_lit a == lit_tuple then (value a >>= λ v. ok (length v == 0)) else ok false

-- The adjustments of CompareLWW: an empty tuple loses against every other type. The arguments are
-- the order of the types, the order of the values, and whether the one and the other is empty.
unfoldable pub lww_cases : Cmp → Outcome Cmp → Outcome Bool → Outcome Bool → Outcome Cmp
lww_cases eq values empty_a empty_b = values
lww_cases less values empty_a empty_b = empty_b >>= λ e. ok (if e then grtr else less)
lww_cases l_eq values empty_a empty_b = empty_b >>= λ e. ok (if e then grtr else Cmp.l_eq)
lww_cases gr_eq values empty_a empty_b = empty_a >>= λ e. ok (if e then less else Cmp.gr_eq)
lww_cases grtr values empty_a empty_b = empty_a >>= λ e. ok (if e then less else grtr)

unfoldable pub lww_by_type : Iter → Iter → Outcome Cmp
unfolding compare_type compare_value is_empty_tuple lww_cases
lww_by_type a b =
    lww_cases (compare_type a b) (compare_value a b) (is_empty_tuple a) (is_empty_tuple b)

unfoldable pub compare_lww : Iter → Iter → Outcome Cmp
unfolding compare_id_rev lww_by_type
compare_lww a b = compare_id_rev a b >>= λ z. if is_eq z then lww_by_type a b else ok z

-- The first element of a tuple is its key.
unfoldable pub euler_key : Iter → Outcome Iter
euler_key a = if iter_lit a == lit_tuple then (do in' ← inner a; r ← read in'; ok r.0) else ok a

unfoldable pub compare_euler : Iter → Iter → Outcome Cmp
unfolding euler_key compare_value
compare_euler a b = do x ← euler_key a; y ← euler_key b; compare_value x y

unfoldable pub is_same : Iter → Iter → Outcome Bool
is_same a b =
    if iter_lit a == iter_lit b
    then (do x ← iter_id a; y ← iter_id b; ok (Ident.id_eq (Ident.base x) (Ident.base y)))
    else ok false

-- UnwrapTuple: the cursor at the first element of the content.
unfoldable pub unwrap_tuple : Iter → Outcome Iter
unwrap_tuple a = do v ← value a; r ← read (new_iter v); ok r.0
