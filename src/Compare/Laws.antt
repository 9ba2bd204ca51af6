-- ===== src/Compare/Laws.antt =====
-- CompareLWW swaps with its arguments.
use go_rdx.Prelude.{
  ℕ, ◌≡◌, ◌≢◌, refl, sym, arith, Bool, true, false, ◌==◌, ==_iff, if◌then◌else◌, List, Outcome, ok,
  err, panic, out_of_fuel, ◌>>=◌, Bool-cases, inl, inr,
}
use go_rdx.Cmp.{Cmp, less, l_eq, eq, gr_eq, grtr, flip, is_eq}
use go_rdx.Ident
use go_rdx.Ident.{RdxId, rev_compare, unzip_id}
use go_rdx.Ident.Order
use go_rdx.Iter.{Iter, iter_lit, iter_id, value, lit_float}
use go_rdx.ZipInt.{unzip_int64}
use go_rdx.Compare.{
  on_values, on_ids, compare_type, compare_integer, compare_reference, compare_string, compare_term,
  compare_id, compare_id_rev, compare_same_type, compare_value, is_empty_tuple, lww_cases,
  lww_by_type, compare_lww, integer_order, bytes_order,
}
use go_rdx.Compare.Values.{type_order-flip, integer_order-flip, bytes_order-flip}

-- Comparing in the other order swaps the result, where there is one.
abbrev Swaps : (Iter → Iter → Outcome Cmp) → Iter → Iter → Type 0
Swaps compare a b = (z : Cmp) → compare a b ≡ ok z → compare b a ≡ ok (flip z)

read_both :
    {A : Type 0} (m n : Outcome A) (order : A → A → Cmp)
    → ((x y : A) → order y x ≡ flip (order x y))
    → (z : Cmp) → (m >>= λ x. n >>= λ y. ok (order x y)) ≡ ok z
    → (n >>= λ y. m >>= λ x. ok (order y x)) ≡ ok (flip z)
read_both (ok x) (ok y) order swaps z h = ground (arith, swaps x y)
read_both (ok x) (err e) order swaps z h = absurd (ground arith)
read_both (ok x) panic order swaps z h = absurd (ground arith)
read_both (ok x) out_of_fuel order swaps z h = absurd (ground arith)
read_both (err e) n order swaps z h = absurd (ground arith)
read_both panic n order swaps z h = absurd (ground arith)
read_both out_of_fuel n order swaps z h = absurd (ground arith)

on_values-Swaps :
    {A : Type 0} (unzip : List ℕ → A) (order : A → A → Cmp)
    → ((x y : A) → order y x ≡ flip (order x y))
    → (a b : Iter) → Swaps (on_values unzip order) a b
on_values-Swaps unzip order swaps a b =
    read_both (value a) (value b) (λ x y. order (unzip x) (unzip y))
      (λ x y. swaps (unzip x) (unzip y))

on_ids-Swaps :
    (order : RdxId → RdxId → Cmp)
    → ((x y : RdxId) → order y x ≡ flip (order x y))
    → (a b : Iter) → Swaps (on_ids order) a b
on_ids-Swaps order swaps a b = read_both (iter_id a) (iter_id b) order swaps

compare_same_type-Swaps :
    (lit : ℕ) (a b : Iter) → lit ≢ lit_float → Swaps (compare_same_type lit) a b
unfolding compare_same_type compare_integer compare_reference compare_string compare_term compare_id
compare_same_type-Swaps lit a b not_float z =
    let i = on_values-Swaps unzip_int64 integer_order integer_order-flip a b z in
    let r =
      on_values-Swaps unzip_id Ident.compare (λ x y. (Ident.Order.compare_linear x y y).0) a b z in
    let s = on_values-Swaps (λ v. v) bytes_order bytes_order-flip a b z in
    let d = on_ids-Swaps Ident.compare (λ x y. (Ident.Order.compare_linear x y y).0) a b z in
    λ h. ground (arith, i, r, s, d)

compare_value-Swaps : (a b : Iter) → iter_lit a ≢ lit_float → Swaps compare_value a b
unfolding compare_value compare_type
compare_value-Swaps a b not_float z h =
    let same = compare_same_type-Swaps (iter_lit a) a b not_float z in
    let types = type_order-flip (iter_lit a) (iter_lit b) in
    elim (Bool-cases (iter_lit a == iter_lit b)) [
      | inl e ↦
          let alike : iter_lit a ≡ iter_lit b = (==_iff (iter_lit a) (iter_lit b)).0 e in
          let turned : iter_lit b == iter_lit a ≡ true = ground arith in
          let same' : compare_same_type (iter_lit a) a b ≡ ok z
              → compare_same_type (iter_lit b) b a ≡ ok (flip z) =
            rw (sym alike) same in
          ground (arith, same')
      | inr e ↦ ground (arith, types)
    ]

lww_cases-flip :
    (types : Cmp) (v v' : Outcome Cmp) (empty_a empty_b : Outcome Bool) (z : Cmp)
    → (v ≡ ok z → v' ≡ ok (flip z))
    → lww_cases types v empty_a empty_b ≡ ok z
    → lww_cases (flip types) v' empty_b empty_a ≡ ok (flip z)
unfolding lww_cases
lww_cases-flip eq v v' empty_a empty_b z values h = values h
lww_cases-flip less v v' empty_a (ok true) z values h = ground arith
lww_cases-flip less v v' empty_a (ok false) z values h = ground arith
lww_cases-flip less v v' empty_a (err e) z values h = absurd (ground arith)
lww_cases-flip less v v' empty_a panic z values h = absurd (ground arith)
lww_cases-flip less v v' empty_a out_of_fuel z values h = absurd (ground arith)
lww_cases-flip l_eq v v' empty_a (ok true) z values h = ground arith
lww_cases-flip l_eq v v' empty_a (ok false) z values h = ground arith
lww_cases-flip l_eq v v' empty_a (err e) z values h = absurd (ground arith)
lww_cases-flip l_eq v v' empty_a panic z values h = absurd (ground arith)
lww_cases-flip l_eq v v' empty_a out_of_fuel z values h = absurd (ground arith)
lww_cases-flip gr_eq v v' (ok true) empty_b z values h = ground arith
lww_cases-flip gr_eq v v' (ok false) empty_b z values h = ground arith
lww_cases-flip gr_eq v v' (err e) empty_b z values h = absurd (ground arith)
lww_cases-flip gr_eq v v' panic empty_b z values h = absurd (ground arith)
lww_cases-flip gr_eq v v' out_of_fuel empty_b z values h = absurd (ground arith)
lww_cases-flip grtr v v' (ok true) empty_b z values h = ground arith
lww_cases-flip grtr v v' (ok false) empty_b z values h = ground arith
lww_cases-flip grtr v v' (err e) empty_b z values h = absurd (ground arith)
lww_cases-flip grtr v v' panic empty_b z values h = absurd (ground arith)
lww_cases-flip grtr v v' out_of_fuel empty_b z values h = absurd (ground arith)

lww_cases-turned :
    (types types' : Cmp) (v v' : Outcome Cmp) (empty_a empty_b : Outcome Bool) (z : Cmp)
    → types' ≡ flip types
    → (v ≡ ok z → v' ≡ ok (flip z))
    → lww_cases types v empty_a empty_b ≡ ok z
    → lww_cases types' v' empty_b empty_a ≡ ok (flip z)
lww_cases-turned types types' v v' empty_a empty_b z turned values h =
    rw turned (lww_cases-flip types v v' empty_a empty_b z values h)

lww_by_type-Swaps : (a b : Iter) → iter_lit a ≢ lit_float → Swaps lww_by_type a b
unfolding lww_by_type compare_type
lww_by_type-Swaps a b not_float z =
    lww_cases-turned (compare_type a b) (compare_type b a) (compare_value a b) (compare_value b a)
      (is_empty_tuple a) (is_empty_tuple b) z (type_order-flip (iter_lit a) (iter_lit b))
      (compare_value-Swaps a b not_float z)

if_tied-flip :
    (m m' v v' : Outcome Cmp) (z : Cmp)
    → ((t : Cmp) → m ≡ ok t → m' ≡ ok (flip t))
    → (v ≡ ok z → v' ≡ ok (flip z))
    → (m >>= λ t. if is_eq t then v else ok t) ≡ ok z
    → (m' >>= λ t. if is_eq t then v' else ok t) ≡ ok (flip z)
if_tied-flip (ok t) m' v v' z ids values h = rw (ids t refl) (tied t h)
  where
    tied :
        (t : Cmp)
        → (if is_eq t then v else ok t) ≡ ok z
        → (if is_eq (flip t) then v' else ok (flip t)) ≡ ok (flip z)
    tied less h = ground arith
    tied l_eq h = ground arith
    tied eq h = values h
    tied gr_eq h = ground arith
    tied grtr h = ground arith
if_tied-flip (err e) m' v v' z ids values h = absurd (ground arith)
if_tied-flip panic m' v v' z ids values h = absurd (ground arith)
if_tied-flip out_of_fuel m' v v' z ids values h = absurd (ground arith)

-- CompareLWW gives the swapped result for the arguments in the other order, where it gives one,
-- unless the first is a float.
pub compare_lww-flip :
    (a b : Iter) (z : Cmp)
    → iter_lit a ≢ lit_float
    → compare_lww a b ≡ ok z
    → compare_lww b a ≡ ok (flip z)
unfolding compare_lww compare_id_rev
compare_lww-flip a b z not_float h =
    if_tied-flip (on_ids rev_compare a b) (on_ids rev_compare b a) (lww_by_type a b)
      (lww_by_type b a) z
      (on_ids-Swaps rev_compare (λ x y. (Ident.Order.rev_compare_linear x y y).0) a b)
      (lww_by_type-Swaps a b not_float z) h
