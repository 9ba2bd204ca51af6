-- ===== src/Merge/Values.antt =====
-- What the mergers of values choose, and that the order of the inputs does not matter.
use go_rdx.Prelude.{
  inl, inr, ℕ, ◌≡◌, refl, ap, sym, ◌∙◌, arith, Bool, true, false, List, [], ◌∷◌, ◌++◌,
}
use go_rdx.Prelude.Int.{ℤ, pos, negsuc, ltb_ℤ}
use go_rdx.Cmp.{IsWeakOrder, Cmp, less, l_eq, eq, gr_eq, grtr, flip, is_below}
use go_rdx.Ident
use go_rdx.Ident.{RdxId, unzip_id}
use go_rdx.Ident.Order
use go_rdx.ZipInt.{unzip_int64}
use go_rdx.Compare.{bytes_order}
use go_rdx.Compare.Values.{bytes_order-flip, bytes_order-eq, bytes_order_weak}
use go_rdx.Merge.{
  pick, winner, integer_beats, reference_beats, string_beats, merge_values_i, merge_values_r,
  merge_values_s,
}
use go_rdx.Merge.Winner.{
  Occurs, Occurs-left, Occurs-right, Occurs-append, pick-Occurs, pick-unbeaten,
}

abbrev pub SameValues : List (List ℕ) → List (List ℕ) → Type 0
SameValues xs ys =
    ((v : List ℕ) → Occurs v xs → Occurs v ys) × ((v : List ℕ) → Occurs v ys → Occurs v xs)

module _ (beats : List ℕ → List ℕ → Bool) (order : IsWeakOrder beats) where
  winner-tied :
      (x y : List ℕ) (xs ys : List (List ℕ))
      → SameValues (x ∷ xs) (y ∷ ys)
      → (beats (winner beats (x ∷ xs)) (winner beats (y ∷ ys)) ≡ false)
        × (beats (winner beats (y ∷ ys)) (winner beats (x ∷ xs)) ≡ false)
  unfolding winner
  winner-tied x y xs ys same =
      let unbeaten = pick-unbeaten beats order.strict order.weak order.asym in
      (
        unbeaten (pick beats x xs) y ys (same.0 (pick beats x xs) (pick-Occurs beats x xs)),
        unbeaten (pick beats y ys) x xs (same.1 (pick beats y ys) (pick-Occurs beats y ys)),
      )

  -- An equation that tied values satisfy holds of the winners over the same values.
  pub winner-SameValues :
      {K : Type 0} (key : List ℕ → K)
      → ((a b : List ℕ) → beats a b ≡ false → beats b a ≡ false → key a ≡ key b)
      → (xs ys : List (List ℕ)) → SameValues xs ys
      → key (winner beats xs) ≡ key (winner beats ys)
  winner-SameValues key tied [] [] same = refl
  winner-SameValues key tied [] (y ∷ ys) same = absurd (nowhere (same.1 y (Occurs.head refl)))
    where
      nowhere : {v : List ℕ} → Occurs v [] → ⊥
      nowhere h = elim h [ ]
  winner-SameValues key tied (x ∷ xs) [] same = absurd (nowhere (same.0 x (Occurs.head refl)))
    where
      nowhere : {v : List ℕ} → Occurs v [] → ⊥
      nowhere h = elim h [ ]
  winner-SameValues key tied (x ∷ xs) (y ∷ ys) same =
      let (fwd, bwd) = winner-tied x y xs ys same in
      tied (winner beats (x ∷ xs)) (winner beats (y ∷ ys)) fwd bwd

module _ (beats : List ℕ → List ℕ → Bool) (order : IsWeakOrder beats) where
  nested-Occurs :
      (x y : List ℕ) (xs ys : List (List ℕ)) {v : List ℕ}
      → Occurs v (pick beats x xs ∷ pick beats y ys ∷ [])
      → Occurs v ((x ∷ xs) ++ (y ∷ ys))
  nested-Occurs x y xs ys (Occurs.head e) = rw e (Occurs-left (y ∷ ys) (pick-Occurs beats x xs))
  nested-Occurs x y xs ys (Occurs.tail (Occurs.head e)) =
      rw e (Occurs-right (x ∷ xs) (pick-Occurs beats y ys))
  nested-Occurs x y xs ys (Occurs.tail (Occurs.tail m)) = elim m [ ]

  -- No value beats the winner of two winners.
  nested-unbeaten :
      (x y : List ℕ) (xs ys : List (List ℕ)) (v : List ℕ)
      → Occurs v ((x ∷ xs) ++ (y ∷ ys))
      → beats v (pick beats (pick beats x xs) (pick beats y ys ∷ [])) ≡ false
  nested-unbeaten x y xs ys v m =
      let unbeaten = pick-unbeaten beats order.strict order.weak order.asym in
      let p = pick beats x xs in
      let q = pick beats y ys in
      elim (Occurs-append (x ∷ xs) m) [
        | inl l ↦ order.weak v p _ (unbeaten v x xs l) (unbeaten p p (q ∷ []) (Occurs.head refl))
        | inr r ↦
            order.weak v q _ (unbeaten v y ys r)
              (unbeaten q p (q ∷ []) (Occurs.tail (Occurs.head refl)))
      ]

  -- An equation that tied values satisfy holds of the winner of two winners and of the winner.
  winner-nested :
      {K : Type 0} (key : List ℕ → K)
      → ((a b : List ℕ) → beats a b ≡ false → beats b a ≡ false → key a ≡ key b)
      → (x y : List ℕ) (xs ys : List (List ℕ))
      → key (winner beats (winner beats (x ∷ xs) ∷ winner beats (y ∷ ys) ∷ []))
        ≡ key (winner beats ((x ∷ xs) ++ (y ∷ ys)))
  unfolding winner
  winner-nested key tied x y xs ys =
      let nested = pick beats (pick beats x xs) (pick beats y ys ∷ []) in
      let all = pick beats x (xs ++ (y ∷ ys)) in
      tied nested all
        (pick-unbeaten beats order.strict order.weak order.asym nested x (xs ++ (y ∷ ys))
          (nested-Occurs x y xs ys (pick-Occurs beats (pick beats x xs) (pick beats y ys ∷ []))))
        (nested-unbeaten x y xs ys all (pick-Occurs beats x (xs ++ (y ∷ ys))))

ltb_ℤ-irrefl : (a : ℤ) → ltb_ℤ a a ≡ false
ltb_ℤ-irrefl (pos m) = ground arith
ltb_ℤ-irrefl (negsuc m) = ground arith

ltb_ℤ-asym : (a b : ℤ) → ltb_ℤ a b ≡ true → ltb_ℤ b a ≡ false
ltb_ℤ-asym (pos m) (pos n) h = ground arith
ltb_ℤ-asym (pos m) (negsuc n) h = ground arith
ltb_ℤ-asym (negsuc m) (pos n) h = ground arith
ltb_ℤ-asym (negsuc m) (negsuc n) h = ground arith

ltb_ℤ-weak : (a b c : ℤ) → ltb_ℤ b c ≡ false → ltb_ℤ a b ≡ false → ltb_ℤ a c ≡ false
ltb_ℤ-weak (pos k) (pos m) (pos n) h h' = ground arith
ltb_ℤ-weak (pos k) (pos m) (negsuc n) h h' = ground arith
ltb_ℤ-weak (pos k) (negsuc m) (pos n) h h' = ground arith
ltb_ℤ-weak (pos k) (negsuc m) (negsuc n) h h' = ground arith
ltb_ℤ-weak (negsuc k) (pos m) (pos n) h h' = ground arith
ltb_ℤ-weak (negsuc k) (pos m) (negsuc n) h h' = ground arith
ltb_ℤ-weak (negsuc k) (negsuc m) (pos n) h h' = ground arith
ltb_ℤ-weak (negsuc k) (negsuc m) (negsuc n) h h' = ground arith

ltb_ℤ-tied : (a b : ℤ) → ltb_ℤ a b ≡ false → ltb_ℤ b a ≡ false → a ≡ b
ltb_ℤ-tied (pos m) (pos n) h h' = ground arith
ltb_ℤ-tied (pos m) (negsuc n) h h' = ground arith
ltb_ℤ-tied (negsuc m) (pos n) h h' = ground arith
ltb_ℤ-tied (negsuc m) (negsuc n) h h' = ground arith

integer_beats-IsWeakOrder : IsWeakOrder integer_beats
unfolding integer_beats
integer_beats-IsWeakOrder = record {
  strict = λ x. ltb_ℤ-irrefl (unzip_int64 x);
  weak = λ x y z. ltb_ℤ-weak (unzip_int64 z) (unzip_int64 y) (unzip_int64 x);
  asym = λ x y. ltb_ℤ-asym (unzip_int64 y) (unzip_int64 x);
}

reference_beats-IsWeakOrder : IsWeakOrder reference_beats
unfolding reference_beats Ident.compare
reference_beats-IsWeakOrder = record {
  strict = λ x. ground arith;
  weak = λ x y z h k. ground arith;
  asym = λ x y h. ground arith;
}

-- Where neither of two byte strings is below the other, they are the same.
neither_below : (z : Cmp) → is_below z ≡ false → is_below (flip z) ≡ false → z ≡ eq
neither_below less p q = absurd (ground arith)
neither_below l_eq p q = absurd (ground arith)
neither_below eq p q = refl
neither_below gr_eq p q = absurd (ground arith)
neither_below grtr p q = absurd (ground arith)

string_tied : (a b : List ℕ) → string_beats a b ≡ false → string_beats b a ≡ false → a ≡ b
unfolding string_beats
string_tied a b h k =
    bytes_order-eq a b
      (neither_below (bytes_order a b) k (ap is_below (sym (bytes_order-flip a b)) ∙ h))

below_asym : (z : Cmp) → is_below z ≡ true → is_below (flip z) ≡ false
below_asym less h = refl
below_asym l_eq h = refl
below_asym eq h = refl
below_asym gr_eq h = absurd (ground arith)
below_asym grtr h = absurd (ground arith)

own_flip : (z : Cmp) → z ≡ flip z → is_below z ≡ false
own_flip less h = absurd (ground arith)
own_flip l_eq h = absurd (ground arith)
own_flip eq h = refl
own_flip gr_eq h = refl
own_flip grtr h = refl

string_beats-IsWeakOrder : IsWeakOrder string_beats
unfolding string_beats
string_beats-IsWeakOrder = record {
  strict = λ x. own_flip (bytes_order x x) (bytes_order-flip x x);
  weak = bytes_order_weak;
  asym = λ x y h. ap is_below (bytes_order-flip y x) ∙ below_asym (bytes_order y x) h;
}

-- The merge of strings, or of terms, depends only on which values there are, not on their order
-- nor on repetitions.
pub merge_values_s-SameValues :
    (out : List ℕ) (xs ys : List (List ℕ))
    → SameValues xs ys
    → merge_values_s out xs ≡ merge_values_s out ys
unfolding merge_values_s
merge_values_s-SameValues out xs ys same =
    ap (◌++◌ out)
      (winner-SameValues string_beats string_beats-IsWeakOrder (λ v. v) string_tied xs ys same)

-- The merge of integers writes one of the values, and no value is a greater integer.
pub merge_values_i-max :
    (out x : List ℕ) (xs : List (List ℕ)) (v : List ℕ)
    → Occurs v (x ∷ xs)
    → (w : List ℕ) × (merge_values_i out (x ∷ xs) ≡ out ++ w)
      × Occurs w (x ∷ xs)
      × (ltb_ℤ (unzip_int64 w) (unzip_int64 v) ≡ false)
unfolding merge_values_i winner integer_beats
merge_values_i-max out x xs v m =
    let o = integer_beats-IsWeakOrder in
    (
      pick integer_beats x xs,
      refl,
      pick-Occurs integer_beats x xs,
      pick-unbeaten integer_beats o.strict o.weak o.asym v x xs m,
    )

reference_tied :
    (a b : List ℕ)
    → reference_beats a b ≡ false
    → reference_beats b a ≡ false
    → Ident.base (unzip_id a) ≡ Ident.base (unzip_id b)
unfolding reference_beats
reference_tied a b h k =
    let (turned, same, up) = Ident.Order.compare_linear (unzip_id a) (unzip_id b) (unzip_id b) in
    same.0
      (neither_below (Ident.compare (unzip_id a) (unzip_id b)) k (ap is_below (sym turned) ∙ h))

integer_tied :
    (a b : List ℕ)
    → integer_beats a b ≡ false
    → integer_beats b a ≡ false
    → unzip_int64 a ≡ unzip_int64 b
unfolding integer_beats
integer_tied a b h k = ltb_ℤ-tied (unzip_int64 a) (unzip_int64 b) k h

-- Two writers add values with the same key.
abbrev pub WriteSame : {K : Type 0} → (List ℕ → K) → List ℕ → List ℕ → List ℕ → Type 0
WriteSame key a b out = (v w : List ℕ) × (a ≡ out ++ v) × (b ≡ out ++ w) × (key v ≡ key w)

-- The merges of the same references, in any order and repeated or not, refer to the same
-- identity; the revisions may differ.
merge_values_r-SameValues :
    (out : List ℕ) (xs ys : List (List ℕ))
    → SameValues xs ys
    → (v w : List ℕ) × (merge_values_r out xs ≡ out ++ v)
      × (merge_values_r out ys ≡ out ++ w)
      × (Ident.base (unzip_id v) ≡ Ident.base (unzip_id w))
unfolding merge_values_r
merge_values_r-SameValues out xs ys same = (
  winner reference_beats xs,
  winner reference_beats ys,
  refl,
  refl,
  winner-SameValues reference_beats reference_beats-IsWeakOrder (λ v. Ident.base (unzip_id v))
      reference_tied xs ys same,
)

-- Merges of at least one value merged again and the merge of all the values write the same string
-- or term, the same integer, and references to the same identity.
pub merge_values_assoc :
    (out x y : List ℕ) (xs ys : List (List ℕ))
    → (merge_values_s out (merge_values_s [] (x ∷ xs) ∷ merge_values_s [] (y ∷ ys) ∷ [])
        ≡ merge_values_s out ((x ∷ xs) ++ (y ∷ ys)))
      × WriteSame unzip_int64
          (merge_values_i out (merge_values_i [] (x ∷ xs) ∷ merge_values_i [] (y ∷ ys) ∷ []))
          (merge_values_i out ((x ∷ xs) ++ (y ∷ ys)))
          out
      × WriteSame
          (λ v. Ident.base (unzip_id v))
          (merge_values_r out (merge_values_r [] (x ∷ xs) ∷ merge_values_r [] (y ∷ ys) ∷ []))
          (merge_values_r out ((x ∷ xs) ++ (y ∷ ys)))
          out
unfolding merge_values_i merge_values_r merge_values_s
merge_values_assoc out x y xs ys = (
  ap (◌++◌ out)
      (winner-nested string_beats string_beats-IsWeakOrder (λ v. v) string_tied x y xs ys),
  (
    _,
    _,
    refl,
    refl,
    winner-nested integer_beats integer_beats-IsWeakOrder unzip_int64 integer_tied x y xs ys,
  ),
  (
    _,
    _,
    refl,
    refl,
    winner-nested reference_beats reference_beats-IsWeakOrder (λ v. Ident.base (unzip_id v))
        reference_tied x y xs ys,
  ),
)
