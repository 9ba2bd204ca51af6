-- ===== src/Merge/Winner.antt =====
-- The loop of the mergers, for any test that is a strict weak order.
use go_rdx.Prelude.{
  ◌≡◌, refl, Bool, true, false, if◌then◌else◌, List, [], ◌∷◌, ◌++◌, Bool-cases, inl, inr, ◌⊎◌,
}
use go_rdx.Merge.{pick}

-- Membership with the place, not only that there is one.
pub data Occurs {A : Type 0} (v : A) : List A → Type 0 where
  head : {x : A} {xs : List A} → v ≡ x → Occurs v (x ∷ xs)
  tail : {x : A} {xs : List A} → Occurs v xs → Occurs v (x ∷ xs)

pub Occurs-left :
    {A : Type 0} {v : A} {xs : List A} (ys : List A) → Occurs v xs → Occurs v (xs ++ ys)
Occurs-left ys (Occurs.head e) = Occurs.head e
Occurs-left ys (Occurs.tail m) = Occurs.tail (Occurs-left ys m)

pub Occurs-right :
    {A : Type 0} {v : A} (xs : List A) {ys : List A} → Occurs v ys → Occurs v (xs ++ ys)
Occurs-right [] m = m
Occurs-right (x ∷ xs) m = Occurs.tail (Occurs-right xs m)

pub Occurs-append :
    {A : Type 0} {v : A} (xs : List A) {ys : List A}
    → Occurs v (xs ++ ys)
    → Occurs v xs ⊎ Occurs v ys
Occurs-append [] m = inr m
Occurs-append (x ∷ xs) (Occurs.head e) = inl (Occurs.head e)
Occurs-append (x ∷ xs) (Occurs.tail m) = elim (Occurs-append xs m) [
  | inl l ↦ inl (Occurs.tail l)
  | inr r ↦ inr r
]

module _ {A : Type 0} (beats : A → A → Bool) where
  pub pick-Occurs : (win : A) (bs : List A) → Occurs (pick beats win bs) (win ∷ bs)
  unfolding pick
  pick-Occurs win [] = Occurs.head refl
  pick-Occurs win (b ∷ bs) = elim (Bool-cases (beats b win)) [
    | inl e ↦ Occurs.tail (rw e (pick-Occurs b bs))
    | inr e ↦ rw e (skip (pick-Occurs win bs))
  ]
    where
      skip : {v : A} → Occurs v (win ∷ bs) → Occurs v (win ∷ b ∷ bs)
      skip (Occurs.head e) = Occurs.head e
      skip (Occurs.tail m) = Occurs.tail (Occurs.tail m)

  module _ (strict : (x : A) → beats x x ≡ false)
      (weak : (x y z : A) → beats x y ≡ false → beats y z ≡ false → beats x z ≡ false)
      (asym : (x y : A) → beats x y ≡ true → beats y x ≡ false) where
    next_unbeaten :
        (b win : A)
        → let next = if beats b win then b else win in
          (beats b next ≡ false) × (beats win next ≡ false)
    next_unbeaten b win = elim (Bool-cases (beats b win)) [
      | inl e ↦ rw e (strict b, asym b win e)
      | inr e ↦ rw e (e, strict win)
    ]

    pick-unbeaten_win : (win : A) (bs : List A) → beats win (pick beats win bs) ≡ false
    unfolding pick
    pick-unbeaten_win win [] = strict win
    pick-unbeaten_win win (b ∷ bs) =
        let next = if beats b win then b else win in
        weak win next (pick beats next bs) (next_unbeaten b win).1 (pick-unbeaten_win next bs)

    pick-unbeaten_rest :
        (v win : A) (bs : List A) → Occurs v bs → beats v (pick beats win bs) ≡ false
    unfolding pick
    pick-unbeaten_rest v win [] m = elim m [ ]
    pick-unbeaten_rest v win (b ∷ bs) (Occurs.head e) =
        let next = if beats b win then b else win in
        rw e (weak b next (pick beats next bs) (next_unbeaten b win).0 (pick-unbeaten_win next bs))
    pick-unbeaten_rest v win (b ∷ bs) (Occurs.tail m) =
        pick-unbeaten_rest v (if beats b win then b else win) bs m

    -- No value beats the one picked.
    pub pick-unbeaten :
        (v win : A) (bs : List A) → Occurs v (win ∷ bs) → beats v (pick beats win bs) ≡ false
    pick-unbeaten v win bs (Occurs.head e) = rw e (pick-unbeaten_win win bs)
    pick-unbeaten v win bs (Occurs.tail m) = pick-unbeaten_rest v win bs m
