-- ===== src/Prelude/Places.antt =====
-- Places of a list, with a default behind its end, and the exchange of two of them.
use Prim.Native.Nat.{ℕ, zero, suc, ◌<◌}
use mathlib.Core.Path.{◌≡◌, refl, ap, ◌∙◌}
use mathlib.Core.Option.{some}
use mathlib.Core.List.{List, [], ◌∷◌, ◌++◌}
use mathlib.Core.List.{Perm}
use mathlib.Core.List.Perm
use native.Mathlib.Omega.{arith}
use go_rdx.Prelude.Tests.{◌==◌, if◌then◌else◌}
use go_rdx.Prelude.Lists.{length, get_elem?, get_or, set, take, length-set}

module _ {A : Type 0} (d : A) where
  pub get_elem?-get_or :
      (xs : List A) (i : ℕ) → i < length xs → get_elem? xs i ≡ some (get_or xs i d)
  get_elem?-get_or [] i h = absurd (omega arith)
  get_elem?-get_or (x ∷ xs) zero h = refl
  get_elem?-get_or (x ∷ xs) (suc i) h = get_elem?-get_or xs i (omega arith)

  pub get_or-set :
      (xs : List A) (i : ℕ) (v : A) (c : ℕ)
      → i < length xs
      → get_or (set xs i v) c d ≡ (if c == i then v else get_or xs c d)
  get_or-set [] i v c h = absurd (omega arith)
  get_or-set (x ∷ xs) zero v zero h = refl
  get_or-set (x ∷ xs) zero v (suc c) h = ground arith
  get_or-set (x ∷ xs) (suc i) v zero h = ground arith
  get_or-set (x ∷ xs) (suc i) v (suc c) h = ground (arith, get_or-set xs i v c)

  set-Perm :
      (xs : List A) (i : ℕ) (v : A) → i < length xs → Perm (get_or xs i d ∷ set xs i v) (v ∷ xs)
  set-Perm [] i v h = absurd (omega arith)
  set-Perm (x ∷ xs) zero v h = Perm.swap v x xs
  set-Perm (x ∷ xs) (suc i) v h =
      let deeper = Perm.cons x (set-Perm xs i v (omega arith)) in
      Perm.trans (Perm.swap x (get_or xs i d) (set xs i v)) (Perm.trans deeper (Perm.swap v x xs))

  abbrev pub exchange : List A → ℕ → ℕ → List A
  exchange xs i j = set (set xs i (get_or xs j d)) j (get_or xs i d)

  pub length-exchange : (xs : List A) (i j : ℕ) → length (exchange xs i j) ≡ length xs
  length-exchange xs i j =
      length-set (set xs i (get_or xs j d)) j (get_or xs i d) ∙ length-set xs i (get_or xs j d)

  pub get_or-exchange :
      (xs : List A) (i j c : ℕ)
      → i < length xs
      → j < length xs
      → get_or (exchange xs i j) c d
        ≡ (if c == j then get_or xs i d else if c == i then get_or xs j d else get_or xs c d)
  get_or-exchange xs i j c hi hj =
      let ys = set xs i (get_or xs j d) in
      let fits : j < length ys = omega (arith, length-set xs i (get_or xs j d)) in
      ground (arith, get_or-set ys j (get_or xs i d) c fits, get_or-set xs i (get_or xs j d) c hi)

  pub exchange-Perm :
      (xs : List A) (i j : ℕ) → i < length xs → j < length xs → Perm (exchange xs i j) xs
  exchange-Perm xs i j hi hj =
      let y = get_or xs j d in
      let ys = set xs i y in
      let fits : j < length ys = omega (arith, length-set xs i y) in
      let same : get_or ys j d ≡ y = ground (arith, get_or-set xs i y j hi) in
      let once : Perm (y ∷ exchange xs i j) (get_or xs i d ∷ ys) =
        rw same at (set-Perm ys j (get_or xs i d) fits) in
      Perm.cons_inv (Perm.trans once (set-Perm xs i y hi))

  pub get_or-take : (n : ℕ) (xs : List A) (c : ℕ) → c < n → get_or (take n xs) c d ≡ get_or xs c d
  get_or-take zero xs c h = absurd (omega arith)
  get_or-take (suc n) [] c h = refl
  get_or-take (suc n) (x ∷ xs) zero h = refl
  get_or-take (suc n) (x ∷ xs) (suc c) h = get_or-take n xs c (omega arith)

  pub take-append-last :
      (xs : List A) (l : ℕ) → length xs ≡ suc l → take l xs ++ (get_or xs l d ∷ []) ≡ xs
  take-append-last [] l h = absurd (omega arith)
  take-append-last (x ∷ []) zero h = refl
  take-append-last (x ∷ []) (suc l) h = absurd (omega arith)
  take-append-last (x ∷ y ∷ xs) zero h = absurd (omega arith)
  take-append-last (x ∷ y ∷ xs) (suc l) h = ap (◌∷◌ x) (take-append-last (y ∷ xs) l (omega arith))
