-- ===== src/Prelude/Lists.antt =====
-- Byte slices are lists of numbers, measured and indexed by native numbers.
use Prim.Native.Nat.{ℕ, zero, suc, ◌+◌, ◌-◌, ◌≤◌, min}
use mathlib.Core.Path.{◌≡◌, refl, ap}
use mathlib.Core.List.{List, [], ◌∷◌, ◌++◌}
use mathlib.Core.Option.{Option, none, some}
use native.Mathlib.Omega.{arith}

module _ {ℓ} {A : Type ℓ} where
  abbrev pub length : List A → ℕ
  length [] = 0
  length (x ∷ xs) = suc (length xs)

  abbrev pub get_elem? : List A → ℕ → Option A
  get_elem? [] i = none
  get_elem? (x ∷ xs) zero = some x
  get_elem? (x ∷ xs) (suc i) = get_elem? xs i

  abbrev pub get_or : List A → ℕ → A → A
  get_or [] i d = d
  get_or (x ∷ xs) zero d = x
  get_or (x ∷ xs) (suc i) d = get_or xs i d

  -- A write out of bounds changes nothing.
  abbrev pub set : List A → ℕ → A → List A
  set [] i v = []
  set (x ∷ xs) zero v = v ∷ xs
  set (x ∷ xs) (suc i) v = x ∷ set xs i v

  abbrev pub take : ℕ → List A → List A
  take zero xs = []
  take (suc n) [] = []
  take (suc n) (x ∷ xs) = x ∷ take n xs

  abbrev pub drop : ℕ → List A → List A
  drop zero xs = xs
  drop (suc n) [] = []
  drop (suc n) (x ∷ xs) = drop n xs

  abbrev pub replicate : ℕ → A → List A
  replicate zero a = []
  replicate (suc n) a = a ∷ replicate n a

  abbrev pub All {κ} : (A → Type κ) → List A → Type κ
  All P [] = Unit {κ}
  All P (x ∷ xs) = P x × All P xs

module _ {ℓ} {A : Type ℓ} where
  pub length-append : (xs ys : List A) → length (xs ++ ys) ≡ length xs + length ys
  length-append [] ys = omega arith
  length-append (x ∷ xs) ys = omega (arith, length-append xs ys)

  pub take-append-drop : (n : ℕ) (xs : List A) → take n xs ++ drop n xs ≡ xs
  take-append-drop zero xs = refl
  take-append-drop (suc n) [] = refl
  take-append-drop (suc n) (x ∷ xs) = rw (take-append-drop n xs)

  pub length-take : (n : ℕ) (xs : List A) → length (take n xs) ≡ min n (length xs)
  length-take zero xs = omega arith
  length-take (suc n) [] = omega arith
  length-take (suc n) (x ∷ xs) = omega (arith, length-take n xs)

  pub length-drop : (n : ℕ) (xs : List A) → length (drop n xs) ≡ length xs - n
  length-drop zero xs = omega arith
  length-drop (suc n) [] = omega arith
  length-drop (suc n) (x ∷ xs) = omega (arith, length-drop n xs)

  pub length-set : (xs : List A) (i : ℕ) (v : A) → length (set xs i v) ≡ length xs
  length-set [] i v = refl
  length-set (x ∷ xs) zero v = refl
  length-set (x ∷ xs) (suc i) v = ap suc (length-set xs i v)

  -- A split at the length of the front.
  pub take-length : (xs : List A) → take (length xs) xs ≡ xs
  take-length [] = refl
  take-length (x ∷ xs) = rw (take-length xs)

  pub take-append : (xs ys : List A) (n : ℕ) → n ≡ length xs → take n (xs ++ ys) ≡ xs
  take-append [] ys zero e = refl
  take-append [] ys (suc n) e = absurd (omega arith)
  take-append (x ∷ xs) ys zero e = absurd (omega arith)
  take-append (x ∷ xs) ys (suc n) e = ap (◌∷◌ x) (take-append xs ys n (omega arith))

  pub drop-append : (xs ys : List A) (n : ℕ) → n ≡ length xs → drop n (xs ++ ys) ≡ ys
  drop-append [] ys zero e = refl
  drop-append [] ys (suc n) e = absurd (omega arith)
  drop-append (x ∷ xs) ys zero e = absurd (omega arith)
  drop-append (x ∷ xs) ys (suc n) e = drop-append xs ys n (omega arith)

  pub All-append {κ} : (P : A → Type κ) (xs ys : List A) → All P xs → All P ys → All P (xs ++ ys)
  All-append P [] ys h k = k
  All-append P (x ∷ xs) ys (p, h) k = (p, All-append P xs ys h k)

module _ {ℓ} {A : Type ℓ} where
  -- `copy(ys, bytes)`: the shorter length counts.
  abbrev pub overwrite : List A → List A → List A
  overwrite [] ys = ys
  overwrite (b ∷ bs) [] = []
  overwrite (b ∷ bs) (y ∷ ys) = b ∷ overwrite bs ys

  -- `copy(ys[k:], bytes)`
  abbrev pub copy_to : ℕ → List A → List A → List A
  copy_to zero bytes ys = overwrite bytes ys
  copy_to (suc k) bytes [] = []
  copy_to (suc k) bytes (y ∷ ys) = y ∷ copy_to k bytes ys

module _ {ℓ} {A : Type ℓ} where
  -- Positions past the front count from its end.
  pub copy_to-append :
      (front bytes ys : List A) (i k : ℕ)
      → i ≡ length front + k
      → copy_to i bytes (front ++ ys) ≡ front ++ copy_to k bytes ys
  copy_to-append [] bytes ys i k e = let same : i ≡ k = omega arith in rw same
  copy_to-append (x ∷ front) bytes ys zero k e = absurd (omega arith)
  copy_to-append (x ∷ front) bytes ys (suc i) k e =
      ap (◌∷◌ x) (copy_to-append front bytes ys i k (omega arith))

  pub set-append :
      (front ys : List A) (i k : ℕ) (v : A)
      → i ≡ length front + k
      → set (front ++ ys) i v ≡ front ++ set ys k v
  set-append [] ys i k v e = let same : i ≡ k = omega arith in rw same
  set-append (x ∷ front) ys zero k v e = absurd (omega arith)
  set-append (x ∷ front) ys (suc i) k v e = ap (◌∷◌ x) (set-append front ys i k v (omega arith))

  pub take-append_past :
      (front ys : List A) (i k : ℕ)
      → i ≡ length front + k
      → take i (front ++ ys) ≡ front ++ take k ys
  take-append_past [] ys i k e = let same : i ≡ k = omega arith in rw same
  take-append_past (x ∷ front) ys zero k e = absurd (omega arith)
  take-append_past (x ∷ front) ys (suc i) k e =
      ap (◌∷◌ x) (take-append_past front ys i k (omega arith))

  pub drop-append_past :
      (front ys : List A) (i k : ℕ) → i ≡ length front + k → drop i (front ++ ys) ≡ drop k ys
  drop-append_past [] ys i k e = let same : i ≡ k = omega arith in rw same
  drop-append_past (x ∷ front) ys zero k e = absurd (omega arith)
  drop-append_past (x ∷ front) ys (suc i) k e = drop-append_past front ys i k (omega arith)

  pub get_or-append :
      (front ys : List A) (i k : ℕ) (d : A)
      → i ≡ length front + k
      → get_or (front ++ ys) i d ≡ get_or ys k d
  get_or-append [] ys i k d e = let same : i ≡ k = omega arith in rw same
  get_or-append (x ∷ front) ys zero k d e = absurd (omega arith)
  get_or-append (x ∷ front) ys (suc i) k d e = get_or-append front ys i k d (omega arith)

  pub take_all : (xs : List A) (n : ℕ) → length xs ≤ n → take n xs ≡ xs
  take_all [] zero h = refl
  take_all [] (suc n) h = refl
  take_all (x ∷ xs) zero h = absurd (omega arith)
  take_all (x ∷ xs) (suc n) h = ap (◌∷◌ x) (take_all xs n (omega arith))

  pub overwrite-append :
      (bytes ys rest : List A)
      → length ys ≡ length bytes
      → overwrite bytes (ys ++ rest) ≡ bytes ++ rest
  overwrite-append [] [] rest e = refl
  overwrite-append [] (y ∷ ys) rest e = absurd (omega arith)
  overwrite-append (b ∷ bytes) [] rest e = absurd (omega arith)
  overwrite-append (b ∷ bytes) (y ∷ ys) rest e =
      ap (◌∷◌ b) (overwrite-append bytes ys rest (omega arith))

  pub take-overwrite :
      (bytes ys : List A)
      → length bytes ≤ length ys
      → take (length bytes) (overwrite bytes ys) ≡ bytes
  take-overwrite [] ys h = refl
  take-overwrite (b ∷ bytes) [] h = absurd (omega arith)
  take-overwrite (b ∷ bytes) (y ∷ ys) h = ap (◌∷◌ b) (take-overwrite bytes ys (omega arith))

  overwrite_whole : (bytes ys : List A) → length ys ≡ length bytes → overwrite bytes ys ≡ bytes
  overwrite_whole [] [] h = refl
  overwrite_whole [] (y ∷ ys) h = absurd (omega arith)
  overwrite_whole (b ∷ bytes) [] h = absurd (omega arith)
  overwrite_whole (b ∷ bytes) (y ∷ ys) h = ap (◌∷◌ b) (overwrite_whole bytes ys (omega arith))

  -- A copy up to the end replaces the rest.
  pub copy_to-rest :
      (k : ℕ) (bytes ys : List A)
      → length ys ≡ k + length bytes
      → copy_to k bytes ys ≡ take k ys ++ bytes
  copy_to-rest zero bytes ys h = overwrite_whole bytes ys (omega arith)
  copy_to-rest (suc k) bytes [] h = absurd (omega arith)
  copy_to-rest (suc k) bytes (y ∷ ys) h = ap (◌∷◌ y) (copy_to-rest k bytes ys (omega arith))
