-- ===== src/Merkle/Growth.antt =====
-- Append keeps the peaks of a tree over all the leaves appended so far.
use go_rdx.Prelude.{
  ℕ, zero, suc, ◌+◌, ◌^◌, ◌<◌, ◌≡◌, ◌≢◌, ◌↔◌, refl, ap, ap₂, sym, ◌∙◌, arith, true, false, ◌==◌,
  ==_iff, List, [], ◌∷◌, ◌++◌, length, take, drop, All, length-append, append_assoc, take-append,
  drop-append, Outcome, Error, ok, err, panic, out_of_fuel, ◌>>=◌, Bool-cases, inl, inr,
}
use go_rdx.Prelude.Bits.{twice_pow}
use go_rdx.Merkle.{zeros, sha256_zero, sha_equal, is_empty, Line, merkle2, append}

sha_equal-eq : (a b : List ℕ) → sha_equal a b ≡ true → a ≡ b
unfolding sha_equal
sha_equal-eq [] [] h = refl
sha_equal-eq [] (b ∷ bs) h = absurd (ground arith)
sha_equal-eq (a ∷ as') [] h = absurd (ground arith)
sha_equal-eq (a ∷ as') (b ∷ bs) h = elim (Bool-cases (a == b)) [
  | inl same ↦ ap₂ ◌∷◌ ((==_iff a b).0 same) (sha_equal-eq as' bs (rw same at h))
  | inr apart ↦ absurd (ground arith)
]

is_empty-nonzero : (sha : List ℕ) → sha ≢ sha256_zero → is_empty sha ≡ false
unfolding is_empty
is_empty-nonzero sha h = elim (Bool-cases (is_empty sha)) [
  | inl e ↦ absurd (h (sha_equal-eq sha sha256_zero e))
  | inr e ↦ e
]

module _ (sha256 : List ℕ → List ℕ) where
  -- The hash of a perfect tree of height `k` over its `2 ^ k` leaves, from its definition.
  unfoldable pub tree_hash : ℕ → List (List ℕ) → List ℕ
  unfolding merkle2
  tree_hash zero [] = []
  tree_hash zero (leaf ∷ leaves) = leaf
  tree_hash (suc k) leaves =
      merkle2 sha256 (tree_hash k (take (2 ^ k) leaves)) (tree_hash k (drop (2 ^ k) leaves))

  -- The slots from height `k` on hold the perfect trees into which the leaves are cut, the last
  -- leaves in the lowest slot.
  pub data Holds : ℕ → Line → List (List ℕ) → Type 0 where
    behind : {k : ℕ} → Holds k [] []
    free :
        {k : ℕ} {line : Line} {leaves : List (List ℕ)}
        → Holds (suc k) line leaves
        → Holds k (sha256_zero ∷ line) leaves
    taken :
        {k : ℕ} {line : Line} {leaves : List (List ℕ)} (peak : List (List ℕ))
        → length peak ≡ 2 ^ k
        → tree_hash k peak ≢ sha256_zero
        → Holds (suc k) line leaves
        → Holds k (tree_hash k peak ∷ line) (leaves ++ peak)

  append-free :
      (line : Line) (next : List ℕ) → append sha256 (sha256_zero ∷ line) next ≡ ok (next ∷ line)
  unfolding append is_empty sha_equal zeros
  append-free line next = refl

  append-taken :
      (slot : List ℕ) (line : Line) (next : List ℕ)
      → slot ≢ sha256_zero
      → append sha256 (slot ∷ line) next
        ≡ (append sha256 line (merkle2 sha256 slot next) >>= λ rest. ok (sha256_zero ∷ rest))
  unfolding append
  append-taken slot line next h = rw (is_empty-nonzero slot h)

  +-zero : (k : ℕ) → k + 0 ≡ k
  +-zero k = omega arith

  zero-+ : (n : ℕ) → 0 + n ≡ n
  zero-+ n = omega arith

  +-suc : (k n : ℕ) → k + suc n ≡ suc k + n
  +-suc k n = omega arith

  tree_hash-append :
      (k : ℕ) (old peak : List (List ℕ))
      → length old ≡ 2 ^ k
      → tree_hash (suc k) (old ++ peak) ≡ merkle2 sha256 (tree_hash k old) (tree_hash k peak)
  unfolding tree_hash
  tree_hash-append k old peak e =
      rw (take-append old peak (2 ^ k) (sym e), drop-append old peak (2 ^ k) (sym e))

  -- No perfect tree over the last leaves, of any height, has the hash Sha256Zero.
  abbrev pub NoZero : List (List ℕ) → Type 0
  NoZero leaves =
      (k : ℕ) (front peak : List (List ℕ))
      → leaves ≡ front ++ peak
      → length peak ≡ 2 ^ k
      → tree_hash k peak ≢ sha256_zero

  append-Holds :
      {k : ℕ} {line : Line} {leaves : List (List ℕ)} (peak : List (List ℕ))
      → length peak ≡ 2 ^ k
      → NoZero (leaves ++ peak)
      → Holds k line leaves
      → length leaves + 2 ^ k < 2 ^ (k + length line)
      → (line' : Line) × (append sha256 line (tree_hash k peak) ≡ ok line')
        × (length line' ≡ length line)
        × Holds k line' (leaves ++ peak)
  unfolding merkle2
  append-Holds {k} peak e nz behind room = absurd (omega (arith, ap (◌^◌ 2) (+-zero k)))
  append-Holds {k} peak e nz (free {line = line} holds) room = (
    tree_hash k peak ∷ line,
    append-free line (tree_hash k peak),
    refl,
    taken peak e (nz k _ peak refl e) holds,
  )
  append-Holds {k} peak e nz (taken {line = line} {leaves = leaves} old e' nz' holds) room =
      let joined = tree_hash-append k old peak e' in
      let size : length (old ++ peak) ≡ 2 ^ suc k =
        omega (arith, length-append old peak, twice_pow 1 k) in
      let nonzero : NoZero (leaves ++ (old ++ peak)) = rw (sym (append_assoc leaves old peak)) nz in
      let fits : length leaves + 2 ^ suc k < 2 ^ (suc k + length line) =
        omega
          (arith, ap (◌^◌ 2) (+-suc k (length line)), length-append leaves old, twice_pow 1 k) in
      let (line', run, same, holds') = append-Holds (old ++ peak) size nonzero holds fits in
      let nested : append sha256 line (merkle2 sha256 (tree_hash k old) (tree_hash k peak))
          ≡ ok line' =
        ap (append sha256 line) (sym joined) ∙ run in
      let moved : Holds (suc k) line' (leaves ++ old ++ peak) =
        rw (append_assoc leaves old peak) holds' in
      (
        sha256_zero ∷ line',
        rw (append-taken (tree_hash k old) line (tree_hash k peak) nz', nested),
        ap suc same,
        free moved,
      )

  -- After Append the line holds one leaf more, at the end, in peaks that are the hashes of
  -- perfect trees over the leaves; it returns for fewer than 2 ^ n - 1 leaves in n slots. It is
  -- assumed of the hash and these leaves that no perfect tree over the last leaves, the new leaf
  -- alone included, has the hash Sha256Zero.
  pub append-grows :
      {line : Line} {leaves : List (List ℕ)} (next : List ℕ)
      → NoZero (leaves ++ (next ∷ []))
      → Holds 0 line leaves
      → length leaves + 1 < 2 ^ length line
      → (line' : Line) × (append sha256 line next ≡ ok line')
        × (length line' ≡ length line)
        × Holds 0 line' (leaves ++ (next ∷ []))
  unfolding tree_hash
  append-grows {line} next nz holds room =
      append-Holds (next ∷ []) refl nz holds (omega (arith, ap (◌^◌ 2) (zero-+ (length line))))

bind-panic :
    {A B : Type 0} (m : Outcome A) (g : A → B) (e : Error)
    → (((m >>= λ a. ok (g a)) ≡ panic) ↔ (m ≡ panic)) × ((m >>= λ a. ok (g a)) ≡ err e → m ≡ err e)
bind-panic (ok a) g e =
    ((λ h. absurd (ground arith), λ h. absurd (ground arith)), λ h. absurd (ground arith))
bind-panic (err e') g e =
    ((λ h. absurd (ground arith), λ h. absurd (ground arith)), λ h. ground arith)
bind-panic panic g e = ((λ h. refl, λ h. refl), λ h. absurd (ground arith))
bind-panic out_of_fuel g e =
    ((λ h. absurd (ground arith), λ h. absurd (ground arith)), λ h. absurd (ground arith))

module _ (sha256 : List ℕ → List ℕ) where
  -- Append panics exactly on a line without an empty slot, and returns no error, so that
  -- ErrOutOfRange is never seen.
  pub append-panic :
      (line : Line) (next : List ℕ) (e : Error)
      → ((append sha256 line next ≡ panic) ↔ All (λ slot. is_empty slot ≡ false) line)
        × (append sha256 line next ≢ err e)
  unfolding append
  append-panic [] next e = ((λ _. tt, λ _. refl), λ h. absurd (ground arith))
  append-panic (slot ∷ line) next e = elim (Bool-cases (is_empty slot)) [
    | inl unused ↦ (
      (λ h. absurd (ground (arith, unused)), λ h. absurd (ground (arith, unused, h.0))),
      λ h. absurd (ground (arith, unused)),
    )
    | inr used ↦
        let (both, no_error) = append-panic line (merkle2 sha256 slot next) e in
        let (same, back) =
          bind-panic (append sha256 line (merkle2 sha256 slot next)) (◌∷◌ sha256_zero) e in
        (
          (λ h. (used, both.0 (same.0 (rw used at h))), λ h. rw used (same.1 (both.1 h.1))),
          λ h. no_error (back (rw used at h)),
        )
  ]
