-- ===== src/Heap/Next.antt =====
-- NextK on the root alone, which MergeNext calls when nothing ties with it.
use go_rdx.Prelude.{
  ℕ, zero, suc, ◌-◌, ◌<◌, ◌≡◌, ◌≢◌, refl, ◌∙◌, arith, true, false, ltb, ◌==◌, List, [], ◌∷◌, ◌++◌,
  length, length-take, get_or, take, Option, none, Error, if◌then◌else◌, Outcome, ok, ◌>>=◌, Perm,
  Bool-cases, inl, inr,
}
use mathlib.Core.List.Perm
use mathlib.Core.List.{perm_middle, append-nil}
use go_rdx.Prelude.Places.{
  exchange, length-exchange, get_or-exchange, exchange-Perm, get_or-take, take-append-last,
}
use go_rdx.Cmp.{Cmp}
use go_rdx.Heap.{Source, down, remove, settle, next_k}
use go_rdx.Heap.Order.{Compares, parent, InOrder, AllSound, IsHeap, swap-exchange}
use go_rdx.Heap.Down.{DownInv, down_restores}

module _ {A : Type 0} (P : A → Type 0) (order : A → A → Cmp) (d : A) (z : A → A → Outcome Cmp)
    (compares : Compares P order z) (source : Source A) (x x' : A) (rest : List A)
    (sound : AllSound P order d (x ∷ rest)) (heap : IsHeap P order d (x ∷ rest)) where
  moved-DownInv : P x' → DownInv P order d 0 (x' ∷ rest) 0
  moved-DownInv px = record {
    sound = λ c h. new_sound c h;
    edges = λ c p k q n. under_root c (parent c) p k (ground arith) n (heap c p k);
    bridged = λ c p k e q b. absurd (omega arith);
  }
    where
      new_sound : (c : ℕ) → c < length (x' ∷ rest) → P (get_or (x' ∷ rest) c d)
      new_sound zero h = px
      new_sound (suc c) h = sound (suc c) h

      under_root :
          (c p : ℕ)
          → 0 < c
          → c < length (x' ∷ rest)
          → p < c
          → p ≢ 0
          → InOrder P order d (x ∷ rest) p c
          → InOrder P order d (x' ∷ rest) p c
      under_root zero p h k l n e = absurd (omega arith)
      under_root (suc c) zero h k l n e = absurd (n refl)
      under_root (suc c) (suc p) h k l n e = e

  -- For a comparison that returns on sound cursors and whose `below` is a strict weak order on them,
  -- and a heap of sound cursors: NextK of the root alone, when it moves on to a sound element,
  -- returns no error and a heap of the moved root and the other cursors.
  pub next_k-more :
      source.read x ≡ ok (x', true)
      → P x'
      → (ih' : List A) × (next_k z source 1 (x ∷ rest) ≡ ok (ih', none))
        × AllSound P order d ih'
        × IsHeap P order d ih'
        × Perm ih' (x' ∷ rest)
  unfolding next_k settle
  next_k-more reads px =
      let (ih', moved, run, sound', heap', same) =
        down_restores P order d z compares 0 (x' ∷ rest) 0 (moved-DownInv px) in
      (ih', rw (reads, run), sound', λ c h k. heap' c h k (omega arith), same)

  abbrev l : ℕ
  l = length rest

  -- The last cursor takes the place of the root, which is cut off.
  abbrev short : List A
  short = take l (exchange d (x' ∷ rest) l 0)

  length-short : length short ≡ l
  length-short =
      omega (arith, length-take l (exchange d (x' ∷ rest) l 0), length-exchange d (x' ∷ rest) l 0)

  get_or-short : (c : ℕ) → 0 < c → c < l → get_or short c d ≡ get_or (x ∷ rest) c d
  get_or-short zero p k = absurd (omega arith)
  get_or-short (suc c) p k =
      let taken = get_or-take d l (exchange d (x' ∷ rest) l 0) (suc c) k in
      let same = get_or-exchange d (x' ∷ rest) l 0 (suc c) (omega arith) (omega arith) in
      taken ∙ ground (arith, same)

  short-root : 0 < l → get_or short 0 d ≡ get_or (x ∷ rest) l d
  short-root pos =
      let taken = get_or-take d l (exchange d (x' ∷ rest) l 0) 0 pos in
      let same = get_or-exchange d (x' ∷ rest) l 0 0 (omega arith) (omega arith) in
      taken ∙ same ∙ at_last l pos
    where
      at_last : (n : ℕ) → 0 < n → get_or (x' ∷ rest) n d ≡ get_or (x ∷ rest) n d
      at_last zero p = absurd (omega arith)
      at_last (suc n) p = refl

  short-Perm : Perm short rest
  short-Perm =
      let whole = exchange d (x' ∷ rest) l 0 in
      let size : length whole ≡ suc l = length-exchange d (x' ∷ rest) l 0 in
      let same = get_or-exchange d (x' ∷ rest) l 0 l (omega arith) (omega arith) in
      let last : get_or whole l d ≡ x' = same ∙ at_root l in
      let split : short ++ (x' ∷ []) ≡ whole = rw last at (take-append-last d whole l size) in
      let joined : Perm (short ++ (x' ∷ [])) (x' ∷ rest) =
        rw split (exchange-Perm d (x' ∷ rest) l 0 (omega arith) (omega arith)) in
      let front : Perm (x' ∷ short) (short ++ (x' ∷ [])) =
        Perm.symm (rw append-nil at (perm_middle {a = x'} short [])) in
      Perm.cons_inv (Perm.trans front joined)
    where
      at_root :
          (n : ℕ)
          → (if n == 0
              then get_or (x' ∷ rest) n d
              else if n == n
              then x'
              else get_or (x' ∷ rest) n d)
            ≡ x'
      at_root zero = refl
      at_root (suc n) = ground arith

  short-DownInv : DownInv P order d 0 short 0
  short-DownInv = record {
    sound = λ c h. elim (Bool-cases (c == 0)) [
      | inl e ↦ ground (arith, short-root, sound l, length-short)
      | inr e ↦ ground (arith, get_or-short c, sound c, length-short)
    ];
    edges =
        λ c p k q n. ground (arith, get_or-short c, get_or-short (parent c), length-short, heap c);
    bridged = λ c p k e q b. absurd (omega arith);
  }

  remove_root :
      remove z (x' ∷ rest) 0
      ≡ (if ltb 0 l then (down z short 0 >>= λ (ih', moved). ok ih') else ok short)
  unfolding remove
  remove_root =
      let last : length (x' ∷ rest) - 1 ≡ l = omega arith in
      rw (last, swap-exchange d (x' ∷ rest) l 0 (omega arith) (omega arith))

  -- A root that has ended is removed: the heap of the other cursors is left.
  pub next_k-end :
      source.read x ≡ ok (x', false)
      → source.has_failed x' ≡ false
      → (ih' : List A) × (next_k z source 1 (x ∷ rest) ≡ ok (ih', none))
        × AllSound P order d ih'
        × IsHeap P order d ih'
        × Perm ih' rest
  unfolding next_k settle
  next_k-end reads fine =
      let (ih', moved, run, sound', heap', same) =
        down_restores P order d z compares 0 short 0 short-DownInv in
      elim (Bool-cases (ltb 0 l)) [
        | inl some_left ↦ (
          ih',
          rw (reads, fine, remove_root, some_left, run),
          sound',
          λ c h k. heap' c h k (omega arith),
          Perm.trans same short-Perm,
        )
        | inr alone ↦ (
          short,
          rw (reads, fine, remove_root, alone),
          λ c h. absurd (ground (arith, length-short)),
          λ c h k. absurd (ground (arith, length-short)),
          short-Perm,
        )
      ]

  -- A root that fails stops the loop: the heap stays as it is, with the error of the cursor.
  pub next_k-failed :
      (e : Option Error)
      → source.read x ≡ ok (x', false)
      → source.has_failed x' ≡ true
      → source.error x' ≡ ok e
      → next_k z source 1 (x ∷ rest) ≡ ok (x' ∷ rest, e)
  unfolding next_k
  next_k-failed e reads failed error = rw (reads, failed, error)
