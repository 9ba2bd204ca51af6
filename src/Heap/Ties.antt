-- ===== src/Heap/Ties.antt =====
-- EqUp brings to the front exactly the cursors of a heap that tie with the root.
use go_rdx.Prelude.{
  ℕ, zero, suc, ◌+◌, ◌*◌, ◌≤◌, ◌<◌, ◌≡◌, refl, ◌∙◌, arith, Bool, true, false, not, ◌||◌, ltb,
  ltb→lt, ◌==◌, List, [], ◌∷◌, ◌++◌, length, get_or, Outcome, ok, Perm, Bool-cases, inl, inr,
}
use mathlib.Core.List.Perm
use go_rdx.Prelude.Places.{
  get_elem?-get_or, exchange, length-exchange, get_or-exchange, exchange-Perm,
}
use go_rdx.Cmp.{Cmp, is_below, is_eq}
use go_rdx.Heap.{eq_loop, eq_up}
use go_rdx.Heap.Order.{Compares, parent, AllSound, IsHeap}

-- The queue: its places rise from `lo` up to `hi`.
abbrev Rising : ℕ → ℕ → List ℕ → Type 0
Rising lo hi [] = Unit {0}
Rising lo hi (e ∷ q) = (lo ≤ e) × (e ≤ hi) × Rising (suc e) hi q

abbrev queued : ℕ → List ℕ → Bool
queued p [] = false
queued p (e ∷ q) = p == e || queued p q

queued-Rising : (lo hi p : ℕ) (q : List ℕ) → Rising lo hi q → queued p q ≡ true → lo ≤ p
queued-Rising lo hi p [] r h = absurd (ground arith)
queued-Rising lo hi p (e ∷ q) (a, b, r) h = ground (arith, queued-Rising (suc e) hi p q r)

Rising-children :
    (lo hi n : ℕ) (q : List ℕ)
    → lo ≤ 2 * n + 1
    → hi ≤ 2 * n
    → Rising lo hi q
    → Rising lo (2 * n + 2) (q ++ ((2 * n + 1) ∷ (2 * n + 2) ∷ []))
Rising-children lo hi n [] h k r = omega arith
Rising-children lo hi n (e ∷ q) h k (a, b, r) =
    (a, omega arith, Rising-children (suc e) hi n q (omega arith) k r)

Rising-raised : (lo hi hi' : ℕ) (q : List ℕ) → hi ≤ hi' → Rising lo hi q → Rising lo hi' q
Rising-raised lo hi hi' [] h r = tt
Rising-raised lo hi hi' (e ∷ q) h (a, b, r) = (a, omega arith, Rising-raised (suc e) hi hi' q h r)

queued-append : (p : ℕ) (q r : List ℕ) → queued p (q ++ r) ≡ (queued p q || queued p r)
queued-append p [] r = refl
queued-append p (e ∷ q) r = ground (arith, queued-append p q r)

module _ {A : Type 0} (P : A → Type 0) (order : A → A → Cmp) (d : A) (z : A → A → Outcome Cmp)
    (compares : Compares P order z)
    (ties : (x y : A) → is_eq (order x y) ≡ not (is_below (order x y) || is_below (order y x)))
    (ih : List A) (sound : AllSound P order d ih) (heap : IsHeap P order d ih) where
  abbrev root : A
  root = get_or ih 0 d

  -- The cursor ties with the root.
  abbrev tied : A → Bool
  tied y = is_eq (order root y)

  root_least :
      (fuel p : ℕ) → p < fuel → p < length ih → is_below (order (get_or ih p d) root) ≡ false
  root_least zero p f h = absurd (omega arith)
  root_least (suc fuel) zero f h = compares.weak_order.strict root
  root_least (suc fuel) (suc p) f h =
      let c = suc p in
      compares.weak_order.weak (get_or ih c d) (get_or ih (parent c) d) root
        (heap c (omega arith) h) (root_least fuel (parent c) (omega arith) (omega arith))

  tied-parent :
      (p : ℕ)
      → 0 < p
      → p < length ih
      → tied (get_or ih p d) ≡ true
      → tied (get_or ih (parent p) d) ≡ true
  tied-parent p pos h t =
      let y = get_or ih p d in
      let x = get_or ih (parent p) d in
      ground (
        arith,
        ties root y,
        ties root x,
        heap p,
        root_least (suc p) (parent p),
        compares.weak_order.weak root y x,
      )

  -- The places below `m` are settled: the tied ones stand in front.
  record EqInv (m : ℕ) (q : List ℕ) (eqs : ℕ) (now : List A) : Type 0 where
    size : length now ≡ length ih
    front : (0 < eqs) × (eqs ≤ m) × (m ≤ length ih)
    sound_now : AllSound P order d now
    root_now : get_or now 0 d ≡ root
    tied_front : (i : ℕ) → i < eqs → tied (get_or now i d) ≡ true
    apart : (i : ℕ) → eqs ≤ i → i < m → tied (get_or now i d) ≡ false
    untouched : (i : ℕ) → m ≤ i → get_or now i d ≡ get_or ih i d
    rising : Rising m (2 * m) q
    complete :
        (p : ℕ)
        → m ≤ p
        → p < length ih
        → parent p < m
        → tied (get_or ih p d) ≡ true
        → queued p q ≡ true
    same : Perm now ih

  -- Between the settled places and the next place of the queue nothing ties.
  gap_apart :
      (fuel m n : ℕ) (q : List ℕ) (p : ℕ)
      → p < fuel
      → ((c : ℕ)
          → m ≤ c
          → c < length ih
          → parent c < m
          → tied (get_or ih c d) ≡ true
          → queued c q ≡ true)
      → ((c : ℕ) → queued c q ≡ true → n ≤ c)
      → 0 < m
      → m ≤ p
      → p < n
      → p < length ih
      → tied (get_or ih p d) ≡ false
  gap_apart zero m n q p f complete least pos a b h = absurd (omega arith)
  gap_apart (suc fuel) m n q p f complete least pos a b h =
      elim (Bool-cases (tied (get_or ih p d))) [
        | inr apart ↦ apart
        | inl t ↦
            let up = tied-parent p (omega arith) h t in
            elim (Bool-cases (ltb (parent p) m)) [
              | inl settled ↦
                  absurd (omega (arith, least p (complete p a h (ltb→lt (parent p) m settled) t)))
              | inr later ↦
                  ground (arith, gap_apart fuel m n q (parent p) (omega arith) complete least pos)
            ]
      ]

  advance :
      (m n eqs : ℕ) (q : List ℕ) (now : List A)
      → EqInv m q eqs now
      → m ≤ n
      → n ≤ length ih
      → ((c : ℕ) → queued c q ≡ true → n ≤ c)
      → Rising n (2 * n) q
      → EqInv n q eqs now
  advance m n eqs q now v h k least r =
      let gap = λ (p : ℕ) (a : m ≤ p) (b : p < n).
        gap_apart (suc p) m n q p (omega arith) v.complete least (omega (arith, v.front)) a b
          (omega arith) in
      record {
        size = v.size;
        front = omega (arith, v.front);
        sound_now = v.sound_now;
        root_now = v.root_now;
        tied_front = v.tied_front;
        apart = λ i a b. elim (Bool-cases (ltb i m)) [
          | inl before ↦ v.apart i a (ltb→lt i m before)
          | inr after ↦ rw (v.untouched i (ground arith)) (gap i (ground arith) b)
        ];
        untouched = λ i a. v.untouched i (omega arith);
        rising = r;
        complete = λ p a b c t. elim (Bool-cases (ltb (parent p) m)) [
          | inl before ↦ v.complete p (omega arith) b (ltb→lt (parent p) m before) t
          | inr after ↦
              let up = tied-parent p (omega (arith, v.front)) b t in
              ground (arith, gap (parent p), up)
        ];
        same = v.same;
      }

  module _ (n eqs : ℕ) (q : List ℕ) (now : List A) (v : EqInv n (n ∷ q) eqs now)
      (inside : n < length ih) where
    step_apart : tied (get_or ih n d) ≡ false → EqInv (suc n) q eqs now
    step_apart t = record {
      size = v.size;
      front = omega (arith, v.front);
      sound_now = v.sound_now;
      root_now = v.root_now;
      tied_front = v.tied_front;
      apart = λ i a b. ground (arith, v.apart i, v.untouched i);
      untouched = λ i a. v.untouched i (omega arith);
      rising = Rising-raised (suc n) (2 * n) (2 * suc n) q (omega arith) v.rising.2;
      complete =
          λ p a b c u. let up = tied-parent p (omega arith) b u in ground (arith, v.complete p);
      same = v.same;
    }

    step_tied :
        tied (get_or ih n d) ≡ true
        → EqInv (suc n) (q ++ ((2 * n + 1) ∷ (2 * n + 2) ∷ [])) (suc eqs) (exchange d now eqs n)
    step_tied t =
        let he : eqs < length now = omega (arith, v.front, v.size) in
        let hn : n < length now = omega (arith, v.size) in
        let here = λ (i : ℕ). get_or-exchange d now eqs n i he hn in
        let size = length-exchange d now eqs n in
        record {
          size = size ∙ v.size;
          front = omega (arith, v.front);
          sound_now = λ i h.
              ground (arith, here i, size, v.sound_now i, v.sound_now eqs he, v.sound_now n hn);
          root_now = here 0 ∙ ground (arith, v.front, v.root_now);
          tied_front = λ i a. ground (arith, here i, v.tied_front i, v.front, v.untouched n);
          apart = λ i a b. ground (arith, here i, v.apart i, v.apart eqs, v.front, v.untouched n);
          untouched = λ i a. ground (arith, here i, v.untouched i, v.front);
          rising =
              Rising-raised (suc n) (2 * n + 2) (2 * suc n) (q ++ ((2 * n + 1) ∷ (2 * n + 2) ∷ []))
                (omega arith)
                (Rising-children (suc n) (2 * n) n q (omega (arith, v.front)) (omega arith)
                  v.rising.2);
          complete = λ p a b c u.
              ground (arith, queued-append p q ((2 * n + 1) ∷ (2 * n + 2) ∷ []), v.complete p);
          same = Perm.trans (exchange-Perm d now eqs n he hn) v.same;
        }

  -- The tied cursors are the first `k`, and no others.
  pub record Fronted (k : ℕ) (now : List A) : Type 0 where
    pub tied_front : (i : ℕ) → i < k → tied (get_or now i d) ≡ true
    pub apart : (i : ℕ) → k ≤ i → i < length now → tied (get_or now i d) ≡ false
    pub root_now : get_or now 0 d ≡ root
    pub sound_now : AllSound P order d now
    pub same : Perm now ih

  ended : (q : List ℕ) (eqs : ℕ) (now : List A) → EqInv (length ih) q eqs now → Fronted eqs now
  ended q eqs now v = record {
    tied_front = v.tied_front;
    apart = λ i a b. v.apart i a (omega (arith, v.size));
    root_now = v.root_now;
    sound_now = v.sound_now;
    same = v.same;
  }

  eq_loop_fronts :
      (fuel m : ℕ) (q : List ℕ) (eqs : ℕ) (now : List A)
      → length ih < m + fuel
      → EqInv m q eqs now
      → (now' : List A) × (k : ℕ) × (eq_loop z fuel q eqs now ≡ ok (now', k)) × Fronted k now'
  unfolding eq_loop
  eq_loop_fronts zero m q eqs now f v = absurd (omega (arith, v.front))
  eq_loop_fronts (suc fuel) m [] eqs now f v = (
    now,
    eqs,
    refl,
    ended [] eqs now (
        advance m (length ih) eqs [] now v (omega (arith, v.front)) (omega arith)
          (λ c h. absurd (ground arith)) tt),
  )
  eq_loop_fronts (suc fuel) m (n ∷ q) eqs now f v =
      let (low, high, later) = v.rising in
      let least = λ (c : ℕ) (h : queued c (n ∷ q) ≡ true).
        queued-Rising n (2 * m) c (n ∷ q) (omega arith, high, later) h in
      elim (Bool-cases (ltb n (length now))) [
        | inr outside ↦
            let over : length ih ≤ n = ground (arith, v.size) in
            let last : EqInv (length ih) (n ∷ q) eqs now =
              advance m (length ih) eqs (n ∷ q) now v (omega (arith, v.front)) (omega arith)
                (λ c h. ground (arith, least c h))
                (
                  over,
                  omega (arith, v.front),
                  Rising-raised (suc n) (2 * m) (2 * length ih) q (omega (arith, v.front)) later,
                ) in
            (now, eqs, rw outside, ended (n ∷ q) eqs now last)
        | inl within ↦
            let inside : n < length ih = ground (arith, v.size, ltb→lt n (length now) within) in
            let v' : EqInv n (n ∷ q) eqs now =
              advance m n eqs (n ∷ q) now v low (omega arith) least (
                omega arith,
                omega arith,
                Rising-raised (suc n) (2 * m) (2 * n) q (omega arith) later,
              ) in
            let x_at = get_elem?-get_or d now 0 (omega (arith, v.size)) in
            let y_at = get_elem?-get_or d now n (ltb→lt n (length now) within) in
            let y : get_or now n d ≡ get_or ih n d = v'.untouched n (omega arith) in
            let run : z (get_or now 0 d) (get_or now n d) ≡ ok (order root (get_or ih n d)) =
              rw (v.root_now, y)
                (compares.gives root (get_or ih n d) (sound 0 (omega arith)) (sound n inside)) in
            elim (Bool-cases (tied (get_or ih n d))) [
              | inl t ↦
                  let next : eqs + 1 ≡ suc eqs = omega arith in
                  let (now', k, rest, good) =
                    eq_loop_fronts fuel (suc n) (q ++ ((2 * n + 1) ∷ (2 * n + 2) ∷ [])) (suc eqs)
                      (exchange d now eqs n) (omega arith) (step_tied n eqs q now v' inside t) in
                  (
                    now',
                    k,
                    rw (
                      within,
                      x_at,
                      y_at,
                      run,
                      t,
                      get_elem?-get_or d now eqs (omega (arith, v'.front, v.size)),
                      next,
                      rest,
                    ),
                    good,
                  )
              | inr t ↦
                  let (now', k, rest, good) =
                    eq_loop_fronts fuel (suc n) q eqs now (omega arith)
                      (step_apart n eqs q now v' inside t) in
                  (now', k, rw (within, x_at, y_at, run, t, rest), good)
            ]
      ]

  start : 0 < length ih → EqInv 1 (1 ∷ 2 ∷ []) 1 ih
  start pos = record {
    size = refl;
    front = omega arith;
    sound_now = sound;
    root_now = refl;
    tied_front = λ i h. ground (arith, ties root root, compares.weak_order.strict root);
    apart = λ i a b. absurd (omega arith);
    untouched = λ i a. refl;
    rising = omega arith;
    complete = λ p a b c t. ground arith;
    same = Perm.rfl;
  }

  -- For a comparison that returns on sound cursors, whose `below` is a strict weak order on them and
  -- which says Eq of two just when neither is below the other: EqUp of a heap of sound cursors that
  -- is not empty returns the same cursors, with exactly those that tie with the root in front, and
  -- their number.
  pub eq_up_fronts :
      0 < length ih → (now : List A) × (k : ℕ) × (eq_up z ih ≡ ok (now, k)) × Fronted k now
  unfolding eq_up
  eq_up_fronts pos = elim (Bool-cases (ltb (length ih) 2)) [
    | inl single ↦
        let one : length ih ≡ 1 = ground arith in
        (
          ih,
          length ih,
          rw single,
          record {
            tied_front = λ i h. ground (arith, ties root root, compares.weak_order.strict root);
            apart = λ i a b. absurd (omega arith);
            root_now = refl;
            sound_now = sound;
            same = Perm.rfl;
          },
        )
    | inr more ↦
        let (now, k, run, good) =
          eq_loop_fronts (length ih + 1) 1 (1 ∷ 2 ∷ []) 1 ih (omega arith) (start pos) in
        (now, k, rw (more, run), good)
  ]
