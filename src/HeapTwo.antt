-- ===== src/HeapTwo.antt =====
-- itheap.go: Heap2, which merges streams as they are read, over any kind of cursor. `z` and `y` are the
-- fields of that name: the order, and the function that writes the merge of elements at one place. That
-- `y` changes no cursor is assumed, since in the source it may be given a part of `inputs` itself.
mod Tests
use go_rdx.Prelude.{
  ℕ, zero, suc, ◌+◌, ◌-◌, ◌*◌, Bool, true, false, not, ltb, ◌==◌, if◌then◌else◌, List, [], ◌∷◌,
  ◌++◌, length, reverse, take, set, get_elem?, slice_from, Option, none, some, Outcome, ok,
  out_of_fuel, panic, ◌>>=◌, or_panic,
}
use go_rdx.Ident.{RdxId}
use go_rdx.Iter.{new_iter, read, parsed}
use go_rdx.Heap.{at, swap}
use go_rdx.Sifting.{heap_up, heap_down_n}

pub record Heap2 (A : Type 0) : Type 0 where
  pub inputs : List A
  pub out : List ℕ
  pub oldlen : ℕ

module _ {A : Type 0} (z : A → A → Bool) (y : List A → List ℕ → Outcome (List ℕ))
    (step : A → Outcome (A × Bool)) (has_data : A → Bool) where
  -- Less and Swap of Heap2; the loops of heap.go pass no place out of range.
  unfoldable pub less_at : List A → ℕ → ℕ → Bool
  less_at inputs i j = elim (get_elem? inputs i) [
    | none ↦ false
    | some a ↦ elim (get_elem? inputs j) [ none ↦ false | some b ↦ z a b ]
  ]

  unfoldable pub swap_at : List A → ℕ → ℕ → List A
  swap_at inputs i j = elim (get_elem? inputs i) [
    | none ↦ inputs
    | some a ↦ elim (get_elem? inputs j) [ none ↦ inputs | some b ↦ set (set inputs i b) j a ]
  ]

  unfoldable pub add_iter : Heap2 A → A → Heap2 A
  unfolding less_at swap_at
  add_iter h it = record h { inputs = heap_up length less_at swap_at (h.inputs ++ (it ∷ [])) }

  unfoldable pub make_heap2 : List A → Heap2 A → Heap2 A
  unfolding add_iter
  make_heap2 [] h = h
  make_heap2 (it ∷ inputs) h = make_heap2 inputs (add_iter h it)

  -- A place that is tied with the first.
  unfoldable pub tied_at : List A → ℕ → Outcome (List ℕ)
  tied_at inputs k =
      let tied = at inputs 0 >>= λ a. at inputs k >>= λ b. ok (if z a b then [] else k ∷ []) in
      if ltb k (length inputs) then tied else ok []

  -- The loop that collects `eqs`: `queue` is its part that is still to visit.
  unfoldable pub ties_loop : (fuel : ℕ) → List A → List ℕ → List ℕ → Outcome (List ℕ)
  unfolding tied_at
  ties_loop zero inputs eqs queue = out_of_fuel
  ties_loop (suc fuel) inputs eqs [] = ok eqs
  ties_loop (suc fuel) inputs eqs (k ∷ queue) = do
    left ← tied_at inputs (2 * k + 1)
    right ← tied_at inputs (2 * k + 2)
    ties_loop fuel inputs (eqs ++ (k ∷ [])) (queue ++ (left ++ right))

  -- The cursors at places; a part of `inputs` and a copy hold the same ones.
  unfoldable pub inputs_at : List A → List ℕ → Outcome (List A)
  inputs_at inputs [] = ok []
  inputs_at inputs (k ∷ ks) = do it ← at inputs k; its ← inputs_at inputs ks; ok (it ∷ its)

  unfoldable pub step_at : List A → List ℕ → Outcome (List A)
  step_at inputs [] = ok inputs
  step_at inputs (k ∷ ks) = do
    it ← at inputs k
    (next, more) ← step it
    step_at (set inputs k next) ks

  -- A cursor without data is replaced by the last; then it goes down.
  unfoldable pub sift_at : List A → List ℕ → Outcome (List A)
  unfolding less_at swap_at
  sift_at inputs [] = ok inputs
  sift_at inputs (k ∷ ks) = do
    it ← at inputs k
    let dropped : Outcome (List A) = do
      last ← at inputs (length inputs - 1)
      ok (take (length inputs - 1) (set inputs k last))
    left ← (if has_data it then ok inputs else dropped)
    sift_at (heap_down_n length less_at swap_at left k) ks

  unfoldable pub read_merged : Heap2 A → Outcome (Heap2 A × Bool)
  unfolding ties_loop inputs_at step_at sift_at
  read_merged h =
      let merged : Outcome (Heap2 A × Bool) = do
        eqs ← ties_loop (length h.inputs + 1) h.inputs [] (0 ∷ [])
        merge ← inputs_at h.inputs eqs
        out ← y merge h.out
        stepped ← step_at h.inputs (reverse eqs)
        sifted ← sift_at stepped (reverse eqs)
        ok (record { inputs = sifted; out = out; oldlen = length h.out }, true)
      in if length h.inputs == 0 then ok (h, false) else merged

-- Heap2.Record and Heap2.Parsed.
unfoldable pub merged_record : {A : Type 0} → Heap2 A → Outcome (List ℕ)
merged_record h = slice_from h.out h.oldlen

unfoldable pub merged_parsed : {A : Type 0} → Heap2 A → Outcome (ℕ × RdxId × List ℕ)
unfolding merged_record
merged_parsed h = do bytes ← merged_record h; (it, more) ← read (new_iter bytes); parsed it
