-- ===== src/Prelude/Cut.antt =====
-- Slice expressions. A slice's capacity is its length here, so a bound past the end panics.
use Prim.Native.Nat.{ℕ, ◌-◌, ◌+◌}
use mathlib.Core.Bool.{true, ◌&&◌}
use mathlib.Core.List.{List, ◌++◌}
use mathlib.Core.Path.{◌≡◌, refl, ap}
use native.Mathlib.Omega.{arith}
use go_rdx.Prelude.Tests.{leb, if◌then◌else◌}
use go_rdx.Prelude.Lists.{
  length, take, drop, take-append, drop-append, drop-append_past, length-append,
}
use go_rdx.Prelude.Results.{Outcome, ok, panic}

module _ {ℓ} {A : Type ℓ} where
  -- `a[lo:hi]`
  abbrev pub slice : List A → ℕ → ℕ → Outcome (List A)
  slice a lo hi = if leb lo hi && leb hi (length a) then ok (take (hi - lo) (drop lo a)) else panic

  -- `a[lo:]`
  abbrev pub slice_from : List A → ℕ → Outcome (List A)
  slice_from a lo = if leb lo (length a) then ok (drop lo a) else panic

  -- `a[:hi]`
  abbrev pub slice_to : List A → ℕ → Outcome (List A)
  slice_to a hi = if leb hi (length a) then ok (take hi a) else panic

module _ {ℓ} {A : Type ℓ} where
  -- The middle of three parts, and the last.
  pub slice-append :
      (front mid rest : List A) (lo hi : ℕ)
      → lo ≡ length front
      → hi ≡ lo + length mid
      → slice (front ++ (mid ++ rest)) lo hi ≡ ok mid
  slice-append front mid rest lo hi p q =
      let size = length-append front (mid ++ rest) in
      let size' = length-append mid rest in
      let fits : leb hi (length (front ++ (mid ++ rest))) ≡ true = ground arith in
      let ordered : leb lo hi ≡ true = ground arith in
      rw (fits, ordered, drop-append front (mid ++ rest) lo p)
        (ap ok (take-append mid rest (hi - lo) (omega arith)))

  pub slice_from-append :
      (front mid rest : List A) (hi : ℕ)
      → hi ≡ length front + length mid
      → slice_from (front ++ (mid ++ rest)) hi ≡ ok rest
  slice_from-append front mid rest hi p =
      let size = length-append front (mid ++ rest) in
      let size' = length-append mid rest in
      let fits : leb hi (length (front ++ (mid ++ rest))) ≡ true = ground arith in
      rw (fits, drop-append_past front (mid ++ rest) hi (length mid) p)
        (ap ok (drop-append mid rest (length mid) refl))
