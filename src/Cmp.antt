-- ===== src/Cmp.antt =====
-- The results of a comparison in rdx.go: Less, LEq, Eq, GrEq and Grtr are -2, -1, 0, 1 and 2.
use go_rdx.Prelude.{ℕ, ◌≡◌, Bool, true, false, ltb, if◌then◌else◌}

pub data Cmp : Type 0 where
  less l_eq eq gr_eq grtr : Cmp

-- `z < Eq`, `z == Eq` and `z > Eq`.
abbrev pub is_below : Cmp → Bool
is_below less = true
is_below l_eq = true
is_below z = false

abbrev pub is_eq : Cmp → Bool
is_eq eq = true
is_eq z = false

abbrev pub is_above : Cmp → Bool
is_above gr_eq = true
is_above grtr = true
is_above z = false

-- The result for the arguments in the other order.
abbrev pub flip : Cmp → Cmp
flip less = grtr
flip l_eq = gr_eq
flip eq = eq
flip gr_eq = l_eq
flip grtr = less

-- The ladder `if a < b { Less } else if a > b { Grtr } else …`.
abbrev pub by_num : ℕ → ℕ → Cmp → Cmp
by_num a b rest = if ltb a b then less else if ltb b a then grtr else rest

-- A test that is the strict part of a total preorder.
pub record IsWeakOrder {A : Type 0} (beats : A → A → Bool) : Type 0 where
  pub strict : (x : A) → beats x x ≡ false
  pub weak : (x y z : A) → beats x y ≡ false → beats y z ≡ false → beats x z ≡ false
  pub asym : (x y : A) → beats x y ≡ true → beats y x ≡ false
