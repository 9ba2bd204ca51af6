-- ===== src/Compare/Values.antt =====
-- The orders of types and of values swap with their arguments.
use go_rdx.Prelude.{ℕ, ◌≡◌, refl, arith, false, List, [], ◌∷◌, ap₂}
use go_rdx.Prelude.Int.{ℤ, pos, negsuc}
use go_rdx.Cmp.{Cmp, eq, flip, by_num, is_below}
use go_rdx.Compare.{integer_order, bytes_order, type_order}

pub type_order-flip : (al bl : ℕ) → type_order bl al ≡ flip (type_order al bl)
unfolding type_order
type_order-flip al bl = ground arith

pub integer_order-flip : (a b : ℤ) → integer_order b a ≡ flip (integer_order a b)
unfolding integer_order
integer_order-flip (pos m) (pos n) = ground arith
integer_order-flip (pos m) (negsuc n) = refl
integer_order-flip (negsuc m) (pos n) = refl
integer_order-flip (negsuc m) (negsuc n) = ground arith

by_num-flip : (a b : ℕ) (rest : Cmp) → by_num b a (flip rest) ≡ flip (by_num a b rest)
by_num-flip a b rest = ground arith

pub bytes_order-flip : (a b : List ℕ) → bytes_order b a ≡ flip (bytes_order a b)
unfolding bytes_order
bytes_order-flip [] [] = refl
bytes_order-flip [] (b ∷ bs) = refl
bytes_order-flip (a ∷ as') [] = refl
bytes_order-flip (a ∷ as') (b ∷ bs) =
    rw (bytes_order-flip as' bs) (by_num-flip a b (bytes_order as' bs))

pub bytes_order-eq : (a b : List ℕ) → bytes_order a b ≡ eq → a ≡ b
unfolding bytes_order
bytes_order-eq [] [] h = refl
bytes_order-eq [] (b ∷ bs) h = absurd (ground arith)
bytes_order-eq (a ∷ as') [] h = absurd (ground arith)
bytes_order-eq (a ∷ as') (b ∷ bs) h =
    let same : a ≡ b = ground arith in ap₂ ◌∷◌ same (bytes_order-eq as' bs (ground arith))

-- Not being below is transitive.
pub bytes_order_weak :
    (a b c : List ℕ)
    → is_below (bytes_order b a) ≡ false
    → is_below (bytes_order c b) ≡ false
    → is_below (bytes_order c a) ≡ false
unfolding bytes_order
bytes_order_weak [] b [] h k = refl
bytes_order_weak [] b (c ∷ cs) h k = refl
bytes_order_weak (a ∷ as') [] c h k = absurd (ground arith)
bytes_order_weak (a ∷ as') (b ∷ bs) [] h k = absurd (ground arith)
bytes_order_weak (a ∷ as') (b ∷ bs) (c ∷ cs) h k =
    let ih = bytes_order_weak as' bs cs in ground arith
