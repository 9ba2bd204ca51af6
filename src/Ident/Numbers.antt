-- ===== src/Ident/Numbers.antt =====
-- RON64String and ParseRON64.
use go_rdx.Prelude.{
  ℕ, zero, suc, ◌+◌, ◌-◌, ◌*◌, ◌/◌, ◌%◌, ◌^◌, ◌≤◌, ◌<◌, ◌≡◌, refl, sym, ap, ◌∙◌, arith, append-nil,
  bit_and, List, [], ◌∷◌, ◌++◌, length, IsU64, dec_lt,
}
use go_rdx.Prelude.Order.{lt_wf}
use go_rdx.Prelude.Bits.{bit_or-shifted, bit_and-ones}
use go_rdx.Ident.{digit_shrinks, string_loop, ron64_string, parse_loop, parse_ron64}
use go_rdx.Ident.Digits.{ron64, ron64_rev, ron64_rev-ron64}
use mathlib.Core.WellFounded.{Acc}
use mathlib.Core.Logic.{dif_pos, dif_neg}
use native.Mathlib.Bridge.{le_prop}
use native.Mathlib.Nat.{pow-suc}

-- The next byte is no digit.
abbrev pub Stops : List ℕ → Type 0
Stops [] = Unit {0}
Stops (c ∷ rest) = ron64_rev c ≡ 0xff

parse_loop_stop :
    (left val : ℕ) (rest : List ℕ) → Stops rest → parse_loop left val rest ≡ (val, rest)
unfolding parse_loop
parse_loop_stop zero val rest h = refl
parse_loop_stop (suc left) val [] h = refl
parse_loop_stop (suc left) val (c ∷ rest) h = ground arith

-- A digit is read as the lowest six bits.
parse_loop_digit :
    (left q d : ℕ) (rest : List ℕ)
    → d < 64
    → q * 64 + d < 2 ^ 64
    → parse_loop (suc left) q (ron64 d ∷ rest) ≡ parse_loop left (q * 64 + d) rest
unfolding parse_loop
parse_loop_digit left q d rest h k =
    let kept : q * 2 ^ 6 % 2 ^ 64 ≡ q * 2 ^ 6 = omega arith in
    rw (ron64_rev-ron64 d h, kept, bit_or-shifted 6 q d h) (ground arith)

pub low_digit : (u : ℕ) → bit_and u 63 ≡ u % 64
low_digit u = bit_and-ones 6 u

module _ (u : ℕ) (smaller : (y : ℕ) → y < u → Acc ◌<◌ y) (ret : List ℕ) where
  pub string_loop_more :
      (p : 0 < u / 2 ^ 6)
      → string_loop u (Acc.intro u smaller) ret
        ≡ string_loop
            (u / 2 ^ 6)
            (smaller (u / 2 ^ 6) (digit_shrinks u p))
            (ron64 (bit_and u 63) ∷ ret)
  unfolding string_loop
  string_loop_more p = dif_pos (dec_lt 0 (u / 2 ^ 6)) le_prop p _ _

  pub string_loop_last :
      ¬ (0 < u / 2 ^ 6) → string_loop u (Acc.intro u smaller) ret ≡ ron64 (bit_and u 63) ∷ ret
  unfolding string_loop
  string_loop_last p = dif_neg (dec_lt 0 (u / 2 ^ 6)) p _ _

string_loop-append :
    (u : ℕ) (w : Acc ◌<◌ u) (ret rest : List ℕ)
    → string_loop u w ret ++ rest ≡ string_loop u w (ret ++ rest)
string_loop-append u (Acc.intro _ smaller) ret rest = elim (dec_lt 0 (u / 2 ^ 6)) [
  | yes p ↦
      rw (string_loop_more u smaller ret p, string_loop_more u smaller (ret ++ rest) p)
        (string_loop-append (u / 2 ^ 6) (smaller (u / 2 ^ 6) (digit_shrinks u p))
          (ron64 (bit_and u 63) ∷ ret) rest)
  | no p ↦ rw (string_loop_last u smaller ret p, string_loop_last u smaller (ret ++ rest) p)
]

-- `n` digits are written before `ret`, and reading them gives `u`.
abbrev Written : ℕ → List ℕ → List ℕ → ℕ → Type 0
Written u text ret n =
    (length text ≡ n + length ret)
    × ((left : ℕ) → parse_loop (n + left) 0 text ≡ parse_loop left u ret)

Written-step :
    (u n : ℕ) (text ret : List ℕ)
    → IsU64 u
    → Written (u / 64) text (ron64 (bit_and u 63) ∷ ret) n
    → Written u text ret (n + 1)
Written-step u n text ret h (size, reads) = (
  omega arith,
  λ left.
      let split : n + 1 + left ≡ n + suc left = omega arith in
      let joined : u / 64 * 64 + u % 64 ≡ u = omega arith in
      rw (split, reads (suc left), low_digit u)
        (parse_loop_digit left (u / 64) (u % 64) ret (omega arith) (omega arith)
          ∙ ap (λ (v : ℕ). parse_loop left v ret) joined),
)

Written_last :
    (u : ℕ) (ret : List ℕ) → IsU64 u → u < 64 → Written u (ron64 (bit_and u 63) ∷ ret) ret 1
Written_last u ret h b = (
  omega arith,
  λ left.
      let split : 1 + left ≡ suc left = omega arith in
      let digit : u % 64 ≡ u = omega arith in
      let whole : 0 * 64 + u ≡ u = omega arith in
      rw (split, low_digit u, digit)
        (parse_loop_digit left 0 u ret b (omega arith)
          ∙ ap (λ (v : ℕ). parse_loop left v ret) whole),
)

string_loop-Written :
    (k u : ℕ) (w : Acc ◌<◌ u) (ret : List ℕ)
    → IsU64 u
    → u < 64 ^ suc k
    → (n : ℕ) × (n ≤ suc k) × Written u (string_loop u w ret) ret n
string_loop-Written zero u (Acc.intro _ smaller) ret h b =
    rw (string_loop_last u smaller ret (omega arith))
      (1, omega arith, Written_last u ret h (omega arith))
string_loop-Written (suc k) u (Acc.intro _ smaller) ret h b = elim (dec_lt 0 (u / 2 ^ 6)) [
  | yes p ↦
      let (n, le, written) =
        string_loop-Written k (u / 2 ^ 6) (smaller (u / 2 ^ 6) (digit_shrinks u p))
          (ron64 (bit_and u 63) ∷ ret) (omega arith) (omega (arith, pow-suc 64 (suc k))) in
      rw (string_loop_more u smaller ret p) (n + 1, omega arith, Written-step u n _ ret h written)
  | no p ↦
      rw (string_loop_last u smaller ret p) (1, omega arith, Written_last u ret h (omega arith))
]

ron64_string-Written :
    (k u : ℕ) (rest : List ℕ)
    → IsU64 u
    → u < 64 ^ suc k
    → (n : ℕ) × (n ≤ suc k) × Written u (ron64_string u ++ rest) rest n
unfolding ron64_string
ron64_string-Written k u rest h b =
    rw (string_loop-append u (lt_wf.apply u) [] rest)
      (string_loop-Written k u (lt_wf.apply u) rest h b)

-- ParseRON64 reads back every uint64 that RON64String writes, and leaves what follows it, if that
-- does not begin with a digit.
pub parse_ron64-string :
    (u : ℕ) (rest : List ℕ)
    → IsU64 u
    → Stops rest
    → parse_ron64 (ron64_string u ++ rest) ≡ (u, rest)
unfolding parse_ron64
parse_ron64-string u rest h stops =
    let (n, le, (size, reads)) = ron64_string-Written 10 u rest h (omega arith) in
    let rounds : n + (11 - n) ≡ 11 = omega arith in
    (ap (λ (k : ℕ). parse_loop k 0 (ron64_string u ++ rest)) (sym rounds) ∙ reads (11 - n))
    ∙ parse_loop_stop (11 - n) u rest stops

-- A number below 64 ^ k takes at most k digits.
pub length-ron64_string : (k u : ℕ) → IsU64 u → u < 64 ^ suc k → length (ron64_string u) ≤ suc k
length-ron64_string k u h b =
    let (n, le, written) = ron64_string-Written k u [] h b in
    omega (arith, written.0, ap length (append-nil (ron64_string u)))
