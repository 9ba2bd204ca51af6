-- ===== src/Iter/Faults.antt =====
-- Records that Read accepts and the accessors then misread: the sum of two byte-wide lengths wraps,
-- and an identifier as long as the record leaves a value of length -1.
use go_rdx.Prelude.{
  ℕ, ◌+◌, ◌≤◌, ◌≡◌, refl, ap, ◌∙◌, arith, true, false, ◌==◌, List, ◌∷◌, length, ok, panic,
}
use go_rdx.Prelude.Int.{pos, negsuc}
use go_rdx.Tlv.Case.{IsUpper, case_lem}
use go_rdx.Iter.{
  Iter, new_iter, value_start, record_end, rest, value, read, read_next, read_record, read_id,
}
use go_rdx.Iter.Reading.{read_lem}

-- A short record of 254 bytes whose identifier claims 253 ends where it starts: reading on returns
-- the same record for ever.
unfoldable pub stuck : ℕ → List ℕ → Iter
stuck lit body = record {
  bytes = (lit + 32) ∷ 254 ∷ 253 ∷ body;
  vallen = pos 0;
  hdrlen = 3;
  idlen = 253;
  lit = lit;
  errndx = 0;
}

next_stuck :
    (it : Iter) (lit : ℕ) (body : List ℕ)
    → IsUpper lit
    → it.errndx ≡ 0
    → 253 ≤ length body
    → read_next it ((lit + 32) ∷ 254 ∷ 253 ∷ body) ≡ (stuck lit body, true)
unfolding read_next read_record read_id stuck
next_stuck it lit body up e h =
    let (low, keep, drops, clear, set_bit) = case_lem lit up in ground (arith, set_bit)

read_at :
    (it : Iter) (lit : ℕ) (body : List ℕ)
    → IsUpper lit
    → it.errndx ≡ 0
    → (length it.bytes == 0) ≡ false
    → 253 ≤ length body
    → rest it ≡ ok ((lit + 32) ∷ 254 ∷ 253 ∷ body)
    → read it ≡ ok (stuck lit body, true)
read_at it lit body up e more h r = read_lem it _ e more r ∙ ap ok (next_stuck it lit body up e h)

fresh_rest : (b : ℕ) (bytes : List ℕ) → rest (new_iter (b ∷ bytes)) ≡ ok (b ∷ bytes)
unfolding rest record_end value_start
fresh_rest b bytes = ground arith

stuck_rest : (lit : ℕ) (body : List ℕ) → rest (stuck lit body) ≡ ok ((lit + 32) ∷ 254 ∷ 253 ∷ body)
unfolding rest record_end value_start stuck
stuck_rest lit body = ground arith

-- Read on a short record of 254 bytes that claims an identifier of 253 bytes succeeds and leaves a
-- cursor on which Read succeeds without moving, so a loop `for it.Read()` over it never ends.
pub read-stuck :
    (lit : ℕ) (body : List ℕ)
    → IsUpper lit
    → 253 ≤ length body
    → let it = stuck lit body in
      (read (new_iter ((lit + 32) ∷ 254 ∷ 253 ∷ body)) ≡ ok (it, true)) × (read it ≡ ok (it, true))
read-stuck lit body up h = (
  read_at (new_iter ((lit + 32) ∷ 254 ∷ 253 ∷ body)) lit body up refl (ground arith) h
      (fresh_rest _ _),
  read_at (stuck lit body) lit body up (unfold stuck in refl) (unfold stuck in ground arith) h
      (stuck_rest lit body),
)

-- The cursor on a short record whose identifier is as long as the record, its own length byte
-- left out.
unfoldable pub swollen : ℕ → ℕ → List ℕ → Iter
swollen lit n body = record {
  bytes = (lit + 32) ∷ n ∷ n ∷ body;
  vallen = negsuc 0;
  hdrlen = 3;
  idlen = n;
  lit = lit;
  errndx = 0;
}

next_swollen :
    (it : Iter) (lit n : ℕ) (body : List ℕ)
    → IsUpper lit
    → it.errndx ≡ 0
    → n ≤ length body + 1
    → read_next it ((lit + 32) ∷ n ∷ n ∷ body) ≡ (swollen lit n body, true)
unfolding read_next read_record read_id swollen
next_swollen it lit n body up e h =
    let (low, keep, drops, clear, set_bit) = case_lem lit up in ground (arith, set_bit)

-- Read succeeds on a short record whose identifier takes up the whole length, and Value panics
-- there, for every length up to 252.
pub value_swollen :
    (lit n : ℕ) (body : List ℕ)
    → IsUpper lit
    → n ≤ 252
    → n ≤ length body + 1
    → let it = swollen lit n body in
      (read (new_iter ((lit + 32) ∷ n ∷ n ∷ body)) ≡ ok (it, true)) × (value it ≡ panic)
unfolding value record_end value_start swollen
value_swollen lit n body up h k = (
  read_lem (new_iter ((lit + 32) ∷ n ∷ n ∷ body)) _ refl (ground arith) (fresh_rest _ _)
      ∙ ap ok (next_swollen _ lit n body up refl k),
  ground arith,
)
