-- ===== src/Tlv/Tests.antt =====
-- The theorems on tlv.go at concrete records.
use go_rdx.Prelude.{
  ℕ, ◌+◌, ◌≤◌, ◌<◌, ◌≡◌, ◌↔◌, ◌⊎◌, refl, arith, List, [], ◌∷◌, ◌++◌, replicate, le_value, none, ok,
  panic, ◌>>=◌, codes,
}
use go_rdx.Tlv.{
  TlvRead, Mark, read_tlv, write_tlv, read_tlkv, write_tlkv, open_tlv, close_tlv, new_mark,
  max_rec_len,
}
use go_rdx.Tlv.Case.{IsUpper}
use go_rdx.Tlv.Bounds.{read_tlv_progress, read_tlv-panic}
use go_rdx.Tlv.Keyed.{read_tlkv-write_tlkv, read_tlkv-panic}
use go_rdx.Tlv.Nesting.{close_tlv-open_tlv}

abbrev hello : List ℕ
hello = codes "Hello"

abbrev hello_read : TlvRead
hello_read = record { lit = b'S'; value = codes "Hello"; rest = 1 ∷ []; error = none }

read_hello : read_tlv (b's' ∷ 5 ∷ codes "Hello" ++ (1 ∷ [])) ≡ ok hello_read
unfolding read_tlv
read_hello = refl

-- A long record of three bytes of which one is there.
cut_short : read_tlv (b'S' ∷ 3 ∷ 0 ∷ 0 ∷ 0 ∷ 7 ∷ []) ≡ panic
unfolding read_tlv le_value
cut_short = refl

read_tlv_progress_example : (8 ≡ 2 + 5 + 1) ⊎ (8 ≡ 5 + 5 + 1)
read_tlv_progress_example =
    read_tlv_progress b's' (5 ∷ codes "Hello" ++ (1 ∷ [])) hello_read read_hello refl

read_tlv-panic_example : (read_tlv (b'S' ∷ 3 ∷ 0 ∷ 0 ∷ 0 ∷ 7 ∷ []) ≡ panic) ↔ (
    IsUpper b'S'
    × (4 ≤ 5)
    × (le_value (3 ∷ 0 ∷ 0 ∷ 0 ∷ []) ≤ max_rec_len)
    × (5 < 4 + le_value (3 ∷ 0 ∷ 0 ∷ 0 ∷ []))
    × (le_value (3 ∷ 0 ∷ 0 ∷ 0 ∷ []) ≤ 5 + 6))
read_tlv-panic_example = read_tlv-panic b'S' (3 ∷ 0 ∷ 0 ∷ 0 ∷ 7 ∷ [])

read_tlkv-write_tlkv_example :
    read_tlkv (write_tlkv [] b'S' (3 ∷ []) hello ++ (1 ∷ []))
    ≡ ok (record { lit = b'S'; key = 3 ∷ []; value = hello; rest = 1 ∷ []; error = none })
read_tlkv-write_tlkv_example =
    read_tlkv-write_tlkv b'S' (3 ∷ []) hello (1 ∷ []) (omega arith) (omega arith) (omega arith)

read_tlkv-panic_example : read_tlkv (write_tlkv [] b'S' (replicate 255 7) hello ++ (1 ∷ [])) ≡ panic
read_tlkv-panic_example =
    read_tlkv-panic b'S' (replicate 255 7) hello (1 ∷ []) (omega arith) (omega arith) (omega arith)

abbrev outer : List Mark
outer = new_mark 0 b'P' ∷ []

close_tlv-open_tlv_example :
    (open_tlv (1 ∷ []) b'S' outer >>= λ (bytes, marks). ok (close_tlv (bytes ++ hello) b'S' marks))
    ≡ ok (record { out = write_tlv (1 ∷ []) b'S' hello; stack = outer; error = none })
close_tlv-open_tlv_example = close_tlv-open_tlv (1 ∷ []) b'S' hello outer (omega arith)
