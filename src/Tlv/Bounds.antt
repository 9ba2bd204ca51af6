-- ===== src/Tlv/Bounds.antt =====
-- What ReadTLV does on any bytes: how much it takes, and where it reads past the end.
use go_rdx.Prelude.{
  ℕ, ◌+◌, ◌-◌, ◌≤◌, ◌<◌, ◌≡◌, ◌↔◌, ◌⊎◌, arith, List, ◌∷◌, length, take, drop, get_or, le_value,
  length-take, length-drop, none, ok, panic,
}
use go_rdx.Tlv.Case.{IsUpper}
use go_rdx.Tlv.{TlvRead, read_tlv, max_rec_len, cut_record}

cut_record_sizes :
    (lit : ℕ) (bytes : List ℕ) (lo e : ℕ) (r : TlvRead)
    → lo ≤ e
    → cut_record lit bytes lo e ≡ ok r
    → length bytes ≡ lo + length r.value + length r.rest
cut_record_sizes lit bytes lo e r h p =
    ground (arith, length-take (e - lo) (drop lo bytes), length-drop lo bytes, length-drop e bytes)

-- A record that ReadTLV returns without an error leaves a rest shorter than the input by its value
-- and a header of two or five bytes.
pub read_tlv_progress :
    (dlit : ℕ) (tail : List ℕ) (r : TlvRead)
    → read_tlv (dlit ∷ tail) ≡ ok r
    → r.error ≡ none
    → (length (dlit ∷ tail) ≡ 2 + length r.value + length r.rest)
      ⊎ (length (dlit ∷ tail) ≡ 5 + length r.value + length r.rest)
unfolding read_tlv
read_tlv_progress dlit tail r h none_left = ground (
  arith,
  cut_record_sizes (dlit - 32) (dlit ∷ tail) 2 (get_or (dlit ∷ tail) 1 0 + 2) r,
  cut_record_sizes dlit (dlit ∷ tail) 5 (5 + le_value (take 4 tail)) r,
)

-- ReadTLV panics exactly on a long record that is cut short by at most ten bytes: its length is
-- compared with the bytes at hand plus five, in place of less five.
pub read_tlv-panic :
    (dlit : ℕ) (tail : List ℕ)
    → (read_tlv (dlit ∷ tail) ≡ panic) ↔ (
        IsUpper dlit
        × (4 ≤ length tail)
        × (le_value (take 4 tail) ≤ max_rec_len)
        × (length tail < 4 + le_value (take 4 tail))
        × (le_value (take 4 tail) ≤ length tail + 6))
unfolding read_tlv
read_tlv-panic dlit tail = ground arith
