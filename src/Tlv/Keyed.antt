-- ===== src/Tlv/Keyed.antt =====
-- ReadTLKV and WriteTLKV.
use go_rdx.Prelude.{
  ℕ, ◌+◌, ◌≤◌, ◌<◌, ◌≡◌, arith, min, length-take, Bool-cases, inl, inr, ltb→lt, ltb→le, ltb, List,
  [], ◌∷◌, ◌++◌, length, byte, length-append, slice-append, slice_from-append, append_assoc, none,
  ok, panic,
}
use go_rdx.Tlv.Case.{IsUpper}
use go_rdx.Tlv.Records.{read_tlv-header}
use go_rdx.Tlv.{split_key, read_tlkv, write_tlkv, header, max_rec_len, cut_key}

-- The value of the record that carries `key` and `value`.
abbrev pub body : List ℕ → List ℕ → List ℕ
body key value = length key ∷ key ++ value

module _ (lit : ℕ) (key value rest : List ℕ) where
  split_key-body :
      length key < 255
      → split_key (record { lit = lit; value = body key value; rest = rest; error = none })
        ≡ ok (record { lit = lit; key = key; value = value; rest = rest; error = none })
  unfolding split_key
  split_key-body h =
      let sum : byte (1 + length key) ≡ 1 + length key = omega arith in
      let head : List ℕ = length key ∷ [] in
      let cut = slice-append head key value 1 (1 + length key) (omega arith) (omega arith) in
      let cut' = slice_from-append head key value (1 + length key) (omega arith) in
      ground (arith, sum, cut, cut', length-append key value)

  -- A key of 255 bytes wraps the sum, and the slice expression panics.
  split_key-panic :
      length key ≡ 255
      → split_key (record { lit = lit; value = body key value; rest = rest; error = none }) ≡ panic
  unfolding split_key
  split_key-panic h = ground (arith, length-append key value)

pub cut_key-short : (key : List ℕ) → length key ≤ 255 → cut_key key ≡ key
unfolding cut_key
cut_key-short key h = elim (Bool-cases (ltb 0xff (length key))) [
  | inl long ↦ absurd (omega (arith, ltb→lt 0xff (length key) long))
  | inr short ↦ rw short
]

length-cut_key : (key : List ℕ) → length (cut_key key) ≡ min 255 (length key)
unfolding cut_key
length-cut_key key = elim (Bool-cases (ltb 0xff (length key))) [
  | inl long ↦ rw long (length-take 255 key)
  | inr short ↦ rw short (omega (arith, ltb→le 0xff (length key) short))
]

-- WriteTLKV writes the header and the body for the key as it is cut.
pub write_tlkv-body :
    (lit : ℕ) (key value rest : List ℕ)
    → let b = body (cut_key key) value in
      write_tlkv [] lit key value ++ rest ≡ header lit (length b) ++ (b ++ rest)
unfolding write_tlkv
write_tlkv-body lit key value rest =
    let key' = cut_key key in
    let b = body key' value in
    let small : byte (length key') ≡ length key' = omega (arith, length-cut_key key) in
    let size : length key' + length value + 1 ≡ length b =
      omega (arith, length-append key' value) in
    rw (small, size) (append_assoc (header lit (length b)) b rest)

-- ReadTLKV reads back the record that WriteTLKV writes for a capital letter and a key of at most
-- 254 bytes, and leaves what follows it, as long as the record does not pass MaxRecLen.
pub read_tlkv-write_tlkv :
    (lit : ℕ) (key value rest : List ℕ)
    → IsUpper lit
    → length key ≤ 254
    → length key + length value + 1 ≤ max_rec_len
    → read_tlkv (write_tlkv [] lit key value ++ rest)
      ≡ ok (record { lit = lit; key = key; value = value; rest = rest; error = none })
unfolding read_tlkv
read_tlkv-write_tlkv lit key value rest up h k =
    let fits : length (body key value) ≤ max_rec_len = omega (arith, length-append key value) in
    rw
      (
        write_tlkv-body lit key value rest,
        cut_key-short key (omega arith),
        read_tlv-header lit up (body key value) rest fits,
      )
      (split_key-body lit key value rest (omega arith))

-- ReadTLKV panics on what WriteTLKV writes for a capital letter and a key of 255 bytes, or of
-- more, which are cut, as long as the record does not pass MaxRecLen.
pub read_tlkv-panic :
    (lit : ℕ) (key value rest : List ℕ)
    → IsUpper lit
    → 255 ≤ length key
    → 256 + length value ≤ max_rec_len
    → read_tlkv (write_tlkv [] lit key value ++ rest) ≡ panic
unfolding read_tlkv
read_tlkv-panic lit key value rest up h k =
    let key' = cut_key key in
    let size : length key' ≡ 255 = omega (arith, length-cut_key key) in
    let fits : length (body key' value) ≤ max_rec_len = omega (arith, length-append key' value) in
    rw (write_tlkv-body lit key value rest, read_tlv-header lit up (body key' value) rest fits)
      (split_key-panic lit key' value rest size)
