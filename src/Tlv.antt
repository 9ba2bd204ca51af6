-- ===== src/Tlv.antt =====
-- tlv.go: type-length-value records, and the stack of open records.
-- A record's stack of marks is a list with the innermost mark first; a slice's capacity is its
-- length, so a read past the end panics.
pub mod Case
pub mod Records
pub mod Bounds
pub mod Keyed
pub mod Nesting
mod Tests
use go_rdx.Prelude.{
  ℕ, zero, suc, ◌+◌, ◌-◌, ◌*◌, ◌/◌, ◌%◌, ◌^◌, bit_and, bit_or, Bool, true, false, not, ◌&&◌, ◌||◌,
  ltb, leb, ◌==◌, if◌then◌else◌, List, [], ◌∷◌, ◌++◌, length, take, drop, get_or, set, copy_to,
  slice, slice_from, slice_to, byte, le_bytes, le_value, Option, none, some, Outcome, ok, err,
  panic, ◌>>=◌, Error, incomplete, bad_record, bad_nesting,
}

-- `CaseBit` and `MaxRecLen`.
abbrev pub case_bit : ℕ
case_bit = 0x20

abbrev pub max_rec_len : ℕ
max_rec_len = 0x7fffffff

-- `b | CaseBit` and `b &^ CaseBit`, for a byte b.
abbrev pub lower : ℕ → ℕ
lower b = bit_or b case_bit

abbrev pub upper : ℕ → ℕ
upper b = bit_and b (0xff - case_bit)

abbrev pub is_lower : ℕ → Bool
is_lower b = leb b'a' b && leb b b'z'

abbrev pub is_upper : ℕ → Bool
is_upper b = leb b'A' b && leb b b'Z'

-- The named results of ReadTLV.
pub record TlvRead : Type 0 where
  pub lit : ℕ
  pub value : List ℕ
  pub rest : List ℕ
  pub error : Option Error

abbrev pub failed : ℕ → List ℕ → Error → Outcome TlvRead
failed lit rest e = ok (record { lit = lit; value = []; rest = rest; error = some e })

-- The record's value ends at `e`; a slice past the end panics.
abbrev pub cut_record : ℕ → List ℕ → ℕ → ℕ → Outcome TlvRead
cut_record lit bytes lo e = do
  value ← slice bytes lo e
  rest ← slice_from bytes e
  ok (record { lit = lit; value = value; rest = rest; error = none })

unfoldable pub read_short : ℕ → List ℕ → Outcome TlvRead
read_short lit bytes =
    let e = get_or bytes 1 0 + 2 in
    if ltb (length bytes) 2 || ltb (length bytes) (2 + get_or bytes 1 0)
    then failed lit bytes incomplete
    else cut_record lit bytes 2 e

unfoldable pub read_long : ℕ → List ℕ → Outcome TlvRead
read_long lit bytes =
    let bl = le_value (take 4 (drop 1 bytes)) in
    if ltb (length bytes) 5
    then failed 0 [] incomplete
    else if ltb max_rec_len bl || ltb (length bytes + 5) bl
    then (if ltb max_rec_len bl then failed 0 [] bad_record else failed 0 [] incomplete)
    else cut_record lit bytes 5 (5 + bl)

unfoldable pub read_tlv : List ℕ → Outcome TlvRead
unfolding read_short read_long
read_tlv [] = ok (record { lit = 0; value = []; rest = []; error = none })
read_tlv (dlit ∷ tail) =
    if is_lower dlit
    then read_short (dlit - case_bit) (dlit ∷ tail)
    else if is_upper dlit
    then read_long dlit (dlit ∷ tail)
    else failed 0 [] bad_record

-- The named results of ReadTLKV.
pub record TlkvRead : Type 0 where
  pub lit : ℕ
  pub key : List ℕ
  pub value : List ℕ
  pub rest : List ℕ
  pub error : Option Error

-- `1 + value[0]` is a sum of bytes, which wraps.
unfoldable pub split_key : TlvRead → Outcome TlkvRead
split_key r =
    let n = get_or r.value 0 0 in
    let plain : TlkvRead = record {
      lit = r.lit;
      key = [];
      value = r.value;
      rest = r.rest;
      error = r.error;
    } in
    elim r.error [
      | some e ↦ ok plain
      | none ↦
          if length r.value == 0
          then ok plain
          else if ltb (length r.value) (n + 1)
          then ok (record plain { error = some bad_record })
          else (do
            key ← slice r.value 1 (byte (1 + n))
            value ← slice_from r.value (byte (1 + n))
            ok (record plain { key = key; value = value }))
    ]

unfoldable pub read_tlkv : List ℕ → Outcome TlkvRead
unfolding read_tlv split_key
read_tlkv bytes = read_tlv bytes >>= split_key

-- The type byte and the length that WriteTLV and WriteTLKV put before `l` bytes.
abbrev pub header : ℕ → ℕ → List ℕ
header lit l = if ltb 0xff l then lit ∷ le_bytes 4 (l % 2 ^ 32) else lower lit ∷ byte l ∷ []

unfoldable pub write_tlv : List ℕ → ℕ → List ℕ → List ℕ
write_tlv out lit value = out ++ (header lit (length value) ++ value)

-- A key is cut to 255 bytes.
unfoldable pub cut_key : List ℕ → List ℕ
cut_key key = if ltb 0xff (length key) then take 0xff key else key

unfoldable pub write_tlkv : List ℕ → ℕ → List ℕ → List ℕ → List ℕ
write_tlkv out lit key value =
    let key' = cut_key key in
    let l = length key' + length value + 1 in
    out ++ (header lit l ++ (byte (length key') ∷ key' ++ value))

pub record Mark : Type 0 where
  pub start : ℕ
  pub last_break : ℕ
  pub last_element : ℕ
  pub lit : ℕ
  pub pre : ℕ

abbrev pub new_mark : ℕ → ℕ → Mark
new_mark start lit = record { start = start; last_break = 0; last_element = 0; lit = lit; pre = 0 }

unfoldable pub top_lit : List Mark → ℕ
top_lit [] = 0
top_lit (m ∷ stack) = m.lit

unfoldable pub splice_tlv : List ℕ → ℕ → ℕ → Outcome (List ℕ)
splice_tlv bytes lit pos =
    let l = length bytes - pos + 1 in
    let tail = drop pos bytes in
    if ltb (length bytes) pos
    then panic
    else if leb l 0xff
    then ok (
        copy_to pos (lower lit ∷ byte l ∷ 0 ∷ [])
          (copy_to (pos + 3) tail (bytes ++ (0 ∷ 0 ∷ 0 ∷ []))))
    else ok (
        copy_to pos (upper lit ∷ le_bytes 4 (l % 2 ^ 32) ++ (0 ∷ []))
          (copy_to (pos + 6) tail (bytes ++ (0 ∷ 0 ∷ 0 ∷ 0 ∷ 0 ∷ 0 ∷ []))))

unfoldable pub open_tlv : List ℕ → ℕ → List Mark → Outcome (List ℕ × List Mark)
open_tlv bytes lit stack =
    if ltb lit b'A' || ltb b'Z' lit
    then panic
    else ok (bytes ++ (lit ∷ 0 ∷ 0 ∷ 0 ∷ 0 ∷ []), new_mark (length bytes) lit ∷ stack)

unfoldable pub open_short_tlv : List ℕ → ℕ → List Mark → Outcome (List ℕ × List Mark)
open_short_tlv bytes lit stack =
    if ltb lit b'A' || ltb b'Z' lit
    then panic
    else ok (bytes ++ (lower lit ∷ 0 ∷ []), new_mark (length bytes) (lower lit) ∷ stack)

-- What CancelTLV and CloseTLV return, and the stack they leave.
pub record Closed : Type 0 where
  pub out : List ℕ
  pub stack : List Mark
  pub error : Option Error

abbrev pub not_closed : List Mark → Closed
not_closed stack = record { out = []; stack = stack; error = some bad_nesting }

unfoldable pub cancel_tlv : List ℕ → ℕ → List Mark → Outcome Closed
cancel_tlv bytes lit [] = ok (not_closed [])
cancel_tlv bytes lit (m ∷ stack) =
    if not (upper m.lit == lit)
    then ok (not_closed (m ∷ stack))
    else slice_to bytes m.start >>= λ out. ok (record { out = out; stack = stack; error = none })

-- The length goes behind the type byte at `start`.
unfoldable pub put_length : List ℕ → ℕ → ℕ → List ℕ
put_length bytes start fact =
    if ltb fact 0x100
    then set bytes (start + 1) (byte fact)
    else copy_to (start + 1) (le_bytes 4 (fact % 2 ^ 32)) bytes

-- A long header over a short body loses three bytes.
unfoldable pub shrink : List ℕ → ℕ → List ℕ
shrink bytes start =
    let moved = copy_to (start + 2) (drop (start + 5) bytes) bytes in
    let cut = take (length bytes - 3) moved in set cut start (lower (get_or cut start 0))

-- A short header over a long body gains three bytes.
unfoldable pub grow : List ℕ → ℕ → List ℕ
grow bytes start =
    let moved = copy_to (start + 5) (drop (start + 2) bytes) (bytes ++ (0 ∷ 0 ∷ 0 ∷ [])) in
    set moved start (upper (get_or moved start 0))

unfoldable pub closed_with : List Mark → List ℕ → ℕ → ℕ → Closed
closed_with stack bytes start fact = record {
  out = put_length bytes start fact;
  stack = stack;
  error = none;
}

unfoldable pub close_at : List ℕ → ℕ → List Mark → Closed
close_at bytes start stack =
    let fact = length bytes - start in
    if bit_and (get_or bytes start 0) case_bit == 0
    then (if ltb fact 5
        then not_closed stack
        else if ltb (fact - 5) 0x100
        then closed_with stack (shrink bytes start) start (fact - 5)
        else closed_with stack bytes start (fact - 5))
    else (if ltb fact 2
        then not_closed stack
        else if ltb (fact - 2) 0x100
        then closed_with stack bytes start (fact - 2)
        else closed_with stack (grow bytes start) start (fact - 2))

unfoldable pub close_tlv : List ℕ → ℕ → List Mark → Closed
close_tlv bytes lit [] = not_closed []
close_tlv bytes lit (m ∷ stack) =
    if not (upper m.lit == lit)
      || (ltb (length bytes) (m.start + 2) || not (upper (get_or bytes m.start 0) == lit))
    then not_closed stack
    else close_at bytes m.start stack
