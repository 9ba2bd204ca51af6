-- ===== src/Iter.antt =====
-- itheap.go, Iter: a cursor over a stream of records.
-- `hdrlen` and `idlen` are bytes, so their sum wraps. `vallen` is an int, and can become -1.
pub mod Reading
pub mod Streams
pub mod Standing
pub mod Faults
mod Tests
use go_rdx.Prelude.{
  ℕ, zero, suc, ◌+◌, ◌-◌, ◌*◌, ◌/◌, ◌%◌, ◌^◌, bit_and, bit_or, Bool, true, false, not, ◌&&◌, ◌||◌,
  ltb, leb, ◌==◌, if◌then◌else◌, List, [], ◌∷◌, ◌++◌, length, take, drop, get_or, slice, slice_from,
  slice_to, byte, le_value, Option, none, some, Outcome, ok, err, panic, out_of_fuel, ◌>>=◌, Error,
  incomplete, bad_record, eos, io_fail, or_panic,
}
use go_rdx.Prelude.Int.{ℤ, pos, negsuc}
use go_rdx.Cmp.{Cmp, less, is_below}
use go_rdx.Ident
use go_rdx.Ident.{RdxId, unzip_id, id0}
use go_rdx.Tlv.{case_bit, upper}
use go_rdx.ZipInt.{unzip_int64, unzip_float64}

pub record Iter : Type 0 where
  pub bytes : List ℕ
  pub vallen : ℤ
  pub hdrlen : ℕ
  pub idlen : ℕ
  pub lit : ℕ
  pub errndx : ℕ

-- The type letters of rdx.go, and IsPLEX and IsFIRST.
abbrev pub lit_float : ℕ
lit_float = b'F'

abbrev pub lit_integer : ℕ
lit_integer = b'I'

abbrev pub lit_reference : ℕ
lit_reference = b'R'

abbrev pub lit_string : ℕ
lit_string = b'S'

abbrev pub lit_term : ℕ
lit_term = b'T'

abbrev pub lit_tuple : ℕ
lit_tuple = b'P'

abbrev pub lit_linear : ℕ
lit_linear = b'L'

abbrev pub lit_euler : ℕ
lit_euler = b'E'

abbrev pub lit_multix : ℕ
lit_multix = b'X'

unfoldable pub is_plex : ℕ → Bool
is_plex lit = lit == lit_tuple || (lit == lit_linear || (lit == lit_euler || lit == lit_multix))

unfoldable pub is_first : ℕ → Bool
is_first lit =
    lit == lit_float
    || (lit == lit_integer || (lit == lit_reference || (lit == lit_string || lit == lit_term)))

abbrev pub bad_iter : List ℕ → ℕ → Iter
bad_iter bytes e = record {
  bytes = bytes;
  vallen = pos 0;
  hdrlen = 0;
  idlen = 0;
  lit = 0;
  errndx = e;
}

abbrev pub new_iter : List ℕ → Iter
new_iter bytes = bad_iter bytes 0

-- `n + v` as a slice bound.
abbrev pub offset : ℕ → ℤ → Option ℕ
offset n (pos v) = some (n + v)
offset n (negsuc v) = if leb (suc v) n then some (n - suc v) else none

-- `int(it.hdrlen+it.idlen)`: where the value starts; and where it ends.
unfoldable pub value_start : Iter → ℕ
value_start it = byte (it.hdrlen + it.idlen)

unfoldable pub record_end : Iter → Outcome ℕ
unfolding value_start
record_end it = or_panic (offset (value_start it) it.vallen)

unfoldable pub is_empty : Iter → Bool
is_empty it = it.hdrlen == 0

unfoldable pub has_data : Iter → Bool
has_data it = not (length it.bytes == 0)

unfoldable pub is_at_start : Iter → Bool
is_at_start it = it.errndx == 0 && it.hdrlen == 0

unfoldable pub rest : Iter → Outcome (List ℕ)
rest it = record_end it >>= slice_from it.bytes

-- `iterr[it.errndx]`; the table has five entries.
unfoldable pub iter_error : Iter → Outcome (Option Error)
iter_error it =
    let e = it.errndx in
    if e == 0
    then ok none
    else if e == 1
    then ok (some incomplete)
    else if e == 2
    then ok (some bad_record)
    else if e == 3
    then ok (some io_fail)
    else if e == 4
    then ok (some eos)
    else panic

unfoldable pub has_more : Iter → Outcome Bool
has_more it = rest it >>= λ r. ok (ltb 0 (length r))

unfoldable pub has_failed : Iter → Bool
has_failed it = ltb 0 it.errndx

-- The tail of Read: the length is known, and the record must be whole.
unfoldable pub read_id : Iter → ℕ → Iter × Bool
read_id it n =
    let idlen = get_or it.bytes (it.hdrlen - 1) 0 in
    if ltb (length it.bytes) (it.hdrlen + n - 1)
    then (record it { vallen = pos n; errndx = 1 }, false)
    else if ltb n idlen
    then (record it { vallen = pos n; idlen = idlen; errndx = 2 }, false)
    else (
      record it {
        vallen = if leb (idlen + 1) n then pos (n - (idlen + 1)) else negsuc 0;
        idlen = idlen;
      },
      true,
    )

-- Read at its next record, whose bytes are not empty.
unfoldable pub read_record : Iter → ℕ → Iter × Bool
read_record it head =
    let de = le_value (take 4 (drop 1 it.bytes)) in
    let short = record it { lit = head - case_bit; hdrlen = 3 } in
    let long = record it { lit = head; hdrlen = 6 } in
    if not (bit_and head case_bit == 0)
    then (if ltb (length it.bytes) 3
        then (record short { errndx = 1 }, false)
        else read_id short (get_or it.bytes 1 0))
    else (if ltb (length it.bytes) 6
        then (record long { errndx = 1 }, false)
        else if leb (2 ^ 30) de
        then (record long { errndx = 2 }, false)
        else read_id long de)

unfoldable pub read_next : Iter → List ℕ → Iter × Bool
read_next it [] = (bad_iter [] it.errndx, false)
read_next it (head ∷ tail) = read_record (record it { bytes = head ∷ tail }) head

unfoldable pub read : Iter → Outcome (Iter × Bool)
read it =
    if length it.bytes == 0 || ltb 0 it.errndx
    then ok (it, false)
    else rest it >>= λ r. ok (read_next it r)

unfoldable pub peek_bytes : List ℕ → ℕ
peek_bytes [] = 0
peek_bytes (b ∷ bs) = upper b

unfoldable pub iter_lit : Iter → ℕ
unfolding peek_bytes
iter_lit it = peek_bytes it.bytes

unfoldable pub peek : Iter → Outcome ℕ
peek it = rest it >>= λ r. ok (peek_bytes r)

unfoldable pub iter_id : Iter → Outcome RdxId
iter_id it = slice it.bytes it.hdrlen (value_start it) >>= λ b. ok (unzip_id b)

unfoldable pub value : Iter → Outcome (List ℕ)
value it = record_end it >>= slice it.bytes (value_start it)

unfoldable pub iter_record : Iter → Outcome (List ℕ)
iter_record it = record_end it >>= slice_to it.bytes

unfoldable pub parsed : Iter → Outcome (ℕ × RdxId × List ℕ)
parsed it =
    let there = iter_id it >>= λ id. value it >>= λ v. ok (iter_lit it, id, v) in
    if length it.bytes == 0 then ok (0, id0, []) else there

unfoldable pub inner : Iter → Outcome Iter
inner it = if is_plex (iter_lit it) then (value it >>= λ v. ok (new_iter v)) else ok (new_iter [])

unfoldable pub into : Iter → Outcome (Iter × Bool)
into it =
    if is_plex (iter_lit it) then (value it >>= λ v. ok (new_iter v, true)) else ok (it, false)

unfoldable pub reference : Iter → Outcome RdxId
reference it =
    if not (iter_lit it == lit_reference) then ok id0 else value it >>= λ v. ok (unzip_id v)

unfoldable pub integer : Iter → Outcome ℤ
integer it =
    if not (iter_lit it == lit_integer) then ok (pos 0) else value it >>= λ v. ok (unzip_int64 v)

-- A float is its bit pattern; that of 0 is 0.
unfoldable pub float : Iter → Outcome ℕ
float it = if not (iter_lit it == lit_float) then ok 0 else value it >>= λ v. ok (unzip_float64 v)

-- `it.data[it.hdrlen]` is the first byte of the identifier.
unfoldable pub is_live : Iter → Outcome Bool
is_live it =
    if it.idlen == 0
    then ok true
    else if leb (length it.bytes) it.hdrlen
    then panic
    else ok (bit_and (get_or it.bytes it.hdrlen 0) 1 == 0)

-- The loops of NextLive and Seek, with fuel; `none` is that it ran out.
unfoldable pub next_live : ℕ → Iter → Option (Outcome (Iter × Bool))
next_live zero it = none
next_live (suc fuel) it = elim (read it) [
  | ok (it', true) ↦
      (let again = next_live fuel it' in
        elim (is_live it') [
          | ok true ↦ some (ok (it', true))
          | ok false ↦ again
          | err e ↦ some (err e)
          | panic ↦ some panic
          | out_of_fuel ↦ none
        ])
  | ok (it', false) ↦ some (ok (it', false))
  | err e ↦ some (err e)
  | panic ↦ some panic
  | out_of_fuel ↦ none
]

-- Close: the cursor is the zero value.
unfoldable pub close : Iter → Iter
close it = new_iter []
