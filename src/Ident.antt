-- ===== src/Ident.antt =====
-- id.go: Lamport identifiers, their base64 texts and their orders.
pub mod Digits
pub mod Numbers
pub mod Texts
pub mod Order
pub mod Revision
mod Tests
use go_rdx.Prelude.{
  ℕ, zero, suc, ◌+◌, ◌-◌, ◌*◌, ◌/◌, ◌%◌, ◌^◌, ◌<◌, bit_and, bit_or, bit_xor, arith, Bool, true,
  false, not, ◌&&◌, ◌||◌, ltb, leb, ◌==◌, if◌then◌else◌, List, [], ◌∷◌, ◌++◌, length, codes, Option,
  none, some, Error, bad_id_syntax, bad_ron60_syntax, dec_lt,
}
use go_rdx.Prelude.Order.{lt_wf}
use go_rdx.Cmp.{Cmp, less, eq, grtr, by_num}
use go_rdx.Ron60
use go_rdx.Ron60.{mask60bit}
use go_rdx.ZipInt.{zip_uint64_pair, unzip_uint64_pair}
use Digits.{ron64, ron64_rev}
use mathlib.Core.WellFounded.{Acc}
use mathlib.Core.Logic.{dite}

pub record RdxId : Type 0 where
  pub src : ℕ
  pub seq : ℕ

-- `ZeroID`, which rdx.go calls `ID0`, and `MaxID`.
abbrev pub id0 : RdxId
id0 = record { src = 0; seq = 0 }

abbrev pub max_id : RdxId
max_id = record { src = 2 ^ 64 - 1; seq = 2 ^ 64 - 1 }

unfoldable pub zip_id : RdxId → List ℕ
zip_id id = zip_uint64_pair id.seq id.src

unfoldable pub unzip_id : List ℕ → RdxId
unzip_id b = let (seq, src) = unzip_uint64_pair b in record { src = src; seq = seq }

-- The loop of ParseRON64 with `left` rounds to go, `val` read so far and `rest` unread.
unfoldable pub parse_loop : ℕ → ℕ → List ℕ → ℕ × List ℕ
parse_loop zero val rest = (val, rest)
parse_loop (suc left) val [] = (val, [])
parse_loop (suc left) val (c ∷ rest) =
    let more = parse_loop left (bit_or (val * 2 ^ 6 % 2 ^ 64) (ron64_rev c)) rest in
    if ron64_rev c == 0xff then (val, c ∷ rest) else more

-- `l <= 10` admits 11 rounds.
unfoldable pub parse_ron64 : List ℕ → ℕ × List ℕ
unfolding parse_loop
parse_ron64 ron = parse_loop 11 0 ron

pub digit_shrinks : (u : ℕ) → 0 < u / 2 ^ 6 → u / 2 ^ 6 < u
digit_shrinks u h = omega arith

-- The loop of RON64String, with the digits written so far: it writes a digit before its test.
unfoldable pub string_loop : (u : ℕ) → Acc ◌<◌ u → List ℕ → List ℕ
unfolding dec_lt digit_shrinks
string_loop u (Acc.intro _ smaller) ret =
    let ret' = ron64 (bit_and u 63) ∷ ret in
    dite (dec_lt 0 (u / 2 ^ 6)) (λ h. string_loop (u / 2 ^ 6) (smaller _ (digit_shrinks u h)) ret')
      (λ _. ret')

unfoldable pub ron64_string : ℕ → List ℕ
unfolding string_loop lt_wf
ron64_string u = string_loop u (lt_wf.apply u) []

-- `ret[len(ret)-1]`; RON64String never returns an empty string.
unfoldable pub last_byte : List ℕ → ℕ
last_byte [] = 0
last_byte (b ∷ []) = b
last_byte (b ∷ c ∷ bs) = last_byte (c ∷ bs)

abbrev pub dash : ℕ
dash = b'-'

unfoldable pub formal_string : RdxId → List ℕ
unfolding ron64_string last_byte
formal_string id =
    let plain = ron64_string id.src in
    let pad = if id.src == 0xe || id.src == 41 then b'0' ∷ [] else [] in
    let head =
      if bit_or (last_byte plain) 0x20 == b'e' then (b'0' ∷ []) ++ (pad ++ plain) else plain in
    head ++ (dash ∷ ron64_string id.seq)

unfoldable pub ron_string : RdxId → List ℕ
unfolding ron64_string
ron_string id =
    if id.src == 0 then ron64_string id.seq else ron64_string id.src ++ (dash ∷ ron64_string id.seq)

abbrev pub mask_no_rev : ℕ
mask_no_rev = 2 ^ 64 - 64

abbrev pub mask_not1 : ℕ
mask_not1 = 2 ^ 64 - 2

unfoldable pub id_eq : RdxId → RdxId → Bool
id_eq a b = (a.src == b.src) && (a.seq == b.seq)

unfoldable pub is_zero : RdxId → Bool
is_zero id = (id.src == 0) && (id.seq == 0)

unfoldable pub is_base_zero : RdxId → Bool
is_base_zero id = bit_and id.seq mask_no_rev == 0

unfoldable pub base : RdxId → RdxId
base id = record { src = id.src; seq = bit_and id.seq mask_no_rev }

unfoldable pub rev : RdxId → ℕ
rev id = bit_and id.seq 63

unfoldable pub id_less : RdxId → RdxId → Bool
id_less a b = if ltb a.seq b.seq then true else if ltb b.seq a.seq then false else ltb a.src b.src

-- The named results of NewID: an error leaves what was assigned before it.
pub record NewIdResult : Type 0 where
  pub id : RdxId
  pub error : Option Error

-- The arm of NewID after the dash.
unfoldable pub new_id_seq : ℕ → List ℕ → NewIdResult
new_id_seq src tail =
    let (seq, rest) = parse_ron64 tail in
    record {
      id = record { src = src; seq = seq };
      error = if ltb 0 (length rest) || ltb mask60bit seq then some bad_id_syntax else none;
    }

unfoldable pub new_id_rest : List ℕ → ℕ → List ℕ → NewIdResult
new_id_rest txt src [] =
    if ltb 11 (length txt) || ltb mask60bit src
    then record { id = record { src = src; seq = 0 }; error = some bad_id_syntax }
    else record { id = record { src = 0; seq = src }; error = none }
new_id_rest txt src (c ∷ tail) =
    let refused : NewIdResult = record {
      id = record { src = src; seq = 0 };
      error = some bad_id_syntax;
    } in
    if ltb 11 (length txt - length (c ∷ tail)) || ltb mask60bit src
    then refused
    else if not (c == dash) || ltb 11 (length (c ∷ tail))
    then refused
    else new_id_seq src tail

unfoldable pub new_id : List ℕ → NewIdResult
new_id txt = let (src, rest) = parse_ron64 txt in new_id_rest txt src rest

unfoldable pub parse_id_rest : ℕ → List ℕ → RdxId × List ℕ
parse_id_rest src [] = (record { src = 0; seq = src }, [])
parse_id_rest src (c ∷ tail) =
    let (seq, rest) = parse_ron64 tail in
    if c == dash
    then (record { src = src; seq = seq }, rest)
    else (record { src = 0; seq = src }, c ∷ tail)

unfoldable pub parse_id : List ℕ → RdxId × List ℕ
parse_id txt = let (src, rest) = parse_ron64 txt in parse_id_rest src rest

unfoldable pub rev_compare : RdxId → RdxId → Cmp
rev_compare a b = by_num a.seq b.seq (by_num a.src b.src eq)

unfoldable pub l_compare : RdxId → RdxId → Cmp
l_compare a b =
    if Ron60.less a.seq b.seq
    then less
    else if Ron60.less b.seq a.seq
    then grtr
    else by_num a.src b.src eq

unfoldable pub compare : RdxId → RdxId → Cmp
compare a b = by_num (bit_and a.seq mask_no_rev) (bit_and b.seq mask_no_rev) (by_num a.src b.src eq)

unfoldable pub stem : RdxId → RdxId
stem a = record { src = a.src; seq = bit_and a.seq mask_no_rev }

unfoldable pub xor_shift : ℕ → ℕ → ℕ
xor_shift x k = bit_xor x (x / 2 ^ k)

unfoldable pub xor : RdxId → ℕ
unfolding xor_shift
xor a =
    let x = bit_xor a.src (a.seq / 2 ^ 6) in
    xor_shift (xor_shift (xor_shift (xor_shift x 32) 16) 8) 4

unfoldable pub is_live : RdxId → Bool
is_live a = bit_and a.seq 1 == 0

unfoldable pub removed : RdxId → RdxId
removed a = record { src = a.src; seq = bit_or ((a.seq + 1) % 2 ^ 64) 1 }

unfoldable pub recovered : RdxId → RdxId
recovered a = record { src = a.src; seq = bit_and ((a.seq + 2) % 2 ^ 64) mask_not1 }

unfoldable pub replaced : RdxId → RdxId
replaced a = record { src = 0; seq = (bit_and a.seq mask_no_rev + 64) % 2 ^ 64 }

-- The loop of Revert64, which takes at most ten rounds of its 60 bits: `left` is `shift` / 6.
unfoldable pub revert_loop : ℕ → ℕ → ℕ → ℕ
revert_loop zero x y = y
revert_loop (suc left) x y =
    let more = revert_loop left (x / 2 ^ 6) (bit_or (y * 2 ^ 6 % 2 ^ 64) (bit_and x 63)) in
    if x == 0 then y * 2 ^ (6 * suc left) % 2 ^ 64 else more

unfoldable pub revert64 : ℕ → ℕ
unfolding revert_loop
revert64 x = revert_loop 10 (bit_and x mask60bit) 0

-- ParseRon60 and the String method of ron.go.
pub record ParseRon60Result : Type 0 where
  pub value : ℕ
  pub error : Option Error

unfoldable pub parse_ron60 : List ℕ → ParseRon60Result
unfolding parse_ron64
parse_ron60 txt =
    let (val, rest) = parse_ron64 txt in
    if ltb 0 (length rest)
    then record { value = 0; error = some bad_ron60_syntax }
    else record { value = Ron60.new_ron60 val; error = none }

unfoldable pub ron60_string : ℕ → List ℕ
unfolding ron64_string
ron60_string r = ron64_string (Ron60.uint64 r)
