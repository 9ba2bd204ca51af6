-- ===== src/Jdr/Printer/Tests.antt =====
-- Runs of the printer, with numbers printed in unary.
use go_rdx.Prelude.{
  ℕ, zero, suc, ◌-◌, ◌==◌, if◌then◌else◌, length, true, ap, ◌≡◌, refl, arith, List, [], ◌∷◌, none,
  ok, codes,
}
use go_rdx.Prelude.Int.{ℤ, pos, negsuc}
use go_rdx.ZipInt.{zip_int64, unzip_int64, unzip_uint64_pair, zip_uint64_pair}
use go_rdx.Ident.{RdxId, id0, is_zero, ron_string, ron64_string, zip_id, unzip_id}
use go_rdx.Tlv.{write_tlkv, cut_key}
use go_rdx.Iter.{is_first, is_plex}
use go_rdx.Element.{write_rdx}
use go_rdx.Element.Docs.{Doc, end, leaf, node, print, IsWhole}
use go_rdx.Jdr.Actions.Events.{parse_jdr}
use go_rdx.Jdr.Actions.Lexed.{Lexed, between}
use go_rdx.Ident.Digits.{ron64}
use go_rdx.Jdr.{append_escaped, escaped, escape}
use go_rdx.Jdr.Printer.{write_all_jdr, first_text}
use go_rdx.Jdr.Printer.Calls.{
  text, events, IsSpelled, document_calls, string_token, term_token, reference_token, integer_token,
}
use go_rdx.Jdr.Printer.Fits.{IsTokens}
use go_rdx.Jdr.Printer.Tokens.{
  every, is_digit, skip_digits, is_float, is_number, is_rest, is_fraction, after_int, after_natural,
  after_fraction, is_exponent, is_int, is_natural, is_empty, is_term, is_ron64, is_ref, is_id128,
  id128_from,
}
use go_rdx.Jdr.Printer.RoundTrip.{parse_jdr-write_all_jdr}

-- As many ones as the number says.
unfoldable ones : ℕ → List ℕ
ones zero = []
ones (suc n) = b'1' ∷ ones n

length-ones : (n : ℕ) → length (ones n) ≡ n
unfolding ones
length-ones zero = refl
length-ones (suc n) = ap suc (length-ones n)

every-ones : (n : ℕ) → every is_digit (ones n) ≡ true
unfolding every is_digit ones
every-ones zero = refl
every-ones (suc n) = every-ones n

skip_digits-ones : (n : ℕ) → skip_digits (ones n) ≡ []
unfolding skip_digits is_digit ones
skip_digits-ones zero = refl
skip_digits-ones (suc n) = rw (skip_digits-ones n) refl

abbrev format_float : ℕ → List ℕ
format_float bits = b'0' ∷ b'.' ∷ b'1' ∷ ones bits

abbrev parse_float : List ℕ → ℕ
parse_float text = length text - 3

floats : (bits : ℕ) → parse_float (format_float bits) ≡ bits
floats bits = omega (arith, length-ones bits)

float_texts : (bits : ℕ) → is_float (format_float bits) ≡ true
unfolding is_float is_number is_rest is_fraction after_int after_natural after_fraction is_exponent
    is_int is_natural is_empty is_digit
float_texts bits = rw (skip_digits-ones bits) refl

abbrev format_int : ℤ → List ℕ
format_int (pos n) = b'1' ∷ ones n
format_int (negsuc n) = b'-' ∷ b'1' ∷ ones n

abbrev parse_int : List ℕ → ℤ
parse_int [] = pos 0
parse_int (c ∷ cs) = if c == b'-' then negsuc (length cs - 1) else pos (length cs)

ints : (i : ℤ) → parse_int (format_int i) ≡ i
ints (pos n) = ap pos (length-ones n)
ints (negsuc n) = ap negsuc (omega (arith, length-ones n))

int_texts : (i : ℤ) → is_int (format_int i) ≡ true
unfolding is_int is_natural is_digit
int_texts (pos n) = every-ones n
int_texts (negsuc n) = every-ones n

abbrev stamp : RdxId
stamp = record { src = 11; seq = 3 }

-- A list of a string and a tuple of a term, and a set behind it.
abbrev one_tuple : Doc
one_tuple = node b'P' id0 (leaf b'T' stamp (codes "b") end) end

abbrev contents : Doc
contents = leaf b'S' id0 (codes "a\"") one_tuple

-- A reference and an integer.
abbrev numbers : Doc
numbers = leaf b'R' id0 (zip_id stamp) (leaf b'I' id0 (zip_int64 (negsuc 2)) end)

abbrev document : Doc
document = node b'L' stamp contents (node b'X' id0 numbers end)

numbers-IsWhole : IsWhole numbers
unfolding is_first is_plex print write_rdx write_tlkv cut_key zip_id zip_uint64_pair zip_int64
numbers-IsWhole = (
  refl,
  (omega arith, omega arith),
  omega arith,
  (refl, (omega arith, omega arith), omega arith, tt),
)

numbers-IsSpelled : IsSpelled 1 numbers
unfolding is_zero every is_ref is_id128 id128_from is_term is_empty is_ron64 is_digit is_float
    is_number is_rest after_int after_natural after_fraction is_fraction is_exponent is_int
    is_natural skip_digits ron_string ron64_string ron64
numbers-IsSpelled = (
  reference_token stamp refl (omega arith) (omega arith) refl refl,
  (omega arith, omega arith),
  (integer_token (negsuc 2) refl (omega arith) refl, (omega arith, omega arith), tt),
)

contents-IsWhole : IsWhole contents
unfolding is_first is_plex print write_rdx write_tlkv cut_key zip_id zip_uint64_pair
contents-IsWhole =
    let last : IsWhole (leaf b'T' stamp (codes "b") end) =
      (refl, (omega arith, omega arith), omega arith, tt) in
    (
      refl,
      (omega arith, omega arith),
      omega arith,
      (refl, (omega arith, omega arith), omega arith, last, tt),
    )

document-IsWhole : IsWhole document
unfolding is_first is_plex print write_rdx write_tlkv cut_key zip_id zip_uint64_pair zip_int64
document-IsWhole = (
  refl,
  (omega arith, omega arith),
  omega arith,
  contents-IsWhole,
  (refl, (omega arith, omega arith), omega arith, numbers-IsWhole, tt),
)

document-IsSpelled : IsSpelled 0 document
unfolding is_zero every is_term is_empty is_ron64 is_digit is_float is_number is_rest after_int
    after_natural is_int is_natural
document-IsSpelled =
    let term : IsSpelled 2 (leaf b'T' stamp (codes "b") end) =
      (term_token refl refl, (omega arith, omega arith), tt) in
    let tuple : IsSpelled 1 one_tuple = (refl, omega arith, (omega arith, omega arith), term, tt) in
    (
      refl,
      omega arith,
      (omega arith, omega arith),
      (string_token refl refl, (omega arith, omega arith), tuple),
      (refl, omega arith, (omega arith, omega arith), numbers-IsSpelled, tt),
    )

parse_jdr-write_all_jdr_example :
    (write_all_jdr format_float format_int 8 9 [] (print document) 0
      ≡ ok (text (document_calls format_float format_int document), none))
    × Lexed between (events (document_calls format_float format_int document))
    × IsTokens (document_calls format_float format_int document)
    × (parse_jdr parse_float parse_int (events (document_calls format_float format_int document))
        ≡ ok (print document, none))
parse_jdr-write_all_jdr_example =
    parse_jdr-write_all_jdr format_float format_int parse_float parse_int (λ b h k. floats b)
      (λ i h. ints i) (λ b h k. float_texts b) (λ i h. int_texts i) document 8 9 document-IsWhole
      document-IsSpelled (omega arith) (omega arith)

-- The text of the document.
document_text :
    text (document_calls format_float format_int document)
    ≡ codes "[@B-3 \"a\\\"\",(b@B-3)] <B-3,-111>"
unfolding first_text is_zero append_escaped escaped escape ron_string ron64_string ron64 zip_id
    zip_uint64_pair zip_int64 ones unzip_id unzip_uint64_pair unzip_int64
document_text = refl
