-- ===== src/Jdr.antt =====
-- jdr.go: the escapes of strings, stamps and styles in the text form of documents.
pub mod Escapes
pub mod Actions
pub mod Printer
pub mod Renderer
mod Tests
use go_rdx.Prelude.{
  ℕ, ◌-◌, ◌^◌, bit_and, bit_or, bit_xor, Bool, true, false, not, ◌&&◌, ◌==◌, if◌then◌else◌, List,
  [], ◌∷◌, ◌++◌,
}
use go_rdx.Ident.{RdxId, is_zero, ron_string}

abbrev pub backslash : ℕ
backslash = 92

-- The bytes for one byte of a string.
unfoldable pub escape : ℕ → List ℕ
escape a =
    if a == 9
    then backslash ∷ b't' ∷ []
    else if a == 13
    then backslash ∷ b'r' ∷ []
    else if a == 10
    then backslash ∷ b'n' ∷ []
    else if a == 8
    then backslash ∷ b'b' ∷ []
    else if a == 12
    then backslash ∷ b'f' ∷ []
    else if a == backslash
    then backslash ∷ backslash ∷ []
    else if a == 34
    then backslash ∷ 34 ∷ []
    else a ∷ []

unfoldable pub escaped : List ℕ → List ℕ
escaped [] = []
escaped (a ∷ val) = escape a ++ escaped val

unfoldable pub append_escaped : List ℕ → List ℕ → List ℕ
unfolding escaped
append_escaped jdr val = jdr ++ escaped val

-- The byte for a letter behind a backslash.
unfoldable pub unescape : ℕ → ℕ
unescape c =
    if c == b't'
    then 9
    else if c == b'r'
    then 13
    else if c == b'n'
    then 10
    else if c == b'b'
    then 8
    else if c == b'f'
    then 12
    else c

-- The loop; `marked` says that a backslash was just read. A backslash at the end stays.
unfoldable pub unescaped : (marked : Bool) → List ℕ → List ℕ
unescaped true [] = backslash ∷ []
unescaped false [] = []
unescaped true (c ∷ jdr) = unescape c ∷ unescaped false jdr
unescaped false (c ∷ jdr) =
    let rest = unescaped (c == backslash) jdr in if c == backslash then rest else c ∷ rest

unfoldable pub append_unescaped : List ℕ → List ℕ → List ℕ
unfolding unescaped
append_unescaped rdx jdr = rdx ++ unescaped false jdr

unfoldable pub append_jdr_stamp : List ℕ → RdxId → List ℕ
append_jdr_stamp jdr id = if is_zero id then jdr else jdr ++ (b'@' ∷ ron_string id)

-- Styles are sets of bits in a uint64.
unfoldable pub has : ℕ → ℕ → Bool
has style bit = not (bit_and style bit == 0)

unfoldable pub without : ℕ → ℕ → ℕ
without style bits = bit_and style (bit_xor bits (2 ^ 64 - 1))

unfoldable pub with_bits : ℕ → ℕ → ℕ
with_bits style bits = bit_or style bits

unfoldable pub new_style_from : ℕ → List ℕ → ℕ
new_style_from style [] = style
new_style_from style (s ∷ bits) = new_style_from (bit_or style s) bits

unfoldable pub new_style : List ℕ → ℕ
unfolding new_style_from
new_style bits = new_style_from 0 bits
