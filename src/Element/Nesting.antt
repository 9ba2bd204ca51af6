-- ===== src/Element/Nesting.antt =====
-- An element that is opened by OpenTLV, filled and closed, against WriteTLKV.
use go_rdx.Prelude.{
  ℕ, ◌≤◌, ◌≡◌, refl, ap, ◌∙◌, List, [], ◌∷◌, ◌++◌, length, append_assoc, none, Outcome, byte,
}
use go_rdx.Tlv.{Mark, Closed, new_mark, close_tlv, write_tlkv}
use go_rdx.Tlv.Case.{IsUpper}
use go_rdx.Tlv.Nesting.{close_tlv-open_tlv, open_tlv-capital}
use go_rdx.Element.RoundTrip.{write_tlv-eq-write_tlkv}

-- The bytes of an open element, up to its value.
abbrev pub open_element : List ℕ → ℕ → List ℕ → List ℕ
open_element out lit key = (out ++ (lit ∷ 0 ∷ 0 ∷ 0 ∷ 0 ∷ [])) ++ (byte (length key) ∷ key)

ok_injective : {c c' : Closed} → Outcome.ok c ≡ Outcome.ok c' → c ≡ c'
ok_injective h = cc

-- CloseTLV reads the place and the type of a mark.
close_tlv-same :
    (bytes : List ℕ) (lit : ℕ) (m m' : Mark) (ms : List Mark)
    → m.start ≡ m'.start
    → m.lit ≡ m'.lit
    → close_tlv bytes lit (m ∷ ms) ≡ close_tlv bytes lit (m' ∷ ms)
unfolding close_tlv
close_tlv-same bytes lit m m' ms e e' = rw (e, e') refl

pub close_tlv-element :
    (out : List ℕ) (lit : ℕ) (key bytes : List ℕ) (m : Mark) (ms : List Mark)
    → IsUpper lit
    → length key ≤ 255
    → m.start ≡ length out
    → m.lit ≡ lit
    → close_tlv (open_element out lit key ++ bytes) lit (m ∷ ms)
      ≡ record { out = write_tlkv out lit key bytes; stack = ms; error = none }
close_tlv-element out lit key bytes m ms up k e e' =
    let header : List ℕ = lit ∷ 0 ∷ 0 ∷ 0 ∷ 0 ∷ [] in
    let named : List ℕ = byte (length key) ∷ key in
    let closed =
      rw (open_tlv-capital out lit ms up) at (close_tlv-open_tlv out lit (named ++ bytes) ms up) in
    close_tlv-same _ lit m (new_mark (length out) lit) ms e e'
    ∙ ap (λ b. close_tlv b lit (new_mark (length out) lit ∷ ms))
        (append_assoc (out ++ header) named bytes)
    ∙ ok_injective closed
    ∙ ap (λ b. record { out = b; stack = ms; error = none })
        (write_tlv-eq-write_tlkv out lit key bytes k)
