-- ===== src/Ident/Texts.antt =====
-- NewID and ParseID read back what RonString writes.
use go_rdx.Prelude.{
  ℕ, ◌+◌, ◌^◌, ◌≤◌, ◌<◌, ◌≡◌, refl, ap, ◌∙◌, sym, arith, append-nil, ◌==◌, List, [], ◌∷◌, ◌++◌,
  length, length-append, none, Bool-cases, inl, inr,
}
use go_rdx.Ident.{
  RdxId, ron64_string, ron_string, parse_ron64, new_id, new_id_rest, new_id_seq, parse_id,
  parse_id_rest, dash,
}
use go_rdx.Ident.Digits.{ron64_rev}
use go_rdx.Ident.Numbers.{Stops, parse_ron64-string, length-ron64_string}

dash-Stops : (rest : List ℕ) → Stops (dash ∷ rest)
unfolding ron64_rev
dash-Stops rest = refl

parse_all : (u : ℕ) → u < 2 ^ 64 → parse_ron64 (ron64_string u) ≡ (u, [])
parse_all u h = ap parse_ron64 (sym (append-nil (ron64_string u))) ∙ parse_ron64-string u [] h tt

abbrev Is60bit : RdxId → Type 0
Is60bit id = (id.src < 2 ^ 60) × (id.seq < 2 ^ 60)

new_id_seq-string :
    (src seq : ℕ)
    → seq < 2 ^ 60
    → new_id_seq src (ron64_string seq)
      ≡ record { id = record { src = src; seq = seq }; error = none }
unfolding new_id_seq
new_id_seq-string src seq h = rw (parse_all seq (omega arith)) (ground arith)

new_id-plain :
    (seq : ℕ)
    → seq < 2 ^ 60
    → new_id (ron64_string seq) ≡ record { id = record { src = 0; seq = seq }; error = none }
unfolding new_id
new_id-plain seq h =
    rw (parse_all seq (omega arith))
      (unfold new_id_rest in ground (arith, length-ron64_string 9 seq (omega arith) (omega arith)))

new_id_rest-dash :
    (txt tail : List ℕ) (src : ℕ)
    → length txt ≤ 11 + length (dash ∷ tail)
    → length tail ≤ 10
    → src < 2 ^ 60
    → new_id_rest txt src (dash ∷ tail) ≡ new_id_seq src tail
unfolding new_id_rest
new_id_rest-dash txt tail src h k p = ground arith

new_id-dash :
    (src seq : ℕ)
    → src < 2 ^ 60
    → seq < 2 ^ 60
    → new_id (ron64_string src ++ (dash ∷ ron64_string seq))
      ≡ record { id = record { src = src; seq = seq }; error = none }
unfolding new_id
new_id-dash src seq h k =
    let front = ron64_string src in
    let back = ron64_string seq in
    rw (parse_ron64-string src (dash ∷ back) (omega arith) (dash-Stops back)) (
      new_id_rest-dash (front ++ (dash ∷ back)) back src
        (omega (
          arith,
          length-append front (dash ∷ back),
          length-ron64_string 9 src (omega arith) (omega arith),
        ))
        (length-ron64_string 9 seq (omega arith) k) h
      ∙ new_id_seq-string src seq k)

-- NewID reads back, without an error, what RonString writes for an identifier whose two halves
-- have at most 60 bits.
pub new_id-ron_string :
    (id : RdxId)
    → id.src < 2 ^ 60
    → id.seq < 2 ^ 60
    → new_id (ron_string id) ≡ record { id = id; error = none }
unfolding ron_string
new_id-ron_string id h k = elim (Bool-cases (id.src == 0)) [
  | inl zero_src ↦ rw zero_src (ground (arith, new_id-plain id.seq k))
  | inr other ↦ rw other (new_id-dash id.src id.seq h k)
]

-- ParseID reads back what RonString writes for every identifier of two uint64s.
parse_id-ron_string :
    (id : RdxId) → id.src < 2 ^ 64 → id.seq < 2 ^ 64 → parse_id (ron_string id) ≡ (id, [])
unfolding ron_string parse_id
parse_id-ron_string id h k = elim (Bool-cases (id.src == 0)) [
  | inl zero_src ↦ rw (zero_src, parse_all id.seq k) (unfold parse_id_rest in ground arith)
  | inr other ↦
      rw
        (
          other,
          parse_ron64-string id.src (dash ∷ ron64_string id.seq) h
              (dash-Stops (ron64_string id.seq)),
        )
        (unfold parse_id_rest in rw (parse_all id.seq k) refl)
]
