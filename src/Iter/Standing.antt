-- ===== src/Iter/Standing.antt =====
-- A cursor that stands at a written record: the bytes of the record, and the step to the next one.
use go_rdx.Prelude.{
  ℕ, ◌+◌, ◌≡◌, refl, ap, sym, ◌∙◌, arith, Bool, true, false, leb, ◌==◌, List, [], ◌∷◌, ◌++◌, length,
  length-append, take-append, Outcome, ok,
}
use go_rdx.Tlv.{write_tlkv}
use go_rdx.Iter.{Iter, read, read_next, read_record, read_id, rest, iter_record}
use go_rdx.Iter.Reading.{IsAt, read-IsAt, read_lem, end_lem}
use go_rdx.Iter.Streams.{Written, stream_of}

read_next-bytes :
    (it it' : Iter) (next : List ℕ) → read_next it next ≡ (it', true) → it'.bytes ≡ next
unfolding read_next read_record read_id
read_next-bytes it it' [] h = absurd (ground arith)
read_next-bytes it it' (b ∷ next) h = ground arith

-- A cursor at a written record, before the records of `ws`.
pub record Stands (it : Iter) (w : Written) (ws : List Written) : Type 0 where
  pub is_at : IsAt it w.lit w.key w.val (stream_of ws)
  pub bytes : it.bytes ≡ stream_of (w ∷ ws)

pub iter_record-Stands :
    (it : Iter) (w : Written) (ws : List Written)
    → Stands it w ws
    → iter_record it ≡ ok (write_tlkv [] w.lit w.key w.val)
unfolding iter_record
iter_record-Stands it w ws s =
    let at = s.is_at in
    let record_bytes = write_tlkv [] w.lit w.key w.val in
    let end : length (at.head ++ w.key) + length w.val ≡ length record_bytes = omega (
      arith,
      ap length at.bytes,
      ap length s.bytes,
      length-append record_bytes (stream_of ws),
      length-append at.head (w.key ++ (w.val ++ stream_of ws)),
      length-append w.key (w.val ++ stream_of ws),
      length-append w.val (stream_of ws),
      length-append at.head w.key,
    ) in
    let fits : leb (length record_bytes) (length (record_bytes ++ stream_of ws)) ≡ true =
      ground (arith, length-append record_bytes (stream_of ws)) in
    rw (
      end_lem at,
      end,
      s.bytes,
      fits,
      take-append record_bytes (stream_of ws) (length record_bytes) refl,
    )

pub read-Stands :
    (it : Iter) (w : Written) (ws : List Written)
    → it.errndx ≡ 0
    → (length it.bytes == 0) ≡ false
    → rest it ≡ ok (stream_of (w ∷ ws))
    → (it' : Iter) × (read it ≡ ok (it', true)) × Stands it' w ws
read-Stands it w ws e more r =
    let (it', reads, at) =
      read-IsAt it w.lit w.key w.val (stream_of ws) w.up w.key_fits w.fits e more r in
    let same : ◌≡◌ {A = Outcome (Iter × Bool)} (ok (it', true))
        (ok (read_next it (stream_of (w ∷ ws)))) =
      sym reads ∙ read_lem it (stream_of (w ∷ ws)) e more r in
    let found : (it', true) ≡ read_next it (stream_of (w ∷ ws)) = cc in
    (
      it',
      reads,
      record { is_at = at; bytes = read_next-bytes it it' (stream_of (w ∷ ws)) (sym found) },
    )
