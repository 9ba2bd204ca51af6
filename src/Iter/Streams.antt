-- ===== src/Iter/Streams.antt =====
-- Reading a whole stream of written records.
use go_rdx.Prelude.{
  ℕ, ◌+◌, ◌^◌, ◌<◌, ◌≡◌, refl, ◌∙◌, arith, Bool, true, false, Bool-cases, inl, inr, ltb, ◌==◌, List,
  [], ◌∷◌, ◌++◌, length, Outcome, ok,
}
use go_rdx.Ident.{RdxId, unzip_id}
use go_rdx.Tlv.Case.{IsUpper}
use go_rdx.Tlv.{write_tlkv, cut_key}
use go_rdx.Iter.{Iter, new_iter, bad_iter, rest, record_end, value_start, parsed, read, read_next}
use go_rdx.Iter.Reading.{read-IsAt, read_lem, rest_lem, parsed_lem, nonempty}

-- `for it.Read() { it.Parsed() }`: what the loop sees, until Read stops without an error.
pub data Reads : Iter → List (ℕ × RdxId × List ℕ) → Type 0 where
  stop : {it it' : Iter} → read it ≡ ok (it', false) → it'.errndx ≡ 0 → Reads it []
  more :
      {it it' : Iter} {e : ℕ × RdxId × List ℕ} {es : List (ℕ × RdxId × List ℕ)}
      → read it ≡ ok (it', true)
      → parsed it' ≡ ok e
      → Reads it' es
      → Reads it (e ∷ es)

-- A record to write: its type, a capital letter, its identifier bytes, fewer than 250, and its value,
-- where identifier, value and one more byte come to less than 2 ^ 30.
pub record Written : Type 0 where
  pub lit : ℕ
  pub key : List ℕ
  pub val : List ℕ
  pub up : IsUpper lit
  pub key_fits : length key < 250
  pub fits : length key + length val + 1 < 2 ^ 30

abbrev pub stream_of : List Written → List ℕ
stream_of [] = []
stream_of (w ∷ ws) = write_tlkv [] w.lit w.key w.val ++ stream_of ws

abbrev pub elements_of : List Written → List (ℕ × RdxId × List ℕ)
elements_of [] = []
elements_of (w ∷ ws) = (w.lit, unzip_id w.key, w.val) ∷ elements_of ws

pub ended :
    (it : Iter)
    → ◌≡◌ {A = Outcome (Iter × Bool)} (ok (read_next it [])) (ok (bad_iter [] it.errndx, false))
unfolding read_next
ended it = refl

pub fresh_rest : (bytes : List ℕ) → rest (new_iter bytes) ≡ ok bytes
unfolding rest record_end value_start
fresh_rest bytes = ground arith

pub written_nonempty :
    (lit : ℕ) (key val tail : List ℕ) → (length (write_tlkv [] lit key val ++ tail) == 0) ≡ false
unfolding write_tlkv
written_nonempty lit key val tail =
    elim (Bool-cases (ltb 0xff (length (cut_key key) + length val + 1))) [
      | inl long ↦ rw long (ground arith)
      | inr short ↦ rw short (ground arith)
    ]

Reads-from :
    (ws : List Written) (it : Iter)
    → it.errndx ≡ 0
    → (length it.bytes == 0) ≡ false
    → rest it ≡ ok (stream_of ws)
    → Reads it (elements_of ws)
Reads-from [] it e p r = stop {it' = bad_iter [] it.errndx} (read_lem it [] e p r ∙ ended it) e
Reads-from (w ∷ ws) it e p r =
    let (it', reads, at) =
      read-IsAt it w.lit w.key w.val (stream_of ws) w.up w.key_fits w.fits e p r in
    more reads (parsed_lem at) (Reads-from ws it' at.no_error (nonempty it' at) (rest_lem at))

-- A cursor over records that WriteTLKV wrote one after another, each of a type that is a capital
-- letter, with an identifier of fewer than 250 bytes, and with identifier, value and one more byte of
-- less than 2 ^ 30 bytes together, sees exactly those records, in that order, and stops without an
-- error.
pub Reads-stream : (ws : List Written) → Reads (new_iter (stream_of ws)) (elements_of ws)
Reads-stream [] = stop {it = new_iter []} {it' = new_iter []} (unfold read in refl) refl
Reads-stream (w ∷ ws) =
    let bytes = stream_of (w ∷ ws) in
    Reads-from (w ∷ ws) (new_iter bytes) refl (written_nonempty w.lit w.key w.val (stream_of ws))
      (fresh_rest bytes)
