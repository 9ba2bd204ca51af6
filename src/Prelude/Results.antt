-- ===== src/Prelude/Results.antt =====
-- What a Go function that may fail does: it returns, it returns an error, or it panics. A loop on
-- fuel may also run out of it.
use mathlib.Core.Option.{Option, none, some}
use mathlib.Core.Path.{◌≡◌, refl}
use mathlib.Core.Bool.{Bool, true, false}
use go_rdx.Prelude.Tests.{if◌then◌else◌}

-- The package's error values, as far as the modelled code returns them.
pub data Error : Type 0 where
  incomplete bad_record bad_nesting bad_rdx_record wrong_rdx_record_type : Error
  bad_id_syntax bad_ron60_syntax record_not_found bad_path no_key_provided not_plex : Error
  out_of_range eos bad_float_record bad_integer_record bad_reference_record : Error
  bad_string_record bad_term_record bad_state bad_jdr_nesting bad_utf8 io_fail : Error
  bad_sha256_hex : Error

pub data Outcome {ℓ} (A : Type ℓ) : Type ℓ where
  ok : A → Outcome A
  err : Error → Outcome A
  panic : Outcome A
  out_of_fuel : Outcome A

infixl 5 ◌>>=◌
abbrev pub ◌>>=◌ {ℓ κ} : {A : Type ℓ} {B : Type κ} → Outcome A → (A → Outcome B) → Outcome B
ok a >>= f = f a
err e >>= f = err e
panic >>= f = panic
out_of_fuel >>= f = out_of_fuel

-- An index out of range panics.
abbrev pub or_panic {ℓ} : {A : Type ℓ} → Option A → Outcome A
or_panic none = panic
or_panic (some a) = ok a

-- The computation returns a value with the property.
abbrev pub Returns {ℓ κ} : {A : Type ℓ} → (A → Type κ) → Outcome A → Type (ℓ ⊔ κ)
Returns {A = A} Q m = (a : A) × (m ≡ ok a) × Q a

pub Returns-bind {ℓ κ ι ν} :
    {A : Type ℓ} {B : Type κ} {Q : A → Type ι} {R : B → Type ν} (m : Outcome A) (f : A → Outcome B)
    → Returns Q m
    → ((a : A) → Q a → Returns R (f a))
    → Returns R (m >>= f)
Returns-bind m f (a, e, q) next = let (b, e', r) = next a q in (b, rw e e', r)

pub Returns-if {ℓ κ} :
    {A : Type ℓ} {Q : A → Type κ} (test : Bool) (m n : Outcome A)
    → (test ≡ true → Returns Q m)
    → (test ≡ false → Returns Q n)
    → Returns Q (if test then m else n)
Returns-if true m n yes_ no_ = yes_ refl
Returns-if false m n yes_ no_ = no_ refl
