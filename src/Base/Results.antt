-- ===== src/Base/Results.antt =====
-- Results with the exceptions of yacl/utils/exception.h that the modelled code throws.
use mathlib.Core.Bool.{Bool, true, false}
use mathlib.Core.Option.{Option, none, some}

-- `YACL_THROW`, `YACL_ENFORCE`, `YACL_THROW_LOGIC_ERROR`, `YACL_THROW_IO_ERROR` and
-- `YACL_THROW_LINK_ABORTED`; `fault` is an access that C++ leaves undefined.
pub data Error : Type 0 where
  runtime_error enforce_not_met logic_error io_error link_aborted fault : Error

infixl 5 ◌>>=◌ ◌>>◌
-- How a function of the code ends: it returns, or an exception leaves it.
pub data Result {ℓ} (T : Type ℓ) : Type ℓ where
  ok : T → Result T
  err : Error → Result T

abbrev pub ◌>>=◌ {ℓ κ} : {R : Type κ} {T : Type ℓ} → Result T → (T → Result R) → Result R
err thrown >>= next = err thrown
ok value >>= next = next value

abbrev pub ◌>>◌ {κ} : {R : Type κ} → Result (Unit {0}) → Result R → Result R
first >> second = first >>= λ done. second

-- `YACL_ENFORCE(b)`
abbrev pub enforce : Bool → Result (Unit {0})
enforce true = ok tt
enforce false = err enforce_not_met

-- `if (b) throw e;`
abbrev pub throw_if : Bool → Error → Result (Unit {0})
throw_if true e = err e
throw_if false e = ok tt

abbrev pub or_throw {ℓ} : {A : Type ℓ} → Option A → Error → Result A
or_throw none e = err e
or_throw (some a) e = ok a
