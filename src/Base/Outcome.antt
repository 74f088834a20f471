-- ===== src/Base/Outcome.antt =====
-- Go's `(value, error)` results, and operations that also change a state.
use Prim.Native.String.{String}
use mathlib.Core.Path.{◌≡◌, refl, ap}
use mathlib.Core.Bool.{Bool, true, false}
use mathlib.Core.Logic.{◌⊎◌, inl, inr, ◌≢◌}
use mathlib.Core.List.{List, []}
use native.Mathlib.Omega.{arith}

-- An error is the format of its message with the values put in, one of the errors that the program
-- tells apart by `errors.Is`, or one of them wrapped by `%w`.
pub data Error : Type 0 where
  errorf : String → List String → Error
  wrapped : String → Error → Error
  record_not_found : Error
  alert_config_not_found : Error

abbrev pub failure : String → Error
failure message = errorf message []

-- `errors.Is(err, repository.ErrAlertConfigNotFound)`
unfoldable pub is_config_not_found : Error → Bool
is_config_not_found alert_config_not_found = true
is_config_not_found (wrapped message e) = is_config_not_found e
is_config_not_found (errorf message values) = false
is_config_not_found record_not_found = false

-- `errors.Is(err, gorm.ErrRecordNotFound)`
unfoldable pub is_record_not_found : Error → Bool
is_record_not_found record_not_found = true
is_record_not_found (wrapped message e) = is_record_not_found e
is_record_not_found (errorf message values) = false
is_record_not_found alert_config_not_found = false

pub data Result {ℓ} (A : Type ℓ) : Type ℓ where
  ok : A → Result A
  err : Error → Result A

-- A function of Go that returns an `error` alone.
abbrev pub Status : Type 0
Status = Result (Unit {0})

abbrev pub ok? {ℓ} : {A : Type ℓ} → Result A → Bool
ok? (ok a) = true
ok? (err e) = false

pub Result-cases {ℓ} :
    {A : Type ℓ} (r : Result A) → ((a : A) × (r ≡ ok a)) ⊎ ((e : Error) × (r ≡ err e))
Result-cases (ok a) = inl (a, refl)
Result-cases (err e) = inr (e, refl)

pub ok_injective {ℓ} : {A : Type ℓ} {a b : A} → ok a ≡ ok b → a ≡ b
ok_injective {A = A} {a = a} h = ap (λ r. elim r as (λ x. A) [ ok x ↦ x | err e ↦ a ]) h

pub err≢ok {ℓ} : {A : Type ℓ} {e : Error} {a : A} → err e ≢ ok a
err≢ok h = ground arith

module _ {ℓ κ} {A : Type ℓ} {B : Type κ} where
  infixl 5 ◌>>=◌
  abbrev pub ◌>>=◌ : Result A → (A → Result B) → Result B
  ok a >>= f = f a
  err e >>= f = err e

infixl 5 ◌>>◌
abbrev pub ◌>>◌ {ℓ} : {B : Type ℓ} → Status → Result B → Result B
ok u >> k = k
err e >> k = err e

-- `if test { return err }`
abbrev pub fail_if : Bool → Error → Status
fail_if true e = err e
fail_if false e = ok tt
