-- ===== src/Base/Action.antt =====
-- Calls that may fail and that change a world `W`. What was changed before a failure stays changed.
use mathlib.Core.Bool.{Bool, true, false}
use crypto_price_alert.Base.Outcome.{Result, ok, err, Error}

abbrev pub Action : Type 0 → Type 0 → Type 0
Action W A = W → Result A × W

module _ {W A : Type 0} where
  abbrev pub pure : A → Action W A
  pure a w = (ok a, w)

  abbrev pub raise : Error → Action W A
  raise e w = (err e, w)

  abbrev pub lift : Result A → Action W A
  lift r w = (r, w)

  -- A call that cannot fail.
  abbrev pub total : (W → A × W) → Action W A
  total m w = (ok (m w).0, (m w).1)

-- `if test { m }`
abbrev pub when : {W : Type 0} → Bool → Action W (Unit {0}) → Action W (Unit {0})
when true m = m
when false m = pure tt

module _ {W A B : Type 0} where
  abbrev pub continue : Result A → (A → Action W B) → Action W B
  continue (ok a) f w = f a w
  continue (err e) f w = (err e, w)

  infixl 5 ◌>>=◌ ◌>>◌
  abbrev pub ◌>>=◌ : Action W A → (A → Action W B) → Action W B
  ◌>>=◌ m f w = continue (m w).0 f (m w).1

  abbrev pub ◌>>◌ : Action W A → Action W B → Action W B
  ◌>>◌ m n w = continue (m w).0 (λ _. n) (m w).1
