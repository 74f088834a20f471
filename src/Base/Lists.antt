-- ===== src/Base/Lists.antt =====
-- A property of every member of a list, by recursion on the list.
use mathlib.Core.List.{List, [], ◌∷◌, ◌++◌}
use mathlib.Core.Bool.{false}
use mathlib.Core.Path.{◌≡◌, refl}
use native.Mathlib.Omega.{arith}
use crypto_price_alert.Base.Equality.{Eq, contains}

module _ {ℓ κ} {A : Type ℓ} where
  abbrev pub All : (A → Type κ) → List A → Type κ
  All P [] = Unit
  All P (x ∷ xs) = P x × All P xs

  pub All-append : (P : A → Type κ) (xs ys : List A) → All P xs → All P ys → All P (xs ++ ys)
  All-append P [] ys h k = k
  All-append P (x ∷ xs) ys h k = (h.0, All-append P xs ys h.1 k)

  pub All-mono : (P Q : A → Type κ) → ((x : A) → P x → Q x) → (xs : List A) → All P xs → All Q xs
  All-mono P Q f [] h = tt
  All-mono P Q f (x ∷ xs) h = (f x h.0, All-mono P Q f xs h.1)

-- No member stands twice.
module _ {ℓ} {A : Type ℓ} ⦃e : Eq A⦄ where
  abbrev pub Distinct : List A → Type 0
  Distinct [] = Unit
  Distinct (x ∷ xs) = (contains xs x ≡ false) × Distinct xs

  -- No member of `xs` stands in `seen`.
  abbrev pub Apart : List A → List A → Type 0
  Apart seen xs = All (λ x. contains seen x ≡ false) xs

  pub Apart-nil : (xs : List A) → Apart [] xs
  Apart-nil [] = tt
  Apart-nil (x ∷ xs) = (refl, Apart-nil xs)

  pub Apart-cons :
      (a : A) (seen xs : List A) → contains xs a ≡ false → Apart seen xs → Apart (a ∷ seen) xs
  Apart-cons a seen [] h k = tt
  Apart-cons a seen (x ∷ xs) h k = (ground arith, Apart-cons a seen xs (ground arith) k.1)

  pub Apart-tail : (a : A) (seen xs : List A) → Apart (a ∷ seen) xs → Apart seen xs
  Apart-tail a seen [] h = tt
  Apart-tail a seen (x ∷ xs) h = (ground arith, Apart-tail a seen xs h.1)

  pub Apart-head : (a : A) (seen xs : List A) → Apart (a ∷ seen) xs → contains xs a ≡ false
  Apart-head a seen [] h = refl
  Apart-head a seen (x ∷ xs) h = ground (arith, Apart-head a seen xs h.1)
