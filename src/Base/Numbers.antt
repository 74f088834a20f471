-- ===== src/Base/Numbers.antt =====
-- Tests on the native numbers, the reading of a 64-bit pattern as an `int64`, and list lengths.
use Prim.Native.Nat.{ℕ, suc, ◌+◌, ◌^◌, ◌%◌, ◌<◌, compare, Ordering}
use mathlib.Core.Path.{◌≡◌}
use mathlib.Core.Bool.{Bool, true, false}
use mathlib.Core.List.{List, [], ◌∷◌, ◌++◌}
use native.Mathlib.Omega.{arith}

abbrev pub ltb : ℕ → ℕ → Bool
ltb a b = elim (compare a b) [ Ordering.lt ↦ true | _ ↦ false ]

abbrev pub leb : ℕ → ℕ → Bool
leb a b = elim (compare a b) [ Ordering.gt ↦ false | _ ↦ true ]

pub ltb→lt : (a b : ℕ) → ltb a b ≡ true → a < b
ltb→lt a b h = ground arith

pub lt→ltb : (a b : ℕ) → a < b → ltb a b ≡ true
lt→ltb a b h = ground arith

-- An `int64` is kept as its bit pattern below 2 ^ 64: sums wrap, and the upper half is negative.
abbrev pub wrap64 : ℕ → ℕ
wrap64 n = n % 2 ^ 64

abbrev pub negative64 : ℕ → Bool
negative64 n = leb (2 ^ 63) n

-- `<= 0` of an `int64`
abbrev pub not_positive : ℕ → Bool
not_positive n = elim (negative64 n) [ true ↦ true | false ↦ leb n 0 ]

module _ {ℓ} {A : Type ℓ} where
  abbrev pub length : List A → ℕ
  length [] = 0
  length (x ∷ xs) = suc (length xs)

  abbrev pub empty? : List A → Bool
  empty? [] = true
  empty? (x ∷ xs) = false

  pub length-append : (xs ys : List A) → length (xs ++ ys) ≡ length xs + length ys
  length-append [] ys = omega arith
  length-append (x ∷ xs) ys = omega (arith, length-append xs ys)
