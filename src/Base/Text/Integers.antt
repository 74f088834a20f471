-- ===== src/Base/Text/Integers.antt =====
-- `strconv.ParseInt` of Go, in base 10 and 64 bits.
use Prim.Native.Char.{code}
use Prim.Native.String.{String, [], ◌∷◌}
use Prim.Native.Nat.{ℕ, ◌+◌, ◌-◌, ◌*◌, ◌^◌}
use mathlib.Core.Bool.{Bool, true, false, ◌&&◌}
use mathlib.Core.Option.{Option, none, some}
use crypto_price_alert.Base.Equality.{◌==◌, nat_eq, string_eq, if◌then◌else◌}
use crypto_price_alert.Base.Numbers.{leb}

-- The number that the digits of a text continue.
unfoldable pub digits_from : ℕ → String → Option ℕ
digits_from n [] = some n
digits_from n (c ∷ s) =
    let rest = digits_from (n * 10 + (code c - 48)) s in
    if leb 48 (code c) && leb (code c) 57 then rest else none

-- A number of at least one digit, within the bound of an `int64`; the sign is true below 0.
unfoldable pub signed : Bool → String → Option (Bool × ℕ)
unfolding digits_from
signed negative digits = if digits == "" then none else elim (digits_from 0 digits) [
  | none ↦ none
  | some n ↦ if leb n (if negative then 2 ^ 63 else 2 ^ 63 - 1) then some (negative, n) else none
]

-- `strconv.ParseInt(s, 10, 64)`
unfoldable pub parse_int : String → Option (Bool × ℕ)
unfolding signed
parse_int [] = none
parse_int (c ∷ s) =
    if code c == 43
    then signed false s
    else if code c == 45
    then signed true s
    else signed false (c ∷ s)
