-- ===== src/Base/Text.antt =====
-- What the program takes of Go's package `strings`. Case mapping is that of ASCII and white space
-- that of Latin-1; the other letters and spaces of Unicode are left as they are.
pub mod Splitting
pub mod Integers
use Prim.Native.Char.{Char, code}
use Prim.Native.String.{[], ◌∷◌, ◌++◌}
use text.Mathlib.Text.{starts_with}
use crypto_price_alert.Base.Equality.{◌==◌, string_eq, if◌then◌else◌}
use crypto_price_alert.Base.Numbers.{leb, ltb}
use Prim.Native.Nat.{ℕ, zero, suc, ◌/◌, ◌%◌, compare, Ordering}
use Prim.Native.String.{String}
use mathlib.Core.Bool.{Bool, true, false, ◌&&◌, ◌||◌}
use mathlib.Core.Option.{Option, none, some}
use mathlib.Core.List.{List}

abbrev same_code : ℕ → ℕ → Bool
same_code a b = elim (compare a b) [ Ordering.eq ↦ true | _ ↦ false ]

-- `unicode.IsSpace` on Latin-1
unfoldable pub is_space : Char → Bool
is_space c =
    (leb 9 (code c) && leb (code c) 13)
    || same_code (code c) 32
    || same_code (code c) 133
    || same_code (code c) 160

-- `strings.TrimLeft` by white space
unfoldable pub trim_left : String → String
unfolding is_space
trim_left [] = []
trim_left (c ∷ s) = let rest = trim_left s in if is_space c then rest else c ∷ s

unfoldable pub reverse_onto : String → String → String
reverse_onto [] acc = acc
reverse_onto (c ∷ s) acc = reverse_onto s (c ∷ acc)

-- `strings.TrimSpace`
unfoldable pub trim_space : String → String
unfolding trim_left reverse_onto
trim_space s = reverse_onto (trim_left (reverse_onto (trim_left s) [])) []

-- The character that stands in `to` where `c` stands in `from`.
unfoldable pub translate : String → String → Char → Char
translate [] to c = c
translate (f ∷ from) [] c = c
translate (f ∷ from) (t ∷ to) c = if same_code (code f) (code c) then t else translate from to c

abbrev lower_letters : String
lower_letters = "abcdefghijklmnopqrstuvwxyz"

abbrev upper_letters : String
upper_letters = "ABCDEFGHIJKLMNOPQRSTUVWXYZ"

-- `strings.ToUpper`
unfoldable pub to_upper : String → String
unfolding translate
to_upper [] = []
to_upper (c ∷ s) = translate lower_letters upper_letters c ∷ to_upper s

-- `strings.ToLower`
unfoldable pub to_lower : String → String
unfolding translate
to_lower [] = []
to_lower (c ∷ s) = translate upper_letters lower_letters c ∷ to_lower s

-- `strings.HasPrefix`
abbrev pub has_prefix : String → String → Bool
has_prefix s prefix = starts_with s prefix

-- What is left of `s` behind as many characters as the first argument has.
unfoldable pub skip : String → String → String
skip [] s = s
skip (p ∷ prefix) [] = []
skip (p ∷ prefix) (c ∷ s) = skip prefix s

-- `strings.TrimPrefix`
unfoldable pub trim_prefix : String → String → String
unfolding skip
trim_prefix s prefix = if starts_with s prefix then skip prefix s else s

-- `strings.Cut` at one character: what stands before it and behind it.
unfoldable pub cut : ℕ → String → Option (String × String)
cut k [] = none
cut k (c ∷ s) =
    let rest : Option (String × String) = elim (cut k s) [
      | none ↦ none
      | some (a, b) ↦ some (c ∷ a, b)
    ] in
    if same_code (code c) k then some ([], s) else rest

-- `strings.Contains` of one character
unfoldable pub has_code : ℕ → String → Bool
unfolding cut
has_code k s = elim (cut k s) [ none ↦ false | some parts ↦ true ]

-- `strings.SplitN(s, sep, 3)` at one character, if it gives three parts.
unfoldable pub split_three : ℕ → String → Option (String × String × String)
unfolding cut
split_three k s = elim (cut k s) [
  | none ↦ none
  | some (first, rest) ↦ elim (cut k rest) [
    | none ↦ none
    | some (second, third) ↦ some (first, second, third)
  ]
]

-- `strings.Fields`: the words between white space. `word` is the word read so far, backwards.
unfoldable pub fields_from : String → String → List String
unfolding is_space reverse_onto
fields_from word [] = if word == "" then List.[] else List.◌∷◌ (reverse_onto word []) List.[]
fields_from word (c ∷ s) =
    let here = fields_from [] s in
    let more = fields_from (c ∷ word) s in
    if is_space c then (if word == "" then here else List.◌∷◌ (reverse_onto word []) here) else more

unfoldable pub fields : String → List String
unfolding fields_from string_eq
fields s = fields_from [] s

-- `strings.Join`
unfoldable pub join : List String → String → String
join List.[] sep = ""
join (List.◌∷◌ s List.[]) sep = s
join (List.◌∷◌ s (List.◌∷◌ t rest)) sep = s ++ sep ++ join (List.◌∷◌ t rest) sep

-- `strings.TrimRight` by the characters with one code
unfoldable pub trim_code : ℕ → String → String
trim_code k [] = []
trim_code k (c ∷ s) =
    let rest = trim_code k s in if rest == "" && same_code (code c) k then [] else c ∷ rest

-- `%-ns`
unfoldable pub pad_right : ℕ → String → String
pad_right zero s = s
pad_right (suc n) [] = " " ++ pad_right n []
pad_right (suc n) (c ∷ s) = c ∷ pad_right n s

-- the order of Go's `<` on texts
abbrev pub string_lt : String → String → Bool
string_lt s t = elim (Prim.Native.String.compare s t) [ Ordering.lt ↦ true | _ ↦ false ]

abbrev digit_text : ℕ → String
digit_text n =
    if same_code n 0
    then "0"
    else if same_code n 1
    then "1"
    else if same_code n 2
    then "2"
    else if same_code n 3
    then "3"
    else if same_code n 4
    then "4"
    else if same_code n 5
    then "5"
    else if same_code n 6
    then "6"
    else if same_code n 7
    then "7"
    else if same_code n 8
    then "8"
    else "9"

decimal_digits : ℕ → ℕ → String
decimal_digits zero n = ""
decimal_digits (suc fuel) n =
    let front = decimal_digits fuel (n / 10) in
    if ltb n 10 then digit_text n else front ++ digit_text (n % 10)

-- `%d` of a number below 10 ^ 20
unfoldable pub decimal : ℕ → String
unfolding decimal_digits
decimal n = decimal_digits 20 n
