-- ===== src/Base/Text/Splitting.antt =====
-- What `strings.Cut` and `strings.SplitN` give of texts that are joined by a separator.
use Prim.Native.Char.{Char, code}
use Prim.Native.String.{String, [], ◌∷◌, ◌++◌}
use Prim.Native.Nat.{ℕ}
use mathlib.Core.Path.{◌≡◌, refl}
use mathlib.Core.Logic.{◌≢◌}
use mathlib.Core.Bool.{true}
use mathlib.Core.Option.{none, some}
use native.Mathlib.Omega.{arith}
use text.Mathlib.TextEquality.{starts_with_iff}
use text.Mathlib.TextLemmas.{nil-append, cons-append}
use crypto_price_alert.Base.Text.{cut, split_three, has_prefix}

-- No character of the text has the code `k`.
abbrev pub Lacks : ℕ → String → Type 0
Lacks k [] = Unit
Lacks k (c ∷ s) = (code c ≢ k) × Lacks k s

pub cut-append :
    (k : ℕ) (a : String) (c : Char) (b : String)
    → Lacks k a
    → code c ≡ k
    → cut k (a ++ (c ∷ b)) ≡ some (a, b)
unfolding cut
cut-append k [] c b h e = rw nil-append (ground arith)
cut-append k (x ∷ a) c b h e = rw (cons-append, cut-append k a c b h.1 e) (ground arith)

pub cut-none : (k : ℕ) (s : String) → Lacks k s → cut k s ≡ none
unfolding cut
cut-none k [] h = refl
cut-none k (c ∷ s) h = rw (cut-none k s h.1) (ground arith)

pub split_three-join :
    (k : ℕ) (first second third : String) (c : Char)
    → Lacks k first
    → Lacks k second
    → code c ≡ k
    → split_three k (first ++ (c ∷ (second ++ (c ∷ third)))) ≡ some (first, second, third)
unfolding split_three
split_three-join k first second third c h l e =
    rw
      (
        split_three,
        cut-append k first c (second ++ (c ∷ third)) h e,
        cut-append k second c third l e,
      )
      refl

pub has_prefix-append : (p s : String) → has_prefix (p ++ s) p ≡ true
has_prefix-append p s = (starts_with_iff (p ++ s) p).1 (s, refl)
