-- ===== src/Chat/Selection/Switching.antt =====
-- What a menu of internal/chat does to the selected values of a session.
use crypto_price_alert.Base.{
  ◌==◌, ◌≡◌, Eq, not, contains, Distinct, List, [], ◌∷◌, arith, refl, if◌then◌else◌, ◌&&◌,
}
use crypto_price_alert.Chat.Selection.{toggle, keep, keep_allowed}

module _ {A : Type 0} ⦃e : Eq A⦄ where
  contains-toggle_lem :
      (xs : List A) (v u : A)
      → Distinct xs
      → contains (toggle xs v) u ≡ (if u == v then not (contains xs u) else contains xs u)
  unfolding toggle
  contains-toggle_lem [] v u d = ground arith
  contains-toggle_lem (x ∷ xs) v u d = ground (arith, contains-toggle_lem xs v u d.1)

  toggle-Distinct : (xs : List A) (v : A) → Distinct xs → Distinct (toggle xs v)
  unfolding toggle
  toggle-Distinct [] v d = ground arith
  toggle-Distinct (x ∷ xs) v d =
      ground (arith, toggle-Distinct xs v d.1, contains-toggle_lem xs v x d.1)

  -- In a selection without a value twice, a switch of a value turns its membership round and leaves
  -- that of every other value, and no value stands twice afterwards.
  pub toggle-flips :
      (xs : List A) (v u : A)
      → Distinct xs
      → (contains (toggle xs v) u ≡ (if u == v then not (contains xs u) else contains xs u))
        × Distinct (toggle xs v)
  toggle-flips xs v u d = (contains-toggle_lem xs v u d, toggle-Distinct xs v d)

  -- The members that are kept are exactly those that are allowed.
  pub contains-keep_allowed :
      (xs allowed : List A) (u : A)
      → contains (keep_allowed xs allowed) u ≡ (contains xs u && contains allowed u)
  unfolding keep_allowed keep
  contains-keep_allowed [] allowed u = refl
  contains-keep_allowed (x ∷ xs) allowed u = ground (arith, contains-keep_allowed xs allowed u)
