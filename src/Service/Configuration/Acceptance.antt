-- ===== src/Service/Configuration/Acceptance.antt =====
-- What a configuration that reaches the repository satisfies.
use crypto_price_alert.Base.{
  ℕ, ◌≤◌, ◌≡◌, refl, String, true, false, contains, string_eq, List, [], ◌∷◌, map, ok, ltb, length,
  empty?, arith, All, Distinct, Result-cases, Apart, Apart-head, Apart-tail, inl, inr, ap, suc,
}
use crypto_price_alert.Domain.Interval.{Interval}
use crypto_price_alert.Service.Configuration.Validator.{
  normalize_symbol, check_symbols, validate_symbols, validate_intervals, check_interval_list,
}

-- What a list satisfies that comes out of one of the two loops.
pub record Accepted (allowed wanted names : List String) : Type 0 where
  pub as_wanted : names ≡ wanted
  pub are_allowed : All (λ x. contains allowed x ≡ true) names
  pub distinct : Distinct names

length-map_symbols : (raw : List String) → length (map normalize_symbol raw) ≡ length raw
length-map_symbols [] = refl
length-map_symbols (x ∷ xs) = ap suc (length-map_symbols xs)

length-pos : (xs : List String) → empty? xs ≡ false → 1 ≤ length xs
length-pos [] h = absurd (ground arith)
length-pos (x ∷ xs) h = omega arith

normalized_length :
    (raw : List String) {limit : ℕ}
    → empty? raw ≡ false
    → ltb limit (length raw) ≡ false
    → (1 ≤ length (map normalize_symbol raw)) × (length (map normalize_symbol raw) ≤ limit)
normalized_length raw some few = rw (length-map_symbols raw) (length-pos raw some, ground arith)

module _ (allowed : List String) where
  check_symbols-Accepted :
      (seen raw names : List String)
      → check_symbols allowed seen raw ≡ ok names
      → Accepted allowed (map normalize_symbol raw) names × Apart seen names
  unfolding check_symbols
  check_symbols-Accepted seen [] names h =
      let none_left : names ≡ [] = ground arith in
      rw none_left (record { as_wanted = refl; are_allowed = tt; distinct = tt }, tt)
  check_symbols-Accepted seen (raw ∷ rest) names h =
      elim (Result-cases (check_symbols allowed (normalize_symbol raw ∷ seen) rest)) [
        | inr (error, x) ↦ absurd (ground arith)
        | inl (xs, x) ↦
            let (ih, apart) = check_symbols-Accepted (normalize_symbol raw ∷ seen) rest xs x in
            let taken : (names ≡ normalize_symbol raw ∷ xs)
                × (contains allowed (normalize_symbol raw) ≡ true)
                × (contains seen (normalize_symbol raw) ≡ false) =
              ground arith in
            rw taken.0 (
              record {
                as_wanted = ap (λ t. normalize_symbol raw ∷ t) ih.as_wanted;
                are_allowed = (taken.1, ih.are_allowed);
                distinct = (Apart-head _ seen xs apart, ih.distinct);
              },
              (taken.2, Apart-tail _ seen xs apart),
            )
      ]

  check_interval_list-Accepted :
      (seen raw names : List Interval)
      → check_interval_list allowed seen raw ≡ ok names
      → Accepted allowed raw names × Apart seen names
  unfolding check_interval_list
  check_interval_list-Accepted seen [] names h =
      let none_left : names ≡ [] = ground arith in
      rw none_left (record { as_wanted = refl; are_allowed = tt; distinct = tt }, tt)
  check_interval_list-Accepted seen (i ∷ rest) names h =
      elim (Result-cases (check_interval_list allowed (i ∷ seen) rest)) [
        | inr (error, x) ↦ absurd (ground arith)
        | inl (xs, x) ↦
            let (ih, apart) = check_interval_list-Accepted (i ∷ seen) rest xs x in
            let taken : (names ≡ i ∷ xs) × (contains allowed i ≡ true) × (contains seen i ≡ false) =
              ground arith in
            rw taken.0 (
              record {
                as_wanted = ap (λ t. i ∷ t) ih.as_wanted;
                are_allowed = (taken.1, ih.are_allowed);
                distinct = (Apart-head _ seen xs apart, ih.distinct);
              },
              (taken.2, Apart-tail _ seen xs apart),
            )
      ]

  -- Accepted symbols are the requested ones in upper case and without white space around them, in
  -- their order; each is allowed, none stands twice, and there is at least one and at most the
  -- limit.
  pub validate_symbols-Accepted :
      (limit : ℕ) (raw names : List String)
      → validate_symbols allowed limit raw ≡ ok names
      → Accepted allowed (map normalize_symbol raw) names
        × ((1 ≤ length names) × (length names ≤ limit))
  unfolding validate_symbols
  validate_symbols-Accepted limit raw names h =
      let found : (empty? raw ≡ false)
          × (ltb limit (length raw) ≡ false)
          × (check_symbols allowed [] raw ≡ ok names) =
        ground arith in
      let (accepted, _) = check_symbols-Accepted [] raw names found.2 in
      (accepted, rw accepted.as_wanted (normalized_length raw found.0 found.1))

  -- Accepted intervals are the requested ones in their order; each is allowed, none stands twice,
  -- and there is at least one.
  pub validate_intervals-Accepted :
      (raw names : List Interval)
      → validate_intervals allowed raw ≡ ok names
      → Accepted allowed raw names × (1 ≤ length names)
  unfolding validate_intervals
  validate_intervals-Accepted raw names h =
      let found : (empty? raw ≡ false) × (check_interval_list allowed [] raw ≡ ok names) =
        ground arith in
      let (accepted, _) = check_interval_list-Accepted [] raw names found.1 in
      (accepted, rw accepted.as_wanted (length-pos raw found.0))
