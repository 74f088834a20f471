-- ===== src/Repository/Configs/Versions.antt =====
-- The version of an alert configuration in internal/repository/postgres.go: a replacement needs the
-- version that is stored, and moves it on by one.
use crypto_price_alert.Base.{
  ℕ, ◌+◌, String, false, ◌≡◌, ◌≢◌, refl, nat_eq, string_eq, Error, ok, err, ok?, arith,
  Result-cases, inl, inr, wrap64,
}
use crypto_price_alert.Base.Action.{Action}
use crypto_price_alert.Domain.AlertConfig
use crypto_price_alert.Domain.AlertConfig.{AlertConfig}
use crypto_price_alert.Repository.Tables.{Tables, ConfigRow}
use crypto_price_alert.Repository.Configs.{
  replacement, replace_alert_config, store, update_row, rewrite_children,
}

-- What the theorems rely on in a transaction: when its function fails, it fails and the tables keep what
-- they held; when it succeeds, its function has succeeded with the same result.
pub record Transactional {W S : Type 0} (t : Tables W) (stored : W → S) : Type 1 where
  pub rolled_back :
      {A : Type 0} (m : Action W A) (w : W) (error : Error)
      → (m w).0 ≡ err error
      → ((t.transaction m w).0 ≡ err error) × (stored (t.transaction m w).1 ≡ stored w)
  pub committed :
      {A : Type 0} (m : Action W A) (w : W) (a : A) → (t.transaction m w).0 ≡ ok a → (m w).0 ≡ ok a

module _ {W : Type 0} (t : Tables W) where
  -- What a replacement that succeeded has found and what it returns.
  pub record Replaced (config : AlertConfig) (expected : ℕ) (w : W) (result : AlertConfig)
      : Type 0 where
    pub id : String
    pub row : ConfigRow
    pub valid : AlertConfig.validate config ≡ ok tt
    pub parsed : t.parse_uuid config.target_id ≡ ok id
    pub found : (t.find_config id w).0 ≡ ok row
    pub current : row.version ≡ expected
    pub next : result.version ≡ wrap64 (expected + 1)
    pub as_asked :
        result ≡ record config { version = result.version; updated_at = result.updated_at }

module _ {W S : Type 0} (t : Tables W) (stored : W → S) (lawful : Transactional t stored) where
  stale_version :
      (config : AlertConfig) (expected : ℕ) (id : String) (row : ConfigRow) (w : W)
      → (t.find_config id w).0 ≡ ok row
      → row.version ≢ expected
      → (error : Error) × ((replacement t id config expected w).0 ≡ err error)
  unfolding replacement
  stale_version config expected id row w found stale =
      elim (Result-cases (replacement t id config expected w).0) [
        | inr failed ↦ failed
        | inl (result, r) ↦ absurd (ground arith)
      ]

  -- Over a database whose transactions roll back on an error, a replacement of a valid
  -- configuration, whose target has a well-formed identifier and a stored row, at a version that is
  -- not that of the row fails, and the tables keep what they held.
  pub replace_alert_config-conflict :
      (config : AlertConfig) (expected : ℕ) (id : String) (row : ConfigRow) (w : W)
      → AlertConfig.validate config ≡ ok tt
      → t.parse_uuid config.target_id ≡ ok id
      → (t.find_config id w).0 ≡ ok row
      → row.version ≢ expected
      → (ok? (replace_alert_config t config expected w).0 ≡ false)
        × (stored (replace_alert_config t config expected w).1 ≡ stored w)
  unfolding replace_alert_config
  replace_alert_config-conflict config expected id row w valid parsed found stale =
      let (error, conflict) = stale_version config expected id row w found stale in
      let (fails, kept) = lawful.rolled_back (replacement t id config expected) w error conflict in
      rw (valid, parsed, fails, replace_alert_config) (refl, kept)

  store-result :
      (id : String) (config : AlertConfig) (expected current : ℕ) (w : W) (result : AlertConfig)
      → (store t id config expected current w).0 ≡ ok result
      → (result.version ≡ wrap64 (current + 1))
        × (result ≡ record config { version = result.version; updated_at = result.updated_at })
  unfolding store
  store-result id config expected current w result h =
      let (now, w1) = t.now w in
      elim (Result-cases (update_row t id config expected current now w1).0) [
        | inr (error, u) ↦ absurd (ground arith)
        | inl (done, u) ↦
            elim (Result-cases
              (rewrite_children t id config (update_row t id config expected current now w1).1).0) [
                | inr (error, c) ↦ absurd (ground arith)
                | inl (all, c) ↦
                    let built : record config { version = wrap64 (current + 1); updated_at = now }
                        ≡ result =
                      ground arith in
                    rw⁻¹ built (refl, refl)
              ]
      ]

  -- Over a database whose transactions succeed only when their function does, a replacement that
  -- succeeds was of a valid configuration, has found a row of the expected version, and returns the
  -- configuration as it was asked for, with the next version (as an int64).
  pub replace_alert_config-Replaced :
      (config : AlertConfig) (expected : ℕ) (w : W) (result : AlertConfig)
      → (replace_alert_config t config expected w).0 ≡ ok result
      → Replaced t config expected w result
  unfolding replace_alert_config replacement
  replace_alert_config-Replaced config expected w result h =
      elim (Result-cases (AlertConfig.validate config)) [
        | inr (error, v) ↦ absurd (ground arith)
        | inl (valid, v) ↦ elim (Result-cases (t.parse_uuid config.target_id)) [
          | inr (error, p) ↦ absurd (ground arith)
          | inl (id, p) ↦
              (let m = replacement t id config expected in
                let inner : (m w).0 ≡ ok result = lawful.committed m w result (ground arith) in
                elim (Result-cases (t.find_config id w).0) [
                  | inr (error, f) ↦ absurd (ground arith)
                  | inl (row, f) ↦
                      (let same : row.version ≡ expected = ground arith in
                        let (next, asked) =
                          store-result id config expected row.version (t.find_config id w).1 result
                            (ground arith) in
                        record {
                          id = id;
                          row = row;
                          valid = rw v refl;
                          parsed = p;
                          found = f;
                          current = same;
                          next = rw (next, same) refl;
                          as_asked = asked;
                        })
                ])
        ]
      ]
