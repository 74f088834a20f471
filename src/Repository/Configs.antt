-- ===== src/Repository/Configs.antt =====
-- The alert configurations of internal/repository/postgres.go and chat_repository.go.
pub mod Versions
use Prim.Native.String.{◌++◌ as ◌<>◌}
use crypto_price_alert.Base.{
  ℕ, ◌+◌, String, Bool, ◌==◌, string_eq, nat_eq, not, List, [], ◌∷◌, errorf, wrapped, failure,
  alert_config_not_found, ok, err, fail_if, is_record_not_found, wrap64, if◌then◌else◌,
}
use crypto_price_alert.Base.Action.{Action, pure, lift, ◌>>=◌, ◌>>◌}
use crypto_price_alert.Base.Text.{decimal}
use crypto_price_alert.Domain.Interval.{Interval, Time}
use crypto_price_alert.Domain.AlertConfig
use crypto_price_alert.Domain.AlertConfig.{AlertConfig}
use crypto_price_alert.Repository.Ports.{AlertConfigRepository}
use crypto_price_alert.Repository.Tables.{Tables, ConfigRow}
use crypto_price_alert.Repository.Jobs.{wrap}

-- `toAlertConfigDomain`
unfoldable pub config_of : ConfigRow → List String → List Interval → AlertConfig
config_of row symbols intervals = record {
  target_id = row.target_id;
  market_provider = row.market_provider;
  enabled = row.enabled;
  symbols = symbols;
  intervals = intervals;
  version = row.version;
  updated_by = row.updated_by;
  updated_at = row.updated_at;
}

-- The row of a configuration, under an identifier, a version and a time.
abbrev pub row_of : String → ℕ → Time → AlertConfig → ConfigRow
row_of id version updated_at config = record {
  target_id = id;
  market_provider = config.market_provider;
  enabled = config.enabled;
  version = version;
  updated_by = config.updated_by;
  updated_at = updated_at;
}

module _ {W : Type 0} (t : Tables W) where
  -- The two loops of `insertConfigChildren`.
  unfoldable pub insert_symbols : String → List String → Action W Unit
  insert_symbols id [] = pure tt
  insert_symbols id (symbol ∷ rest) =
      let others = insert_symbols id rest in t.insert_symbol id symbol >> others

  unfoldable pub insert_intervals : String → List Interval → Action W Unit
  insert_intervals id [] = pure tt
  insert_intervals id (interval ∷ rest) =
      let others = insert_intervals id rest in t.insert_interval id interval >> others

  unfoldable pub insert_config_children : String → AlertConfig → Action W Unit
  unfolding insert_symbols insert_intervals
  insert_config_children id config = do
    insert_symbols id config.symbols
    insert_intervals id config.intervals

  -- The row of a new configuration; an update time that is not set is the present.
  unfoldable pub new_row : String → AlertConfig → Action W ConfigRow
  new_row id config w =
      let (now, w1) = t.now w in
      if config.updated_at == 0
      then (ok (row_of id config.version now config), w1)
      else (ok (row_of id config.version config.updated_at config), w)

  unfoldable pub create_alert_config : AlertConfig → Action W Unit
  unfolding new_row insert_config_children
  create_alert_config config = do
    valid ← wrap "validate alert config: %w" (lift (AlertConfig.validate config))
    id ← wrap "parse target ID: %w" (lift (t.parse_uuid config.target_id))
    row ← new_row id config
    wrap "create alert config: %w"
        (t.transaction (t.insert_config row >> insert_config_children id config))

  -- The error of a configuration that is not there is one that the callers tell apart.
  unfoldable pub find_row : String → String → Action W ConfigRow
  unfolding is_record_not_found
  find_row id target_id w =
      let (r, w1) = t.find_config id w in
      elim r [
        | ok row ↦ (ok row, w1)
        | err e ↦
            if is_record_not_found e
            then (err (wrapped ("%w: " <> target_id) alert_config_not_found), w1)
            else (err e, w1)
      ]

  unfoldable pub get_alert_config : String → Action W AlertConfig
  unfolding find_row config_of
  get_alert_config target_id = do
    id ← wrap "parse target ID: %w" (lift (t.parse_uuid target_id))
    row ← find_row id target_id
    symbols ← wrap "load alert symbols: %w" (t.symbols_of id)
    intervals ← wrap "load alert intervals: %w" (t.intervals_of id)
    pure (config_of row symbols intervals)

  -- The statement that writes the row at the expected version: it must change one row.
  unfoldable pub update_row : String → AlertConfig → ℕ → ℕ → Time → Action W Unit
  update_row id config expected current now = do
    affected ← t.update_config id expected (row_of id (wrap64 (current + 1)) now config)
    lift (fail_if (not (affected == 1)) (failure "alert config version conflict"))

  unfoldable pub rewrite_children : String → AlertConfig → Action W Unit
  unfolding insert_config_children
  rewrite_children id config = do
    t.delete_symbols id
    t.delete_intervals id
    insert_config_children id config

  -- The statements from the update on, at the version that was read.
  unfoldable pub store : String → AlertConfig → ℕ → ℕ → Action W AlertConfig
  unfolding update_row rewrite_children
  store id config expected current w =
      let (now, w1) = t.now w in
      (do
        update_row id config expected current now
        rewrite_children id config
        pure (record config { version = wrap64 (current + 1); updated_at = now }))
        w1

  -- The function of the transaction of `ReplaceAlertConfig`.
  unfoldable pub replacement : String → AlertConfig → ℕ → Action W AlertConfig
  unfolding store
  replacement id config expected = do
    current ← t.find_config id
    lift (
        fail_if (not (current.version == expected)) (
          errorf "alert config version conflict: expected %d, got %d"
            (decimal expected ∷ decimal current.version ∷ [])))
    store id config expected current.version

  unfoldable pub replace_alert_config : AlertConfig → ℕ → Action W AlertConfig
  unfolding replacement
  replace_alert_config config expected = do
    valid ← wrap "validate alert config: %w" (lift (AlertConfig.validate config))
    id ← wrap "parse target ID: %w" (lift (t.parse_uuid config.target_id))
    wrap "replace alert config: %w" (t.transaction (replacement id config expected))

  unfoldable pub set_alert_config_enabled : String → Bool → String → ℕ → Action W AlertConfig
  unfolding get_alert_config replace_alert_config
  set_alert_config_enabled target_id enabled updated_by expected = do
    config ← get_alert_config target_id
    replace_alert_config (record config { enabled = enabled; updated_by = updated_by }) expected

  unfoldable pub alert_config_repository : AlertConfigRepository W
  unfolding create_alert_config get_alert_config replace_alert_config set_alert_config_enabled
  alert_config_repository = record {
    create_alert_config = create_alert_config;
    get_alert_config = get_alert_config;
    replace_alert_config = replace_alert_config;
    set_alert_config_enabled = set_alert_config_enabled;
  }
