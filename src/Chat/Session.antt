-- ===== src/Chat/Session.antt =====
-- internal/chat/session.go: the configuration sessions, and the store that keeps them in memory. The
-- time of each call is an argument; the mutex makes the calls follow one another.
pub mod Retention
use crypto_price_alert.Base.{
  ℕ, ◌+◌, String, ◌==◌, nat_eq, string_eq, not, ◌||◌, none, some, List, failure, Result, ok, err,
  Status, fail_if, ◌>>◌, ltb, if◌then◌else◌,
}
use crypto_price_alert.Base.Dict
use crypto_price_alert.Base.Dict.{Dict, has}
use crypto_price_alert.Domain.Interval.{Interval, Time, Duration}
use crypto_price_alert.Domain.Provider.{MarketProvider}
use crypto_price_alert.Domain.AlertConfig.{AlertConfig}

pub record ConfigSession : Type 0 where
  pub session_id : String
  pub target_id : String
  pub actor_user_id : String
  pub base_config_version : ℕ
  pub selected_provider : MarketProvider
  pub selected_symbols : List String
  pub selected_intervals : List Interval
  pub expires_at : Time

unfoldable pub validate : ConfigSession → Time → Status
validate s now = do
  fail_if (s.session_id == "" || s.target_id == "" || s.actor_user_id == "" || s.expires_at == 0)
      (failure "invalid configuration session")
  fail_if (not (ltb now s.expires_at)) (failure "configuration session expired")

-- `MemorySessionStore`; the copies of `cloneSession` are the values themselves.
pub record MemorySessionStore : Type 0 where
  pub sessions : Dict String ConfigSession

abbrev pub empty_store : MemorySessionStore
empty_store = record { sessions = List.[] }

unfoldable pub create : Time → ConfigSession → MemorySessionStore → Status × MemorySessionStore
create now session store = elim (validate session now) [
  | err e ↦ (err e, store)
  | ok valid ↦
      if has session.session_id store.sessions
      then (err (failure "session already exists"), store)
      else (ok tt, record { sessions = Dict.insert session.session_id session store.sessions })
]

unfoldable pub get : Time → String → MemorySessionStore → Result ConfigSession × MemorySessionStore
get now id store = elim (Dict.lookup id store.sessions) [
  | none ↦ (err (failure "session not found"), store)
  | some session ↦ elim (validate session now) [
    | err e ↦ (err e, record { sessions = Dict.erase id store.sessions })
    | ok valid ↦ (ok session, store)
  ]
]

unfoldable pub update : Time → ConfigSession → MemorySessionStore → Status × MemorySessionStore
update now session store = elim (validate session now) [
  | err e ↦ (err e, store)
  | ok valid ↦
      if has session.session_id store.sessions
      then (ok tt, record { sessions = Dict.insert session.session_id session store.sessions })
      else (err (failure "session not found"), store)
]

unfoldable pub delete : String → MemorySessionStore → Status × MemorySessionStore
delete id store =
    if has id store.sessions
    then (ok tt, record { sessions = Dict.erase id store.sessions })
    else (err (failure "session not found"), store)

-- `NewConfigSession`; a lifetime that is not positive is 0 here.
unfoldable pub new_config_session :
    String → Time → String → String → AlertConfig → Duration → Result ConfigSession
new_config_session id now target_id actor_user_id config ttl =
    if ttl == 0
    then err (failure "session ttl must be positive")
    else ok (record {
      session_id = id;
      target_id = target_id;
      actor_user_id = actor_user_id;
      base_config_version = config.version;
      selected_provider = config.market_provider;
      selected_symbols = config.symbols;
      selected_intervals = config.intervals;
      expires_at = now + ttl;
    })
