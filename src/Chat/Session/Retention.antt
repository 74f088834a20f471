-- ===== src/Chat/Session/Retention.antt =====
-- What the session store of internal/chat/session.go keeps.
use crypto_price_alert.Base.{
  ◌≡◌, String, false, ◌==◌, nat_eq, string_eq, failure, ok, err, ltb, if◌then◌else◌, arith, ok?,
}
use crypto_price_alert.Base.Dict.{lookup-insert, lookup-erase}
use crypto_price_alert.Domain.Interval.{Time}
use crypto_price_alert.Chat.Session.{
  ConfigSession, MemorySessionStore, validate, create, get, update,
}

-- What a valid session stays until it expires.
validate_later :
    (s : ConfigSession) (t t' : Time)
    → validate s t ≡ ok tt
    → validate s t'
      ≡ (if ltb t' s.expires_at then ok tt else err (failure "configuration session expired"))
unfolding validate
validate_later s t t' h = ground arith

-- After a session has been created, reading its identifier gives this session, or an error once it
-- has expired, and reading another identifier gives what it gave before.
pub get-create :
    (t t' : Time) (session : ConfigSession) (store : MemorySessionStore) (j : String)
    → (create t session store).0 ≡ ok tt
    → (get t' j (create t session store).1).0 ≡ (
        if session.session_id == j
        then (if ltb t' session.expires_at
            then ok session
            else err (failure "configuration session expired"))
        else (get t' j store).0)
unfolding create get
get-create t t' session store j h =
    ground (
      arith,
      validate_later session t t',
      lookup-insert session.session_id j session store.sessions,
    )

-- After a session has been updated, reading its identifier gives the new session, or an error once
-- it has expired, and reading another identifier gives what it gave before.
get-update :
    (t t' : Time) (session : ConfigSession) (store : MemorySessionStore) (j : String)
    → (update t session store).0 ≡ ok tt
    → (get t' j (update t session store).1).0 ≡ (
        if session.session_id == j
        then (if ltb t' session.expires_at
            then ok session
            else err (failure "configuration session expired"))
        else (get t' j store).0)
unfolding update get
get-update t t' session store j h =
    ground (
      arith,
      validate_later session t t',
      lookup-insert session.session_id j session store.sessions,
    )

-- A session that could not be read cannot be read afterwards, at whatever time.
get-get_expired :
    (t t' : Time) (id : String) (store : MemorySessionStore)
    → ok? (get t id store).0 ≡ false
    → ok? (get t' id (get t id store).1).0 ≡ false
unfolding get
get-get_expired t t' id store h = ground (arith, lookup-erase id id store.sessions)
