-- ===== src/Chat/Service/Authority.antt =====
-- Who may do what: the guards of internal/chat/service.go.
use crypto_price_alert.Base.{
  ◌≡◌, ◌≢◌, String, true, false, ◌==◌, nat_eq, string_eq, not, ok, ok?, arith, Result-cases, inl,
  inr, ◌&&◌, List, [], ◌∷◌,
}
use crypto_price_alert.Base.Text.{trim_space}
use crypto_price_alert.Chat.Command.{Command, AuthorizationRequest, is_mutation, authorize_creator}
use crypto_price_alert.Domain.AlertConfig.{AlertConfig}
use crypto_price_alert.Chat.Session.{ConfigSession}
use crypto_price_alert.Chat.Service.{
  Service, owns, handle, save_session, update_session, only_argument,
}

-- The creator authorizer lets a request pass exactly when its actor is not blank and is the
-- recorded creator of the target.
authorize_creator_iff :
    (r : AuthorizationRequest)
    → ok? (authorize_creator r) ≡ (
        not (trim_space r.actor_user_id == "")
        && (not (r.target.creator_user_id == "") && r.actor_user_id == r.target.creator_user_id))
unfolding authorize_creator
authorize_creator_iff r = ground arith

module _ {W : Type 0} (s : Service W) (creators : s.authorize ≡ authorize_creator) where
  -- With the creator authorizer, a chat command that is a mutation, from an actor who is not the
  -- creator of the target, fails and leaves the whole world as it was.
  pub handle-outsider :
      (command : Command) (w : W)
      → is_mutation command.action ≡ true
      → command.actor_user_id ≢ command.target.creator_user_id
      → (ok? (handle s command w).0 ≡ false) × ((handle s command w).1 ≡ w)
  unfolding handle authorize_creator
  handle-outsider command w mutation outsider = rw (mutation, creators) (ground arith)

  -- With the creator authorizer, the update of a session by an actor who is not the creator of the
  -- target fails and leaves the whole world as it was.
  update_session-outsider :
      (command : Command) (provider : String) (symbols intervals : List String) (w : W)
      → command.actor_user_id ≢ command.target.creator_user_id
      → (ok? (update_session s command provider symbols intervals w).0 ≡ false)
        × ((update_session s command provider symbols intervals w).1 ≡ w)
  unfolding update_session authorize_creator
  update_session-outsider command provider symbols intervals w outsider = rw creators (ground arith)

only_argument-ok :
    (message : String) (arguments : List String) (id : String)
    → only_argument message arguments ≡ ok id
    → arguments ≡ id ∷ []
only_argument-ok message (x ∷ []) id h = ground arith
only_argument-ok message _ id h = absurd (ground arith)

-- What a save went through.
pub record Saved {W : Type 0} (s : Service W) (command : Command) (w : W) : Type 0 where
  pub id : String
  pub session : ConfigSession
  pub config : AlertConfig
  pub named : command.arguments ≡ id ∷ []
  pub found : (s.sessions.get id w).0 ≡ ok session
  pub own : owns session command ≡ true
  pub of_target : session.target_id ≡ command.target.id
  pub of_actor : session.actor_user_id ≡ command.actor_user_id
  pub current : (s.configuration.get_config session.target_id (s.sessions.get id w).1).0 ≡ ok config
  pub fresh : config.version ≡ session.base_config_version
  pub replaced :
      ok?
        (s.configuration.replace_config session.target_id session.selected_provider
          session.selected_symbols session.selected_intervals config.enabled command.actor_user_id
          session.base_config_version
          (s.configuration.get_config session.target_id (s.sessions.get id w).1).1).0
      ≡ true

-- A save that succeeds had exactly one argument, which names a readable session of the same actor
-- and target; the stored configuration had the version that the session began with; and the
-- replacement of the configuration by the selection of the session, at that version, succeeded.
pub save_session-Saved :
    {W : Type 0} (s : Service W) (command : Command) (w : W)
    → (save_session s command w).0 ≡ ok tt
    → Saved s command w
unfolding save_session owns
save_session-Saved s command w h =
    elim (Result-cases (only_argument "save requires a session ID" command.arguments)) [
      | inr (error, a) ↦ absurd (ground arith)
      | inl (id, a) ↦ elim (Result-cases (s.sessions.get id w).0) [
        | inr (error, f) ↦ absurd (ground arith)
        | inl (session, f) ↦
            elim (Result-cases
              (s.configuration.get_config session.target_id (s.sessions.get id w).1).0) [
                | inr (error, c) ↦ absurd (ground arith)
                | inl (config, c) ↦ record {
                  id = id;
                  session = session;
                  config = config;
                  named = only_argument-ok _ command.arguments id a;
                  found = f;
                  own = ground arith;
                  of_target = ground arith;
                  of_actor = ground arith;
                  current = c;
                  fresh = ground arith;
                  replaced = ground arith;
                }
              ]
      ]
    ]
