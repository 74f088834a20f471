-- ===== src/Tests/Chats.antt =====
-- Chat commands over the session store in memory, and the theorems of the chat there.
use mathlib.Core.Bool.{false≢true}
use crypto_price_alert.Base.{
  ap, ◌≡◌, ◌≢◌, refl, String, true, false, ◌==◌, string_eq, nat_eq, [], ◌∷◌, failure, ok, err, ok?,
  ltb, if◌then◌else◌,
}
use crypto_price_alert.Base.Dict.{lookup}
use crypto_price_alert.Chat.Command
use crypto_price_alert.Chat.Command.{Command, authorize_creator}
use crypto_price_alert.Chat.Session
use crypto_price_alert.Chat.Session.{ConfigSession, MemorySessionStore, empty_store}
use crypto_price_alert.Chat.Session.Retention.{get-create}
use crypto_price_alert.Chat.Service.{Service, save_session, handle, owns}
use crypto_price_alert.Chat.Service.Authority.{handle-outsider, Saved, save_session-Saved}
use crypto_price_alert.Tests.World.{target, config}

abbrev pub session : ConfigSession
session = record {
  session_id = "s";
  target_id = "a";
  actor_user_id = "7";
  base_config_version = 0;
  selected_provider = "binance";
  selected_symbols = "BTC" ∷ [];
  selected_intervals = "1h" ∷ [];
  expires_at = 100;
}

abbrev stale_session : ConfigSession
stale_session = record session { base_config_version = 1 }

abbrev store : MemorySessionStore
store = record { sessions = ("s", session) ∷ [] }

-- The clock stands at 5.
abbrev chat : Service MemorySessionStore
chat = record {
  configuration = record {
    get_config = λ id w. (ok (config id), w);
    get_or_create_config = λ id by w. (ok (config id), w);
    replace_config = λ id p xs is on by v w. (ok (config id), w);
    enable = λ id by v w. (ok (config id), w);
    pause = λ id by v w. (ok (config id), w);
  };
  authorize = authorize_creator;
  sessions = record {
    create = Session.create 5;
    get = Session.get 5;
    update = Session.update 5;
    delete = Session.delete;
  };
  session_ttl = 100;
  host = record { new_id = λ w. ("id", w); now = λ w. (5, w); error_text = λ e. "error" };
}

abbrev command : String → String → Command
command actor action = record {
  target = target "a";
  actor_user_id = actor;
  action = action;
  arguments = "s" ∷ [];
  event_id = "e";
}

saves : Command.is_mutation "save" ≡ true
unfolding Command.is_mutation string_eq
saves = refl

outsider : ◌≢◌ {A = String} "8" "7"
unfolding string_eq
outsider p = false≢true (ap (λ s. ◌==◌ {A = String} s "7") p)

handle-outsider_example :
    (ok? (handle chat (command "8" "save") store).0 ≡ false)
    × ((handle chat (command "8" "save") store).1 ≡ store)
handle-outsider_example = handle-outsider chat refl (command "8" "save") store saves outsider

found : (Session.get 5 "s" store).0 ≡ ok session
unfolding Session.get Session.validate lookup string_eq nat_eq
found = refl

saved : (save_session chat (command "7" "save") store).0 ≡ ok tt
unfolding save_session owns Session.get Session.validate lookup Session.delete string_eq nat_eq
saved = refl

save_session-Saved_example : Saved chat (command "7" "save") store
save_session-Saved_example = save_session-Saved chat (command "7" "save") store saved

created : (Session.create 5 session empty_store).0 ≡ ok tt
unfolding Session.create Session.validate lookup string_eq nat_eq
created = refl

get-create_example : (Session.get 100 "s" (Session.create 5 session empty_store).1).0 ≡ (
    if session.session_id == "s"
    then (if ltb 100 100 then ok session else err (failure "configuration session expired"))
    else (Session.get 100 "s" empty_store).0)
get-create_example = get-create 5 100 session empty_store "s" created

updated : (Session.update 5 stale_session store).0 ≡ ok tt
unfolding Session.update Session.validate lookup string_eq nat_eq
updated = refl

expired : ok? (Session.get 100 "s" store).0 ≡ false
unfolding Session.get Session.validate lookup string_eq nat_eq
expired = refl
