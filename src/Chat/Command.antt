-- ===== src/Chat/Command.antt =====
-- internal/chat/command.go
use crypto_price_alert.Base.{
  String, Bool, ◌==◌, string_eq, not, ◌||◌, List, [], ◌∷◌, failure, errorf, ok, err, Status,
  if◌then◌else◌,
}
use crypto_price_alert.Base.Text.{trim_space}
use crypto_price_alert.Domain.Target.{AlertTarget}

abbrev pub CommandAction : Type 0
CommandAction = String

abbrev pub help : CommandAction
help = "help"

abbrev pub configure : CommandAction
configure = "configure"

abbrev pub show : CommandAction
show = "show"

abbrev pub enable : CommandAction
enable = "enable"

abbrev pub pause : CommandAction
pause = "pause"

abbrev pub test : CommandAction
test = "test"

abbrev pub save : CommandAction
save = "save"

abbrev pub cancel : CommandAction
cancel = "cancel"

pub record CommandDefinition : Type 0 where
  pub action : CommandAction
  pub command : String
  pub description : String

abbrev pub public_command_definitions : List CommandDefinition
public_command_definitions =
    record { action = help; command = "help"; description = "Show available commands" }
    ∷ record {
      action = configure;
      command = "configure";
      description = "Configure symbols and intervals";
    }
    ∷ record { action = show; command = "show"; description = "Show current configuration" }
    ∷ record { action = enable; command = "enable"; description = "Enable alerts" }
    ∷ record { action = pause; command = "pause"; description = "Pause alerts" }
    ∷ record { action = test; command = "test"; description = "Send a test alert" }
    ∷ []

unfoldable pub is_mutation : CommandAction → Bool
is_mutation a = a == configure || a == enable || a == pause || a == test || a == save || a == cancel

pub record Command : Type 0 where
  pub target : AlertTarget
  pub actor_user_id : String
  pub action : CommandAction
  pub arguments : List String
  pub event_id : String

pub record AuthorizationRequest : Type 0 where
  pub target : AlertTarget
  pub actor_user_id : String
  pub action : CommandAction

-- `CreatorAuthorizer.Authorize`
unfoldable pub authorize_creator : AuthorizationRequest → Status
authorize_creator r =
    if trim_space r.actor_user_id == ""
    then err (failure "actor identity is required")
    else if r.target.creator_user_id == "" || not (r.actor_user_id == r.target.creator_user_id)
    then err (errorf "only the chat creator can perform %s" (r.action ∷ []))
    else ok tt
