-- ===== src/Chat/Parser.antt =====
-- internal/chat/parser.go: the text of a chat command, as an action and its arguments.
use crypto_price_alert.Base.{
  String, ◌==◌, string_eq, none, some, List, [], ◌∷◌, failure, errorf, Result, ok, err,
  if◌then◌else◌,
}
use crypto_price_alert.Base.Dict.{Dict, lookup}
use crypto_price_alert.Base.Text.{trim_space, to_lower, fields, trim_prefix, cut}
use crypto_price_alert.Chat.Command
use crypto_price_alert.Chat.Command.{CommandAction}

abbrev pub command_actions : Dict String CommandAction
command_actions =
    ("help", Command.help)
    ∷ ("configure", Command.configure)
    ∷ ("config", Command.configure)
    ∷ ("show", Command.show)
    ∷ ("enable", Command.enable)
    ∷ ("pause", Command.pause)
    ∷ ("test", Command.test)
    ∷ ("save", Command.save)
    ∷ ("cancel", Command.cancel)
    ∷ []

-- What stands before the first `@`.
unfoldable pub strip_bot_suffix : String → String
unfolding cut
strip_bot_suffix name = elim (cut 64 name) [ none ↦ name | some (before, after) ↦ before ]

-- The action of a name, with the words that follow it.
unfoldable pub action_of : String → List String → Result (CommandAction × List String)
unfolding lookup
action_of name arguments = elim (lookup name command_actions) [
  | none ↦ err (errorf "unknown command %q" (name ∷ []))
  | some action ↦ ok (action, arguments)
]

-- The words of the input; a leading `crypto-alert` is passed over.
unfoldable pub parse_fields : List String → Result (CommandAction × List String)
unfolding strip_bot_suffix action_of trim_prefix to_lower
parse_fields [] = err (failure "command is required")
parse_fields (first ∷ rest) =
    let name = strip_bot_suffix (trim_prefix (to_lower first) "/") in
    if name == "crypto-alert"
    then (elim rest [
      | [] ↦ ok (Command.help, [])
      | second ∷ more ↦ action_of (strip_bot_suffix (to_lower second)) more
    ])
    else action_of name rest

unfoldable pub parse_command : String → Result (CommandAction × List String)
unfolding parse_fields fields trim_space
parse_command input = parse_fields (fields (trim_space input))
