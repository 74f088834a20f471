-- ===== src/Chat/Slack/Blocks.antt =====
-- internal/chat/slack/blocks.go
pub mod Answers
use Prim.Native.String.{◌++◌ as ◌<>◌}
use crypto_price_alert.Base.{String, none, some, List, [], ◌∷◌, ◌++◌, map}
use crypto_price_alert.Domain.Interval.{Interval}
use crypto_price_alert.Domain.Provider.{MarketProvider}
use crypto_price_alert.Chat.Slack.Types.{Block, BlockElement}

abbrev pub text_button : String → String → String → BlockElement
text_button action_id text value = record {
  kind = "button";
  action_id = action_id;
  text = some (record { kind = "plain_text"; text = text });
  value = value;
  options = [];
  selected_option = none;
}

abbrev pub actions_block : List BlockElement → Block
actions_block elements = record {
  kind = "actions";
  text = none;
  elements = elements;
  accessory = none;
}

abbrev pub section_block : String → Block
section_block text = record {
  kind = "section";
  text = some (record { kind = "mrkdwn"; text = text });
  elements = [];
  accessory = none;
}

unfoldable pub configuration_blocks :
    String → List MarketProvider → List String → List Interval → List Block
configuration_blocks session_id providers symbols intervals =
    section_block "Select a market provider, symbols, and intervals, then save."
      ∷ map
          (λ value.
            actions_block (
              text_button "crypto_alert_provider" value (session_id <> "|provider|" <> value) ∷ []))
          providers
    ++ map
        (λ symbol.
          actions_block
            (text_button "crypto_alert_symbol" symbol (session_id <> "|symbol|" <> symbol) ∷ []))
        symbols
    ++ map
        (λ value.
          actions_block
            (text_button "crypto_alert_interval" value (session_id <> "|interval|" <> value) ∷ []))
        intervals
    ++ actions_block (
        text_button "crypto_alert_save" "Save" session_id
        ∷ text_button "crypto_alert_cancel" "Cancel" session_id
        ∷ [])
      ∷ []
