-- ===== src/Chat/Slack/Blocks/Answers.antt =====
-- Every control of internal/chat/slack/blocks.go has an answer.
use Prim.Native.Char.{Char}
use Prim.Native.String.{◌∷◌, ◌++◌}
use text.Mathlib.TextLemmas.{nil-append, cons-append, append_assoc}
use crypto_price_alert.Base.{
  String, true, false, ◌≡◌, string_eq, some, ok, List, map, All, All-append, arith, refl, ◌∙◌,
}
use crypto_price_alert.Base.Text.{has_code, split_three}
use crypto_price_alert.Base.Text.Splitting.{Lacks, cut-append, cut-none, split_three-join}
use crypto_price_alert.Domain.Interval.{Interval}
use crypto_price_alert.Domain.Provider.{MarketProvider}
use crypto_price_alert.Chat.Command
use crypto_price_alert.Chat.Command.{Command}
use crypto_price_alert.Chat.Session.{ConfigSession}
use crypto_price_alert.Chat.Slack.Types.{Block, BlockElement, BlockAction}
use crypto_price_alert.Chat.Slack.Blocks.{text_button, actions_block, configuration_blocks}
use crypto_price_alert.Chat.Slack.Adapter.{
  Adapter, provider_enabled, toggle_string, toggle_interval,
}
use crypto_price_alert.Chat.Slack.Controls.{choose, with_provider, use_control, end_control}

abbrev bar : Char
bar = "|"

-- The block action of a control that is used.
abbrev pub action_of : BlockElement → BlockAction
action_of element = record { action_id = element.action_id; value = element.value }

-- The label that the user reads.
abbrev Shows : BlockElement → String → Type 0
Shows element label = element.text ≡ some (record { kind = "plain_text"; text = label })

-- The value of a control is read back as the session, a kind and a choice.
abbrev ReadsBack : String → BlockElement → String → String → Type 0
ReadsBack session_id element kind choice =
    (has_code 124 element.value ≡ true)
    × (split_three 124 element.value ≡ some (session_id, kind, choice))

module _ {F W : Type 0} (a : Adapter F W) where
  -- The program answers a control by what its label says: a provider that is enabled is selected, a
  -- symbol or an interval is switched, or the chat service saves or cancels the session.
  pub data IsAnswered (session_id : String) (element : BlockElement) : Type 0 where
    picks_provider :
        (kind choice : String)
        → Shows element choice
        → ReadsBack session_id element kind choice
        → ((s : ConfigSession)
            → provider_enabled a choice ≡ true
            → choose a kind choice s ≡ ok (with_provider a choice s))
        → IsAnswered session_id element
    toggles_symbol :
        (kind choice : String)
        → Shows element choice
        → ReadsBack session_id element kind choice
        → ((s : ConfigSession)
            → choose a kind choice s
              ≡ ok (record s { selected_symbols = toggle_string s.selected_symbols choice }))
        → IsAnswered session_id element
    toggles_interval :
        (kind choice : String)
        → Shows element choice
        → ReadsBack session_id element kind choice
        → ((s : ConfigSession)
            → choose a kind choice s
              ≡ ok (record s { selected_intervals = toggle_interval s.selected_intervals choice }))
        → IsAnswered session_id element
    saves :
        Shows element "Save"
        → ((command : Command) (w : W)
            → (use_control a command (action_of element) w).1
              ≡ (a.commands.handle
                  (record command { arguments = List.◌∷◌ session_id List.[] })
                  w).1)
        → IsAnswered session_id element
    cancels :
        Shows element "Cancel"
        → ((command : Command) (w : W)
            → (use_control a command (action_of element) w).1
              ≡ (a.commands.handle
                  (record command {
                    arguments = List.◌∷◌ session_id List.[];
                    action = Command.cancel;
                  })
                  w).1)
        → IsAnswered session_id element

  abbrev pub AllAnswered : String → List Block → Type 0
  AllAnswered session_id blocks = All (λ block. All (IsAnswered session_id) block.elements) blocks

  chooses_provider :
      (choice : String) (s : ConfigSession)
      → provider_enabled a choice ≡ true
      → choose a "provider" choice s ≡ ok (with_provider a choice s)
  unfolding choose string_eq
  chooses_provider choice s enabled = rw enabled refl

  chooses_symbol :
      (choice : String) (s : ConfigSession)
      → choose a "symbol" choice s
        ≡ ok (record s { selected_symbols = toggle_string s.selected_symbols choice })
  unfolding choose string_eq
  chooses_symbol choice s = refl

  chooses_interval :
      (choice : String) (s : ConfigSession)
      → choose a "interval" choice s
        ≡ ok (record s { selected_intervals = toggle_interval s.selected_intervals choice })
  unfolding choose string_eq
  chooses_interval choice s = refl

bar-append : (s : String) → "|" ++ s ≡ bar ∷ s
bar-append s = rw (cons-append bar "" s, nil-append s) refl

barred : (kind choice : String) → ("|" ++ (kind ++ "|")) ++ choice ≡ bar ∷ (kind ++ (bar ∷ choice))
barred kind choice =
    append_assoc "|" (kind ++ "|") choice
    ∙ rw (append_assoc kind "|" choice, bar-append choice, bar-append (kind ++ (bar ∷ choice))) refl

module _ (session_id : String) (plain : Lacks 124 session_id) where
  value-ReadsBack :
      (action_id kind choice : String)
      → Lacks 124 kind
      → ReadsBack session_id
          (text_button action_id choice (session_id ++ (("|" ++ (kind ++ "|")) ++ choice)))
          kind
          choice
  unfolding has_code
  value-ReadsBack action_id kind choice lacks = (
    rw
        (
          barred kind choice,
          has_code,
          cut-append 124 session_id bar (kind ++ (bar ∷ choice)) plain refl,
        )
        refl,
    rw (barred kind choice, split_three-join 124 session_id kind choice bar plain lacks refl) refl,
  )

  plain_value : has_code 124 session_id ≡ false
  unfolding has_code
  plain_value = rw (has_code, cut-none 124 session_id plain) refl

  module _ {F W : Type 0} (a : Adapter F W) where
    -- One block for each value.
    rows-AllAnswered :
        (action_id kind : String)
        → ((choice : String)
            → IsAnswered a session_id
                (text_button action_id choice (session_id ++ (("|" ++ (kind ++ "|")) ++ choice))))
        → (values : List String)
        → AllAnswered a session_id (
            map
              (λ value. actions_block (
                List.◌∷◌
                  (text_button action_id value (session_id ++ (("|" ++ (kind ++ "|")) ++ value)))
                  List.[]))
              values)
    rows-AllAnswered action_id kind answered List.[] = tt
    rows-AllAnswered action_id kind answered (List.◌∷◌ value values) =
        ((answered value, tt), rows-AllAnswered action_id kind answered values)

    save-IsAnswered : IsAnswered a session_id (text_button "crypto_alert_save" "Save" session_id)
    unfolding use_control end_control string_eq
    save-IsAnswered = IsAnswered.saves refl (λ command w. rw plain_value (ground arith))

    cancel-IsAnswered :
        IsAnswered a session_id (text_button "crypto_alert_cancel" "Cancel" session_id)
    unfolding use_control end_control string_eq
    cancel-IsAnswered = IsAnswered.cancels refl (λ command w. rw plain_value (ground arith))

    pub configuration_blocks-AllAnswered :
        (providers : List MarketProvider) (symbols : List String) (intervals : List Interval)
        → AllAnswered a session_id (configuration_blocks session_id providers symbols intervals)
    unfolding configuration_blocks
    configuration_blocks-AllAnswered providers symbols intervals = (
      tt,
      All-append _ _ _
          (All-append _ _ _
            (All-append _ _ _
              (rows-AllAnswered "crypto_alert_provider" "provider"
                (λ c.
                  IsAnswered.picks_provider "provider" c refl
                    (value-ReadsBack "crypto_alert_provider" "provider" c (ground arith))
                    (chooses_provider a c))
                providers)
              (rows-AllAnswered "crypto_alert_symbol" "symbol"
                (λ c.
                  IsAnswered.toggles_symbol "symbol" c refl
                    (value-ReadsBack "crypto_alert_symbol" "symbol" c (ground arith))
                    (chooses_symbol a c))
                symbols))
            (rows-AllAnswered "crypto_alert_interval" "interval"
              (λ c.
                IsAnswered.toggles_interval "interval" c refl
                  (value-ReadsBack "crypto_alert_interval" "interval" c (ground arith))
                  (chooses_interval a c))
              intervals))
          ((save-IsAnswered, (cancel-IsAnswered, tt)), tt),
    )
