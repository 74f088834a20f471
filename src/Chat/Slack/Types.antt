-- ===== src/Chat/Slack/Types.antt =====
-- internal/chat/slack/types.go
use crypto_price_alert.Base.{String, Bool, Option, List}

pub record SlashCommand : Type 0 where
  pub token : String
  pub team_id : String
  pub api_app_id : String
  pub channel_id : String
  pub channel_name : String
  pub user_id : String
  pub user_name : String
  pub command : String
  pub text : String
  pub response_url : String
  pub trigger_id : String

pub record SlackTeam : Type 0 where
  pub id : String

pub record SlackUser : Type 0 where
  pub id : String

pub record SlackChannel : Type 0 where
  pub id : String
  pub name : String

pub record BlockAction : Type 0 where
  pub action_id : String
  pub value : String

pub record Interaction : Type 0 where
  pub kind : String
  pub api_app_id : String
  pub team : SlackTeam
  pub user : SlackUser
  pub channel : SlackChannel
  pub actions : List BlockAction
  pub response_url : String
  pub trigger_id : String

pub record ChannelInfo : Type 0 where
  pub id : String
  pub creator : String

-- `apiResponse` of a channel
pub record ApiResponse : Type 0 where
  pub is_ok : Bool
  pub error : String
  pub channel : ChannelInfo

pub record TextObject : Type 0 where
  pub kind : String
  pub text : String

-- `Option`
pub record BlockOption : Type 0 where
  pub text : TextObject
  pub value : String

pub record BlockElement : Type 0 where
  pub kind : String
  pub action_id : String
  pub text : Option TextObject
  pub value : String
  pub options : List BlockOption
  pub selected_option : Option BlockOption

pub record Block : Type 0 where
  pub kind : String
  pub text : Option TextObject
  pub elements : List BlockElement
  pub accessory : Option BlockElement

pub record Response : Type 0 where
  pub response_type : String
  pub text : String
  pub blocks : List Block
