-- ===== src/Chat/Slack/Client.antt =====
-- internal/chat/slack/client.go. The HTTP client and the reader of JSON are parameters.
use Prim.Native.String.{◌++◌ as ◌<>◌}
use crypto_price_alert.Base.{
  String, Bool, false, ◌==◌, string_eq, not, ◌||◌, [], ◌∷◌, failure, errorf, wrapped, Result, ok,
  err, fail_if, ltb, leb, if◌then◌else◌,
}
use crypto_price_alert.Base.Text.{trim_space, trim_code, decimal}
use crypto_price_alert.Base.Action.{Action, pure, lift, ◌>>=◌, ◌>>◌}
use crypto_price_alert.Base.Dict.{Dict}
use crypto_price_alert.Chat.Adapter.{HttpClient, Request}
use crypto_price_alert.Chat.Slack.Types.{ApiResponse, ChannelInfo, Response}

-- What the client marshals: a `map[string]string`, or a response.
pub data Payload : Type 0 where
  texts : Dict String String → Payload
  response : Response → Payload

pub record ApiClient (W : Type 0) : Type 0 where
  pub token : String
  pub base_url : String
  pub http : HttpClient Payload W
  pub decode : String → Result ApiResponse

-- `NewAPIClient`
unfoldable pub new_api_client :
    {W : Type 0}
    → String
    → String
    → HttpClient Payload W
    → (String → Result ApiResponse)
    → Result (ApiClient W)
unfolding trim_space trim_code
new_api_client token base_url http decode =
    if trim_space token == ""
    then err (failure "Slack bot token is required")
    else ok (record {
      token = token;
      base_url =
          trim_code 47 (if trim_space base_url == "" then "https://slack.com/api" else base_url);
      http = http;
      decode = decode;
    })

abbrev json_type : String × String
json_type = ("Content-Type", "application/json")

module _ {W : Type 0} (c : ApiClient W) where
  abbrev bearer_token : String × String
  bearer_token = ("Authorization", "Bearer " <> c.token)

  -- `do`, which gives the whole of the body
  unfoldable pub exchange : Request → Action W String
  exchange request = do
    answer ← c.http.send request
    body ← lift answer.body
    lift (
        fail_if (ltb answer.status_code 200 || leb 300 answer.status_code)
          (errorf "Slack API status %d" (decimal answer.status_code ∷ [])))
    pure body

  -- What `do` does with a result to read.
  abbrev read_channel : String → Result ChannelInfo
  read_channel body = elim (c.decode body) [
    | err e ↦ err (wrapped "decode Slack API response: %w" e)
    | ok envelope ↦
        if not envelope.is_ok
        then err (errorf "Slack API: %s" (envelope.error ∷ []))
        else ok envelope.channel
  ]

  unfoldable pub call : String → Payload → Action W ChannelInfo
  unfolding exchange
  call method payload = do
    body ← lift (c.http.marshal payload)
    lift (c.http.new_request (c.base_url <> "/" <> method))
    answer ← exchange (record {
      url = c.base_url <> "/" <> method;
      headers = bearer_token ∷ json_type ∷ [];
      body = body;
    })
    lift (read_channel answer)

  unfoldable pub post_json : String → Payload → Bool → Action W Unit
  unfolding exchange
  post_json url payload bearer = do
    body ← lift (c.http.marshal payload)
    lift (c.http.new_request url)
    answer ← exchange (record {
      url = url;
      headers = if bearer then json_type ∷ bearer_token ∷ [] else json_type ∷ [];
      body = body;
    })
    pure tt

  unfoldable pub get_channel_info : String → Action W ChannelInfo
  unfolding call
  get_channel_info channel_id =
      call "conversations.info" (Payload.texts (("channel", channel_id) ∷ []))

  unfoldable pub respond : String → Response → Action W Unit
  unfolding post_json
  respond response_url answer = post_json response_url (Payload.response answer) false
