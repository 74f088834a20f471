-- ===== src/Chat/Telegram/Callback/RoundTrip.antt =====
-- What a button of internal/chat/telegram carries is read back.
use Prim.Native.Char.{Char}
use Prim.Native.String.{[], ◌∷◌, ◌++◌}
use text.Mathlib.TextLemmas.{nil-append, cons-append, append_assoc}
use crypto_price_alert.Base.{String, ◌≡◌, ◌≢◌, refl, ok, arith, string_eq, ap, ◌∙◌}
use crypto_price_alert.Base.Text.Splitting.{Lacks, split_three-join}
use crypto_price_alert.Chat.Telegram.Callback.{callback_data, parse_callback}

abbrev colon : Char
colon = ":"

pub colon-append : (s : String) → ":" ++ s ≡ colon ∷ s
colon-append s = cons-append colon [] s ∙ ap (λ t. colon ∷ t) (nil-append s)

callback_data-cons :
    (id action : String)
    → callback_data id action ≡ "crypto-alert" ++ (colon ∷ (id ++ (colon ∷ action)))
unfolding callback_data
callback_data-cons id action =
    append_assoc "crypto-alert" ":" (id ++ (":" ++ action))
    ∙ rw (colon-append action, colon-append (id ++ (colon ∷ action))) refl

-- What `parse_callback` gives is what `callback_data` was made of, if the identifier is neither empty
-- nor holds a colon and the action is not empty.
pub parse_callback-callback_data :
    (id action : String)
    → Lacks 58 id
    → id ≢ ""
    → action ≢ ""
    → parse_callback (callback_data id action) ≡ ok (id, action)
unfolding parse_callback
parse_callback-callback_data id action h n m =
    rw
      (
        callback_data-cons id action,
        parse_callback,
        split_three-join 58 "crypto-alert" id action colon (ground arith) h refl,
      )
      (ground arith)
