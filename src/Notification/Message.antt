-- ===== src/Notification/Message.antt =====
-- internal/notification/message.go: the text of an alert.
use Prim.Native.String.{◌++◌ as ◌<>◌}
use crypto_price_alert.Base.{
  String, ◌==◌, string_eq, Option, none, some, List, [], ◌∷◌, failure, Result, ok, err, wrapped,
  ◌>>=◌, if◌then◌else◌,
}
use crypto_price_alert.Base.Text.{string_lt, trim_code, pad_right, join}
use crypto_price_alert.Domain.Location.{Location}
use crypto_price_alert.Domain.Period
use crypto_price_alert.Domain.Period.{Period, Message}
use crypto_price_alert.Domain.Candle.{Floats, PriceChange}

-- Of an unavailable result the program sets the symbol alone.
pub data PriceResult (F : Type 0) : Type 0 where
  priced : PriceChange F → PriceResult F
  unavailable : String → PriceResult F

module _ {F : Type 0} where
  -- `result.Change.Symbol`
  abbrev pub symbol_of : PriceResult F → String
  symbol_of (priced change) = change.symbol
  symbol_of (unavailable symbol) = symbol

  -- `sort.SliceStable` by the symbol
  unfoldable pub insert_by_symbol : PriceResult F → List (PriceResult F) → List (PriceResult F)
  insert_by_symbol r [] = r ∷ []
  insert_by_symbol r (x ∷ xs) =
      if string_lt (symbol_of x) (symbol_of r) then x ∷ insert_by_symbol r xs else r ∷ x ∷ xs

  unfoldable pub sort_by_symbol : List (PriceResult F) → List (PriceResult F)
  unfolding insert_by_symbol
  sort_by_symbol [] = []
  sort_by_symbol (r ∷ rs) = insert_by_symbol r (sort_by_symbol rs)

  module _ (fl : Floats F) where
    unfoldable pub format_price : F → String
    format_price value =
        if fl.le fl.thousand value
        then fl.fixed 2 value
        else if fl.le fl.one_f value
        then fl.fixed 4 value
        else fl.fixed 8 value

    unfoldable pub format_volume : F → String
    unfolding trim_code
    format_volume value = trim_code 46 (trim_code 48 (fl.fixed 5 value))

    -- The line of one result.
    unfoldable pub line : PriceResult F → String
    unfolding format_price format_volume pad_right
    line (unavailable symbol) = symbol <> "   unavailable ⚠\u{fe0f}"
    line (priced change) =
        pad_right 8 change.symbol
        <> " $"
        <> format_price change.close
        <> " "
        <> fl.signed change.change_pct
        <> "% "
        <> (if fl.lt change.change_pct fl.zero_f then "🔴" else "🟢")
        <> " Vol: "
        <> format_volume change.volume

    -- The loop over the sorted results; a result without a symbol is an error.
    unfoldable pub lines : List (PriceResult F) → Result (List String)
    unfolding line
    lines [] = ok []
    lines (r ∷ rs) =
        if symbol_of r == ""
        then err (failure "message symbol is required")
        else lines rs >>= λ rest. ok (line r ∷ rest)

    unfoldable pub build_message : Period → List (PriceResult F) → Option Location → Result Message
    unfolding lines sort_by_symbol Period.validate
    build_message period results location = elim (Period.validate period) [
      | err e ↦ err (wrapped "validate message period: %w" e)
      | ok valid ↦ elim location [
        | none ↦ err (failure "message location is required")
        | some loc ↦ elim results [
          | [] ↦ err (failure "message results must not be empty")
          | r ∷ rs ↦ lines (sort_by_symbol (r ∷ rs)) >>= λ body. ok (record {
            title = "📊 Crypto " <> period.interval <> " Update";
            period = period;
            lines =
                (loc.clock_text period.start
                  <> " → "
                  <> loc.clock_text period.end
                  <> " "
                  <> loc.name)
                ∷ body;
          })
        ]
      ]
    ]

unfoldable pub render_message : Message → String
unfolding join
render_message message = join (message.title ∷ message.lines) "\n"
