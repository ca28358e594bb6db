-- ===== src/Client/Market.antt =====
-- The reads of market data (client.py: `get_crypto_symbol_names` to `get_bars`). What `model_validate`
-- makes of an item, and `model_dump` of parameters, are arguments.
use ts_api_wrapper.Base.{String, Option, none, some, List, [], ◌∷◌}
use Prim.Native.String.{◌++◌}
use ts_api_wrapper.Base.Int.{ℤ}
use ts_api_wrapper.Base.Decimal.{Decimal}
use ts_api_wrapper.Base.Floats.{Floats}
use ts_api_wrapper.Base.Result.{Result, ok}
use ts_api_wrapper.Errors.{Error}
use ts_api_wrapper.Json.{Json, Fields}
use ts_api_wrapper.Config.{market_data_scope, option_spreads_scope}
use ts_api_wrapper.Models.Params.{BarChartParams, OptionRiskRewardRequest}
use ts_api_wrapper.Models.Quotes.{
  QuoteSnapshot, SymbolDetail, OptionExpiration, OptionSpreadType, OptionStrikes, OptionRiskReward,
  BarSnapshot,
}
use ts_api_wrapper.Validation.Numbers.{Dumped, option_risk_reward_payload}
use ts_api_wrapper.Rest.Run.{Run, ◌>>=◌, ◌>>◌, locally}
use ts_api_wrapper.Rest.Verbs.{get, post_read}
use ts_api_wrapper.Client.Payload.{items_of}
use ts_api_wrapper.Client.{
  Client, Params, QueryValue, text_value, decimal_value, int_value, require_scope, symbol_path,
  single_symbol_path, query_string,
}

-- a parameter that may be missing
abbrev pub optional : {A : Type 0} → (A → QueryValue) → Option A → Option QueryValue
optional f none = none
optional f (some a) = some (f a)

-- `_model_query_params`
unfoldable pub model_query_params : {P : Type 0} → (P → Params) → Option P → Params
model_query_params dump none = []
model_query_params dump (some p) = dump p

module _ {fl : Floats} (client : Client fl) where
  -- `str(symbol)` of each item
  unfoldable pub get_crypto_symbol_names : Run fl (List String)
  unfolding items_of
  get_crypto_symbol_names = do
    locally (require_scope client market_data_scope)
    payload ← get client.rest "/marketdata/symbollists/cryptopairs/symbolnames"
    locally (items_of client "SymbolNames" (λ v. ok (client.rest.to_text v)) payload)

  unfoldable pub get_quotes :
      (Json → Result Error QuoteSnapshot) → List String → Run fl (List QuoteSnapshot)
  unfolding items_of
  get_quotes validate symbols = do
    locally (require_scope client market_data_scope)
    path ← locally (symbol_path client symbols)
    payload ← get client.rest ("/marketdata/quotes/" ++ path)
    locally (items_of client "Quotes" validate payload)

  unfoldable pub get_symbols :
      (Json → Result Error SymbolDetail) → List String → Run fl (List SymbolDetail)
  unfolding items_of
  get_symbols validate symbols = do
    locally (require_scope client market_data_scope)
    path ← locally (symbol_path client symbols)
    payload ← get client.rest ("/marketdata/symbols/" ++ path)
    locally (items_of client "Symbols" validate payload)

  unfoldable pub get_option_expirations :
      (Json → Result Error OptionExpiration)
      → String
      → Option Decimal
      → Run fl (List OptionExpiration)
  unfolding items_of
  get_option_expirations validate underlying strike_price = do
    locally (require_scope client market_data_scope)
    path ← locally (single_symbol_path client underlying)
    payload ← get client.rest (
        "/marketdata/options/expirations/"
        ++ (path
            ++ query_string client (("strikePrice", optional decimal_value strike_price) ∷ [])))
    locally (items_of client "Expirations" validate payload)

  unfoldable pub get_option_spread_types :
      (Json → Result Error OptionSpreadType) → Run fl (List OptionSpreadType)
  unfolding items_of
  get_option_spread_types validate = do
    locally (require_scope client market_data_scope)
    payload ← get client.rest "/marketdata/options/spreadtypes"
    locally (items_of client "SpreadTypes" validate payload)

  -- An expiration is a text, or a date.
  unfoldable pub get_option_strikes :
      (Fields → Result Error OptionStrikes)
      → String
      → Option String
      → Option ℤ
      → Option QueryValue
      → Option QueryValue
      → Run fl OptionStrikes
  get_option_strikes validate underlying spread_type strike_interval expiration expiration2 = do
    locally (require_scope client market_data_scope)
    path ← locally (single_symbol_path client underlying)
    payload ← get client.rest (
        "/marketdata/options/strikes/"
        ++ (path
            ++ query_string client (
                ("spreadType", optional text_value spread_type)
                ∷ ("strikeInterval", optional int_value strike_interval)
                ∷ ("expiration", expiration)
                ∷ ("expiration2", expiration2)
                ∷ [])))
    locally (validate payload)

  unfoldable pub get_option_risk_reward :
      (Fields → Result Error OptionRiskReward)
      → (Decimal → Json)
      → (OptionRiskRewardRequest → Dumped)
      → OptionRiskRewardRequest
      → Run fl OptionRiskReward
  unfolding option_risk_reward_payload
  get_option_risk_reward validate to_float dump request = do
    locally (require_scope client option_spreads_scope)
    payload ←
        post_read client.rest "/marketdata/options/riskreward"
          (option_risk_reward_payload to_float dump request)
    locally (validate payload)

  unfoldable pub get_bars :
      (Json → Result Error BarSnapshot)
      → (BarChartParams → Params)
      → String
      → Option BarChartParams
      → Run fl (List BarSnapshot)
  unfolding items_of model_query_params
  get_bars validate dump symbol params = do
    locally (require_scope client market_data_scope)
    path ← locally (single_symbol_path client symbol)
    payload ←
        get client.rest (
          "/marketdata/barcharts/"
          ++ (path ++ query_string client (model_query_params dump params)))
    locally (items_of client "Bars" validate payload)
