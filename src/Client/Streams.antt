-- ===== src/Client/Streams.antt =====
-- The streams of the client (client.py: `stream_orders` to `stream_option_quotes`). Each checks what
-- it asks for, and calls `stream_events` with a path and an `Accept` header.
use ts_api_wrapper.Base.{ℕ, String, Bool, Option, some, List, [], ◌∷◌}
use ts_api_wrapper.Base.Int.{ℤ}
use ts_api_wrapper.Base.Decimal.{Decimal}
use ts_api_wrapper.Base.Floats.{Floats}
use ts_api_wrapper.Base.Result.{Result, ok, err, ◌>>=◌, ◌>>◌, raise_if}
use ts_api_wrapper.Errors.{Error, Failure, value_error, local}
use ts_api_wrapper.Json.{Json}
use Prim.Native.Nat
use Prim.Native.String.{◌++◌}
use ts_api_wrapper.Config.{market_data_scope, read_account_scope, matrix_scope}
use ts_api_wrapper.Models.Options.{is_empty}
use ts_api_wrapper.Models.Params.{StreamBarChartParams, OptionChainStreamParams, OptionQuoteLeg}
use ts_api_wrapper.Rest.{Trace}
use ts_api_wrapper.Rest.Streams.{StreamReply, stream_events}
use ts_api_wrapper.Stream.Events.{Watch, unwatched}
use ts_api_wrapper.Transport.{HttpRequest}
use ts_api_wrapper.Client.Market.{optional, model_query_params}
use ts_api_wrapper.Client.{
  Client, Params, text_value, decimal_value, int_value, flag_value, require_scope,
  require_capability, account_path, order_ids_path, symbol_path, single_symbol_path, positive_int,
  query_string,
}

abbrev pub brokerage_stream_accept : String
brokerage_stream_accept = "application/vnd.tradestation.streams.v3+json"

abbrev pub market_data_stream_accept : String
market_data_stream_accept = "application/vnd.tradestation.streams.v2+json"

-- The path and the `Accept` header of a stream.
abbrev pub Target : Type 0
Target = String × String

module _ {fl : Floats} (client : Client fl) where
  abbrev stream_accounts_url : String → String → String
  stream_accounts_url accounts rest = "/brokerage/stream/accounts/" ++ (accounts ++ rest)

  unfoldable pub stream_orders : List String → Result Error Target
  stream_orders account_ids = do
    require_scope client read_account_scope
    require_capability client.capabilities.supports_stream_orders
    accounts ← account_path client account_ids
    ok (stream_accounts_url accounts "/orders", brokerage_stream_accept)

  unfoldable pub stream_orders_by_id : List String → List String → Result Error Target
  stream_orders_by_id account_ids order_ids = do
    require_scope client read_account_scope
    require_capability client.capabilities.supports_stream_orders
    accounts ← account_path client account_ids
    orders ← order_ids_path client order_ids
    ok (stream_accounts_url accounts ("/orders/" ++ orders), brokerage_stream_accept)

  unfoldable pub stream_positions : List String → Result Error Target
  stream_positions account_ids = do
    require_scope client read_account_scope
    require_capability client.capabilities.supports_stream_positions
    accounts ← account_path client account_ids
    ok (stream_accounts_url accounts "/positions", brokerage_stream_accept)

  unfoldable pub stream_quotes : List String → Result Error Target
  stream_quotes symbols = do
    require_scope client market_data_scope
    require_capability client.capabilities.supports_quote_stream
    path ← symbol_path client symbols
    ok ("/marketdata/stream/quotes/" ++ path, market_data_stream_accept)

  unfoldable pub stream_bars :
      (StreamBarChartParams → Params) → String → Option StreamBarChartParams → Result Error Target
  unfolding model_query_params
  stream_bars dump symbol params = do
    require_scope client market_data_scope
    require_capability client.capabilities.supports_bar_stream
    path ← single_symbol_path client symbol
    ok (
      "/marketdata/stream/barcharts/"
          ++ (path ++ query_string client (model_query_params dump params)),
      market_data_stream_accept,
    )

  -- `stream_market_depth_aggregates` and `stream_market_depth_quotes`, which differ in the path
  unfoldable pub stream_market_depth : String → String → Option ℤ → Result Error Target
  stream_market_depth kind symbol max_levels = do
    require_scope client matrix_scope
    require_capability client.capabilities.supports_market_depth_stream
    levels ← positive_int max_levels
    path ← single_symbol_path client symbol
    ok (
      "/marketdata/stream/marketdepth/"
          ++ (kind
              ++ ("/"
                  ++ (path
                      ++ query_string client (("maxlevels", optional int_value levels) ∷ [])))),
      market_data_stream_accept,
    )

  abbrev pub stream_market_depth_aggregates : String → Option ℤ → Result Error Target
  stream_market_depth_aggregates symbol max_levels =
      stream_market_depth "aggregates" symbol max_levels

  abbrev pub stream_market_depth_quotes : String → Option ℤ → Result Error Target
  stream_market_depth_quotes symbol max_levels = stream_market_depth "quotes" symbol max_levels

  unfoldable pub stream_option_chain :
      (OptionChainStreamParams → Params)
      → String
      → Option OptionChainStreamParams
      → Result Error Target
  unfolding model_query_params
  stream_option_chain dump underlying params = do
    require_scope client market_data_scope
    require_capability client.capabilities.supports_option_streams
    path ← single_symbol_path client underlying
    ok (
      "/marketdata/stream/options/chains/"
          ++ (path ++ query_string client (model_query_params dump params)),
      market_data_stream_accept,
    )

  -- `show_index` is Python's `str` of a number
  unfoldable pub leg_params : (ℕ → String) → ℕ → List OptionQuoteLeg → Params
  leg_params show_index n [] = []
  leg_params show_index n (leg ∷ legs) =
      ("legs[" ++ (show_index n ++ "].Symbol"), some (text_value leg.symbol))
      ∷ ("legs[" ++ (show_index n ++ "].Ratio"), some (decimal_value leg.ratio))
      ∷ leg_params show_index (Prim.Native.Nat.◌+◌ n 1) legs

  unfoldable pub stream_option_quotes :
      (ℕ → String) → List OptionQuoteLeg → Option Decimal → Option Bool → Result Error Target
  unfolding leg_params
  stream_option_quotes show_index legs risk_free_rate enable_greeks = do
    require_scope client market_data_scope
    require_capability client.capabilities.supports_option_streams
    raise_if (is_empty legs) (value_error "at least one option quote leg is required")
    ok (
      "/marketdata/stream/options/quotes"
          ++ query_string client (
              ("riskFreeRate", optional decimal_value risk_free_rate)
              ∷ ("enableGreeks", optional flag_value enable_greeks)
              ∷ leg_params show_index 0 legs),
      market_data_stream_accept,
    )

  -- What a call of one of these methods and the reading of its events come to.
  unfoldable pub watch :
      (ℕ → HttpRequest → StreamReply fl.F)
      → (List ℕ → Option (Json × List ℕ))
      → Bool
      → Result Error Target
      → Trace fl
      → ℕ
      → Option (Result (Failure fl.F) (Unit {0})) × Watch fl.F
  unfolding stream_events
  watch open_stream raw_decode raise_on_error (err e) s fuel = (some (err (local e)), unwatched)
  watch open_stream raw_decode raise_on_error (ok (path, accept)) s fuel =
      stream_events client.rest open_stream path accept raw_decode raise_on_error s fuel
