-- ===== src/Builders.antt =====
-- Builders of orders and groups (src/tradestation_api_wrapper/builders.py). `fresh` is the UUID that
-- `uuid4` returns for the request built.
pub mod Groups
use ts_api_wrapper.Base.{ℕ, String, Option, none, some, List, [], ◌∷◌, ◌+◌}
use ts_api_wrapper.Base.Decimal.{Decimal}
use ts_api_wrapper.Base.Result.{Result, ok, err, ◌>>=◌}
use ts_api_wrapper.Errors.{Error, request_validation_error}
use ts_api_wrapper.Models.Enums.{
  TradeAction, buy, sell, buy_to_cover, sell_short, buy_to_open, buy_to_close, sell_to_open,
  sell_to_close, OrderType, limit, market, stop_market, stop_limit, Duration, AssetClass, oco,
  bracket,
}
use ts_api_wrapper.Models.Options.{TimeInForce, time_in_force}
use ts_api_wrapper.Models.Orders.{
  OrderFields, OrderRequest, nil, order_request, GroupOrderRequest, group_order_request,
}

-- The arguments that every builder takes.
pub record Common : Type 0 where
  pub account_id : String
  pub symbol : String
  pub quantity : Decimal
  pub route : Option String
  pub asset_class : AssetClass

-- The fields of an order that is built from these, an action, a type and three optional prices.
abbrev pub built_fields :
    Common
    → TradeAction
    → OrderType
    → TimeInForce
    → Option Decimal
    → Option Decimal
    → Option Decimal
    → String
    → OrderFields
built_fields c action type tif limit_price stop_price estimated_price fresh = record {
  account_id = c.account_id;
  symbol = c.symbol;
  quantity = c.quantity;
  order_type = type;
  trade_action = action;
  time_in_force = tif;
  limit_price = limit_price;
  stop_price = stop_price;
  route = c.route;
  advanced_options = none;
  order_confirm_id = none;
  request_id = fresh;
  asset_class = c.asset_class;
  client_order_id = none;
  estimated_price = estimated_price;
}

-- `TimeInForce(Duration=duration)`
unfoldable pub undated : Duration → Result Error TimeInForce
unfolding time_in_force
undated duration = time_in_force (record { duration = duration; expiration = none })

unfoldable pub limit_order :
    Common → TradeAction → Decimal → Duration → String → Result Error OrderRequest
limit_order c action limit_price duration fresh = do
  tif ← undated duration
  order_request (built_fields c action limit tif (some limit_price) none none fresh) nil

unfoldable pub market_order :
    Common → TradeAction → Decimal → Duration → String → Result Error OrderRequest
market_order c action estimated_price duration fresh = do
  tif ← undated duration
  order_request (built_fields c action market tif none none (some estimated_price) fresh) nil

unfoldable pub stop_market_order :
    Common → TradeAction → Decimal → Duration → String → Result Error OrderRequest
stop_market_order c action stop_price duration fresh = do
  tif ← undated duration
  order_request (built_fields c action stop_market tif none (some stop_price) none fresh) nil

unfoldable pub stop_limit_order :
    Common → TradeAction → Decimal → Decimal → Duration → String → Result Error OrderRequest
stop_limit_order c action stop_price limit_price duration fresh = do
  tif ← undated duration
  order_request
      (built_fields c action stop_limit tif (some limit_price) (some stop_price) none fresh) nil

unfoldable pub one_cancels_all : List OrderRequest → String → Result Error GroupOrderRequest
one_cancels_all orders fresh =
    group_order_request (record { type = oco; orders = orders; request_id = fresh })

-- `fresh n` is the n-th UUID of the call.
unfoldable pub oco_exit_group :
    Common
    → TradeAction
    → Decimal
    → Decimal
    → Duration
    → (ℕ → String)
    → Result Error GroupOrderRequest
oco_exit_group c exit_action target_price stop_price duration fresh = do
  target ← limit_order c exit_action target_price duration (fresh 0)
  stop ← stop_market_order c exit_action stop_price duration (fresh 1)
  group_order_request (record { type = oco; orders = target ∷ stop ∷ []; request_id = fresh 2 })

unfoldable pub protective_exit_action : TradeAction → Result Error TradeAction
protective_exit_action buy = ok sell
protective_exit_action sell_short = ok buy_to_cover
protective_exit_action buy_to_open = ok sell_to_close
protective_exit_action sell_to_open = ok buy_to_close
protective_exit_action _ = err (request_validation_error "is not an opening action")

-- `a or b`; no duration is the empty text
abbrev or_duration : Option Duration → Duration → Duration
or_duration none d = d
or_duration (some e) _ = e

unfoldable pub bracket_order_group :
    Common
    → TradeAction
    → Decimal
    → Decimal
    → Decimal
    → Duration
    → Duration
    → Option Duration
    → (ℕ → String)
    → Result Error GroupOrderRequest
bracket_order_group c entry_action entry target_price stop_price duration entry_duration
      exit_duration fresh =
    do
      exit_action ← protective_exit_action entry_action
      let resolved = or_duration exit_duration duration
      parent ← limit_order c entry_action entry entry_duration (fresh 0)
      target ← limit_order c exit_action target_price resolved (fresh 1)
      stop ← stop_market_order c exit_action stop_price resolved (fresh 2)
      group_order_request
          (record { type = bracket; orders = parent ∷ target ∷ stop ∷ []; request_id = fresh 3 })
