-- ===== src/Validation.antt =====
-- Risk checks before a write (src/tradestation_api_wrapper/validation.py). What the payload of a
-- request is (`model_dump`) and its hash (`hashlib.sha256`) are arguments of the client's functions.
pub mod Risk
pub mod Numbers
use ts_api_wrapper.Base.{
  String, Bool, true, false, ◌&&◌, not, Option, none, some, List, [], ◌∷◌, is_none,
}
use ts_api_wrapper.Base.Decimal.{Decimal, leb_Decimal, mul_Decimal, is_truthy}
use ts_api_wrapper.Base.Result.{Result, ok, err, ◌>>=◌, ◌>>◌, raise_if}
use ts_api_wrapper.Errors.{Error, request_validation_error}
use ts_api_wrapper.Config.{TradeStationConfig, assert_can_submit_orders}
use ts_api_wrapper.Models.Enums.{
  Duration, day_plus, gtc_plus, gtd_plus, is_market, is_unknown, is_option, is_future, OrderType,
}
use ts_api_wrapper.Models.Orders.{
  OrderFields, OrderRequest, order, Osos, nil, cons, GroupOrderRequest,
}
use ts_api_wrapper.Models.Replace.{OrderReplaceRequest}

-- `EXTENDED_HOURS_DURATIONS`
abbrev pub is_extended_hours : Duration → Bool
is_extended_hours day_plus = true
is_extended_hours gtc_plus = true
is_extended_hours gtd_plus = true
is_extended_hours _ = false

-- `a or b`, which passes over `None` and over zero
abbrev pub or_else : Option Decimal → Option Decimal → Option Decimal
or_else none b = b
or_else (some a) b = elim (is_truthy a) [ true ↦ some a | false ↦ b ]

unfoldable pub estimated_notional : OrderFields → Option Decimal
estimated_notional f = elim (or_else (or_else f.estimated_price f.limit_price) f.stop_price) [
  | none ↦ none
  | some price ↦ some (mul_Decimal f.quantity price)
]

unfoldable pub estimated_replace_notional : OrderReplaceRequest → Option Decimal
estimated_replace_notional r = elim r.quantity [
  | none ↦ none
  | some quantity ↦ elim (or_else r.limit_price r.stop_price) [
    | none ↦ none
    | some price ↦ some (mul_Decimal quantity price)
  ]
]

-- `notional is not None and notional > limit`
abbrev pub exceeds : Option Decimal → Decimal → Bool
exceeds none limit = false
exceeds (some notional) limit = not (leb_Decimal notional limit)

unfoldable pub validate_single_order_for_config :
    OrderFields → TradeStationConfig → Result Error (Unit {0})
validate_single_order_for_config f c = do
  raise_if (is_unknown f.asset_class)
      (request_validation_error "order asset_class must be set explicitly for risk checks")
  raise_if (is_market f.order_type && not c.allow_market_orders)
      (request_validation_error "market orders are disabled by configuration")
  raise_if (is_option f.asset_class && not c.allow_options)
      (request_validation_error "option orders are disabled by configuration")
  raise_if (is_future f.asset_class && not c.allow_futures)
      (request_validation_error "futures orders are disabled by configuration")
  raise_if (is_extended_hours f.time_in_force.duration && not c.allow_extended_hours)
      (request_validation_error "extended-hours orders are disabled by configuration")
  raise_if (exceeds (estimated_notional f) c.max_order_notional)
      (request_validation_error "order notional exceeds max_order_notional")
  raise_if (is_market f.order_type && is_none f.estimated_price)
      (request_validation_error "market orders require estimated_price for risk validation")

-- `exists` answers for `kill_switch_file.exists()`.
module _ (exists : String → Bool) (c : TradeStationConfig) where
  unfoldable mutual
    pub validate_order_for_config : OrderRequest → Result Error (Unit {0})
    validate_order_for_config (order f os) =
        assert_can_submit_orders exists c f.account_id
        >> (validate_single_order_for_config f c >> validate_osos_for_config os)

    -- the loop over `order.osos`
    pub validate_osos_for_config : Osos → Result Error (Unit {0})
    validate_osos_for_config nil = ok tt
    validate_osos_for_config (cons o os) =
        validate_order_for_config o >> validate_osos_for_config os

  unfoldable pub validate_orders_for_config : List OrderRequest → Result Error (Unit {0})
  validate_orders_for_config [] = ok tt
  validate_orders_for_config (o ∷ os) = validate_order_for_config o >> validate_orders_for_config os

  unfoldable pub validate_group_for_config : GroupOrderRequest → Result Error (Unit {0})
  unfolding validate_orders_for_config
  validate_group_for_config g = validate_orders_for_config g.orders

-- `replacement.order_type is OrderType.MARKET`
abbrev converts_to_market : Option OrderType → Bool
converts_to_market none = false
converts_to_market (some t) = is_market t

unfoldable pub validate_replace_for_config :
    OrderReplaceRequest → TradeStationConfig → Result Error (Unit {0})
validate_replace_for_config r c = do
  raise_if (converts_to_market r.order_type && not c.allow_market_orders)
      (request_validation_error "market order replacements are disabled by configuration")
  raise_if (exceeds (estimated_replace_notional r) c.max_order_notional)
      (request_validation_error "replacement notional exceeds max_order_notional")
