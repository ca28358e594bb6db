-- ===== src/Models/Orders.antt =====
-- Order requests and groups of them (models.py: `OrderRequest`, `GroupOrderRequest`).
use ts_api_wrapper.Base.{
  String, Bool, false, ◌&&◌, ◌||◌, not, Option, List, [], ◌∷◌, ◌==◌, is_none, ltb, length, all,
}
use ts_api_wrapper.Base.Text.{strip, is_blank}
use ts_api_wrapper.Base.Decimal.{Decimal, is_positive}
use ts_api_wrapper.Base.Result.{Result, ok, ◌>>=◌, ◌>>◌, raise_if, checked}
use ts_api_wrapper.Errors.{Error, value_error}
use ts_api_wrapper.Models.Enums.{
  AssetClass, TradeAction, OrderType, GroupType, is_limit, is_stop_market, is_stop_limit, is_oco,
  is_bracket,
}
use ts_api_wrapper.Models.Options.{TimeInForce, AdvancedOptions, is_given_non_positive}

-- The fields of an `OrderRequest`, but for the orders that it triggers.
pub record OrderFields : Type 0 where
  pub account_id : String
  pub symbol : String
  pub quantity : Decimal
  pub order_type : OrderType
  pub trade_action : TradeAction
  pub time_in_force : TimeInForce
  pub limit_price : Option Decimal
  pub stop_price : Option Decimal
  pub route : Option String
  pub advanced_options : Option AdvancedOptions
  pub order_confirm_id : Option String
  pub request_id : String
  pub asset_class : AssetClass
  pub client_order_id : Option String
  pub estimated_price : Option Decimal

mutual
  pub data OrderRequest : Type 0 where
    order : OrderFields → Osos → OrderRequest

  -- the tuple `osos`
  pub data Osos : Type 0 where
    nil : Osos
    cons : OrderRequest → Osos → Osos

abbrev pub fields : OrderRequest → OrderFields
fields (order f _) = f

abbrev pub osos : OrderRequest → Osos
osos (order _ os) = os

-- A predicate on the fields of an order and of all that it triggers.
abbrev mutual
  pub AllOrders : (OrderFields → Type 0) → OrderRequest → Type 0
  AllOrders P (order f os) = P f × AllOsos P os

  pub AllOsos : (OrderFields → Type 0) → Osos → Type 0
  AllOsos P nil = Unit
  AllOsos P (cons o os) = AllOrders P o × AllOsos P os

unfoldable pub require_non_blank : String → Result Error String
require_non_blank value = do
  let stripped = strip value
  raise_if (is_blank stripped) (value_error "value must not be blank")
  ok stripped

unfoldable pub require_positive_quantity : Decimal → Result Error Decimal
require_positive_quantity value = do
  raise_if (not (is_positive value)) (value_error "quantity must be positive")
  ok value

unfoldable pub require_positive_price : Option Decimal → Result Error (Option Decimal)
require_positive_price value = do
  raise_if (is_given_non_positive value) (value_error "price must be positive")
  ok value

unfoldable pub validate_price_requirements : OrderFields → Result Error (Unit {0})
validate_price_requirements f = do
  raise_if (is_limit f.order_type && is_none f.limit_price)
      (value_error "limit orders require LimitPrice")
  raise_if (is_stop_market f.order_type && is_none f.stop_price)
      (value_error "stop-market orders require StopPrice")
  raise_if (is_stop_limit f.order_type && (is_none f.limit_price || is_none f.stop_price))
      (value_error "stop-limit orders require both LimitPrice and StopPrice")

-- `OrderRequest(...)`
unfoldable pub order_request : OrderFields → Osos → Result Error OrderRequest
order_request f os = do
  account ← require_non_blank f.account_id
  symbol ← require_non_blank f.symbol
  quantity ← require_positive_quantity f.quantity
  limit ← require_positive_price f.limit_price
  stop ← require_positive_price f.stop_price
  estimated ← require_positive_price f.estimated_price
  built ← checked validate_price_requirements (record f {
    account_id = account;
    symbol = symbol;
    quantity = quantity;
    limit_price = limit;
    stop_price = stop;
    estimated_price = estimated;
  })
  ok (order built os)

pub record GroupOrderRequest : Type 0 where
  pub type : GroupType
  pub orders : List OrderRequest
  pub request_id : String

-- `len({key(order) for order in orders}) == 1`, for an order list that is not empty
abbrev pub share : (OrderRequest → String) → List OrderRequest → Bool
share key [] = false
share key (o ∷ os) = all (λ p. key p == key o) os

abbrev pub account_of : OrderRequest → String
account_of o = (fields o).account_id

abbrev pub symbol_of : OrderRequest → String
symbol_of o = (fields o).symbol

unfoldable pub group_order_request : GroupOrderRequest → Result Error GroupOrderRequest
group_order_request g = do
  raise_if (ltb (length g.orders) 1) (value_error "order group must contain at least one order")
  raise_if (is_oco g.type && ltb (length g.orders) 2)
      (value_error "OCO groups require at least two orders")
  raise_if (is_bracket g.type && ltb (length g.orders) 3)
      (value_error "bracket groups require parent, target, and stop orders")
  raise_if (not (share account_of g.orders))
      (value_error "TradeStation order groups must use one account")
  raise_if (not (share symbol_of g.orders))
      (value_error "TradeStation order groups must use one symbol")
  ok g
