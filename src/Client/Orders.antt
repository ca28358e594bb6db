-- ===== src/Client/Orders.antt =====
-- Order writes (client.py: `confirm_order` to `cancel_order`).
pub mod Guards
pub mod Outcome
pub mod Replacing
pub mod Groups
use ts_api_wrapper.Base.{
  String, Bool, true, false, ◌&&◌, ◌||◌, not, Option, none, some, List, [], ◌∷◌, ◌==◌,
}
use Prim.Native.String.{◌++◌}
use ts_api_wrapper.Base.Floats.{Floats}
use ts_api_wrapper.Base.Result.{Result, ok, err}
use ts_api_wrapper.Base.Result
use mathlib.Core.Option
use ts_api_wrapper.Errors.{Error, Failure, ambiguous_order_state, local, request_validation_error}
use ts_api_wrapper.Json.{Json, Fields}
use ts_api_wrapper.Config.{
  trade_scope, read_account_scope, assert_can_replace_orders, assert_can_cancel_orders,
}
use ts_api_wrapper.Validation.{
  validate_order_for_config, validate_group_for_config, validate_replace_for_config,
}
use ts_api_wrapper.Models.Enums.{OrderType, is_market}
use ts_api_wrapper.Models.Orders.{OrderRequest, order, fields, GroupOrderRequest}
use ts_api_wrapper.Models.Snapshots.{OrderSnapshot, OrderAck}
use ts_api_wrapper.Trade.{OrderWriteRequest, single, group, replacement, TradeStationTrade}
use ts_api_wrapper.Rest.{Trace}
use ts_api_wrapper.Rest.Run.{Run, ◌>>=◌, ◌>>◌, locally, pure}
use ts_api_wrapper.Rest.Verbs.{post_confirm, post_order_write, put_order_write, delete_order_write}
use ts_api_wrapper.Client.{
  Client, require_scope, require_capability, require_group_capabilities, order_id_value,
}
use ts_api_wrapper.Client.Pages.{get_orders_by_id}
use ts_api_wrapper.Client.Coerce.{
  Replacement, explicit, legacy, coerce_replace_request, request_id_of,
}

-- `match.account_id in {None, account_id}`
abbrev pub may_be_account : String → Option String → Bool
may_be_account account_id none = true
may_be_account account_id (some a) = a == account_id

abbrev pub belongs : String → String → OrderSnapshot → Bool
belongs account_id order_id o = o.order_id == order_id && may_be_account account_id o.account_id

-- Does one of the orders found match?
unfoldable pub is_found : String → String → List OrderSnapshot → Bool
is_found account_id order_id [] = false
is_found account_id order_id (o ∷ os) =
    belongs account_id order_id o || is_found account_id order_id os

module _ {fl : Floats} (client : Client fl) where
  open fl use {F}

  abbrev pub trade_of :
      OrderWriteRequest → Json → Option OrderAck → Option (Failure F) → TradeStationTrade F
  trade_of request payload ack ambiguous = record {
    request = request;
    payload = payload;
    payload_hash = client.payload_hash payload;
    ack = ack;
    latest_order = none;
    events = [];
    ambiguous_error = ambiguous;
  }

  abbrev pub acknowledged :
      OrderWriteRequest → Json → Result Error OrderAck → Result (Failure F) (TradeStationTrade F)
  acknowledged request payload (ok ack) = ok (trade_of request payload (some ack) none)
  acknowledged request payload (err e) = err (local e)

  -- The trade that a write's response or its `AmbiguousOrderState` makes; other exceptions go on.
  unfoldable pub trade_after :
      OrderWriteRequest
      → Json
      → Result (Failure F) Fields
      → Result (Failure F) (TradeStationTrade F)
  trade_after request payload (ok response) =
      acknowledged request payload (client.order_ack response)
  trade_after request payload (err (ambiguous_order_state op id cause)) =
      ok (trade_of request payload none (some (ambiguous_order_state op id cause)))
  trade_after request payload (err e) = err e

  abbrev pub recorded : OrderWriteRequest → Json → Run fl Fields → Run fl (TradeStationTrade F)
  recorded request payload write s =
      let (r, s') = write s in (Option.map (trade_after request payload) r, s')

  unfoldable pub confirm_order : OrderRequest → Run fl Fields
  confirm_order o = do
    locally (require_scope client trade_scope)
    locally (require_capability client.capabilities.supports_order_confirm)
    locally (validate_order_for_config client.exists client.config o)
    post_confirm client.rest "/orderexecution/orderconfirm" (client.order_payload o)

  abbrev pub what_if_order : OrderRequest → Run fl Fields
  what_if_order o = confirm_order o

  unfoldable pub place_order : OrderRequest → Run fl (TradeStationTrade F)
  unfolding trade_after
  place_order o = do
    locally (require_scope client trade_scope)
    locally (require_capability client.capabilities.supports_single_orders)
    locally (validate_order_for_config client.exists client.config o)
    recorded (single o) (client.order_payload o) (
        post_order_write client.rest "/orderexecution/orders" (client.order_payload o)
          (some (fields o).request_id))

  unfoldable pub confirm_order_group : GroupOrderRequest → Run fl Fields
  confirm_order_group g = do
    locally (require_scope client trade_scope)
    locally (require_group_capabilities client.capabilities g)
    locally (require_capability client.capabilities.supports_group_confirm)
    locally (validate_group_for_config client.exists client.config g)
    post_confirm client.rest "/orderexecution/ordergroupconfirm" (client.group_order_payload g)

  abbrev pub what_if_order_group : GroupOrderRequest → Run fl Fields
  what_if_order_group g = confirm_order_group g

  unfoldable pub place_order_group : GroupOrderRequest → Run fl (TradeStationTrade F)
  place_order_group g = do
    locally (require_scope client trade_scope)
    locally (require_group_capabilities client.capabilities g)
    locally (validate_group_for_config client.exists client.config g)
    recorded (group g) (client.group_order_payload g) (
        post_order_write client.rest "/orderexecution/ordergroups" (client.group_order_payload g)
          (some g.request_id))

  unfoldable pub assert_order_belongs_to_account : String → String → Run fl (Unit {0})
  unfolding is_found get_orders_by_id
  assert_order_belongs_to_account account_id order_id = do
    matches ← get_orders_by_id client (account_id ∷ []) (order_id ∷ [])
    locally (
        Result.raise_if (not (is_found account_id order_id matches))
          (request_validation_error "order was not found for the requested account"))

  abbrev pub order_path : String → String
  order_path order_id = "/orderexecution/orders/" ++ client.quote order_id

  unfoldable pub replace_order : String → String → Replacement → Run fl (TradeStationTrade F)
  unfolding coerce_replace_request assert_order_belongs_to_account
  replace_order account_id order_id requested = do
    locally (require_scope client trade_scope)
    locally (require_scope client read_account_scope)
    locally (require_capability client.capabilities.supports_replace)
    locally (assert_can_replace_orders client.exists client.config account_id)
    cleaned ← locally (order_id_value order_id)
    assert_order_belongs_to_account account_id cleaned
    request ← locally (coerce_replace_request requested)
    locally (validate_replace_for_config request client.config)
    recorded (replacement request) (client.replace_order_payload request) (
        put_order_write client.rest (order_path cleaned) (client.replace_order_payload request)
          (some (request_id_of requested cleaned)))

  unfoldable pub cancel_order : String → String → Run fl Fields
  unfolding assert_order_belongs_to_account
  cancel_order account_id order_id = do
    locally (require_scope client trade_scope)
    locally (require_scope client read_account_scope)
    locally (assert_can_cancel_orders client.config account_id)
    cleaned ← locally (order_id_value order_id)
    assert_order_belongs_to_account account_id cleaned
    delete_order_write client.rest (order_path cleaned) (some cleaned)
