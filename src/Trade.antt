-- ===== src/Trade.antt =====
-- The caller's view of an order write (src/tradestation_api_wrapper/trade.py).
pub mod Reconcile
use ts_api_wrapper.Base.{
  String, Bool, true, false, ◌&&◌, ◌||◌, Option, none, some, List, [], ◌∷◌, ◌++◌, is_none, is_some,
}
use ts_api_wrapper.Errors.{Failure}
use ts_api_wrapper.Json.{Json, Fields}
use ts_api_wrapper.OrderStatus.{OrderStatus}
use ts_api_wrapper.Models.Orders.{OrderRequest, GroupOrderRequest}
use ts_api_wrapper.Models.Replace.{OrderReplaceRequest}
use ts_api_wrapper.Models.Snapshots.{OrderSnapshot, OrderAck, first_order_id, status_value}
use ts_api_wrapper.Models.Snapshots

-- `OrderWriteRequest`
pub data OrderWriteRequest : Type 0 where
  single : OrderRequest → OrderWriteRequest
  group : GroupOrderRequest → OrderWriteRequest
  replacement : OrderReplaceRequest → OrderWriteRequest

pub record TradeStationTrade (F : Type 0) : Type 0 where
  pub request : OrderWriteRequest
  pub payload : Json
  pub payload_hash : String
  pub ack : Option OrderAck
  pub latest_order : Option OrderSnapshot
  pub events : List Fields
  pub ambiguous_error : Option (Failure F)

abbrev ack_order_id : Option OrderAck → Option String
ack_order_id none = none
ack_order_id (some ack) = first_order_id ack

abbrev pub has_errors : Option OrderAck → Bool
has_errors none = false
has_errors (some ack) = elim ack.errors [ [] ↦ false | _ ∷ _ ↦ true ]

module _ {F : Type 0} where
  unfoldable pub order_id : TradeStationTrade F → Option String
  order_id t = elim t.latest_order [ none ↦ ack_order_id t.ack | some o ↦ some o.order_id ]

  unfoldable pub status : TradeStationTrade F → Option OrderStatus
  status t = elim t.latest_order [ none ↦ none | some o ↦ status_value o ]

  unfoldable pub is_ambiguous : TradeStationTrade F → Bool
  is_ambiguous t = is_some t.ambiguous_error

  unfoldable pub reconcile_required : TradeStationTrade F → Bool
  unfolding is_ambiguous order_id
  reconcile_required t =
      is_ambiguous t || (is_some t.ack && (is_none (order_id t) || has_errors t.ack))

  unfoldable pub is_done : TradeStationTrade F → Bool
  is_done t = elim t.latest_order [ none ↦ false | some o ↦ Snapshots.is_done o ]

  unfoldable pub is_active : TradeStationTrade F → Bool
  is_active t = elim t.latest_order [ none ↦ false | some o ↦ Snapshots.is_active o ]

  unfoldable pub with_order_snapshot : TradeStationTrade F → OrderSnapshot → TradeStationTrade F
  with_order_snapshot t o = record t { latest_order = some o }

  unfoldable pub with_event : TradeStationTrade F → Fields → TradeStationTrade F
  with_event t e = record t { events = t.events ++ e ∷ [] }
