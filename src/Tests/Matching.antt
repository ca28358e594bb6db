-- ===== src/Tests/Matching.antt =====
-- The theorems on statuses and on matching, applied to values.
use ts_api_wrapper.Base.{◌≡◌, refl, ◌↔◌, false, ◌&&◌, ◌||◌, not, none, some, [], ◌∷◌, keep}
use ts_api_wrapper.Base.Int.{pos, ◌-ℤ◌}
use ts_api_wrapper.Base.DateTime.{aware}
use ts_api_wrapper.Base.Decimal.{whole, eqb_Decimal}
use ts_api_wrapper.Base.Text.{upper, strip, without_code}
use ts_api_wrapper.OrderStatus.{
  OrderStatus, received, order_status_is_done, order_status_is_active, order_status_can_cancel,
  order_status_can_replace, member, other, status_message, unknown, cancel_pending_statuses,
  replace_pending_statuses, non_cancelable_working_statuses, normalize_order_status,
}
use ts_api_wrapper.OrderStatus
use ts_api_wrapper.OrderStatus.Laws.{status_classes, normalize_order_status-value}
use ts_api_wrapper.Models.Enums.{sell_short, limit, value}
use ts_api_wrapper.Models.Snapshots.{
  OrderSnapshot, OrderLegSnapshot, UnknownOrderFingerprint, primary_symbol, primary_action,
  primary_quantity,
}
use ts_api_wrapper.Reconciliation.{
  matches_fingerprint, match_unknown_order, matched_order, no_match, normalize_broker_action,
  decimal_equal, within, is_action,
}
use ts_api_wrapper.Reconciliation.Unique.{
  IsSameOrder, match_unknown_order_iff, matches_fingerprint-IsSameOrder,
  normalize_broker_action-value,
}
use ts_api_wrapper.Tests.{snapshot}

abbrev leg : OrderLegSnapshot
leg = record {
  symbol = some "MSFT";
  buy_or_sell = some "Sell Short";
  quantity_ordered = some (whole 10);
  quantity_remaining = none;
  exec_quantity = none;
  execution_price = none;
}

abbrev opened : OrderSnapshot
opened = record snapshot { opened_at = some (aware (pos 1000)); legs = leg ∷ [] }

abbrev fingerprint : UnknownOrderFingerprint
fingerprint = record {
  account_id = "SIM1";
  symbol = "MSFT";
  trade_action = sell_short;
  order_type = limit;
  quantity = whole 10;
  submitted_at = aware (pos 900);
  limit_price = some (whole 50);
  stop_price = none;
  payload_hash = "hash";
}

match_unknown_order_iff_example :
    let r = match_unknown_order fingerprint (snapshot ∷ opened ∷ []) 200 in
    let found = keep (λ t. matches_fingerprint fingerprint t 200) (snapshot ∷ opened ∷ []) in
    ((matched_order r ≡ some opened) ↔ (found ≡ opened ∷ []))
    × ((r.outcome ≡ no_match) ↔ (found ≡ []))
    × (r.matches ≡ found)
match_unknown_order_iff_example =
    match_unknown_order_iff fingerprint (snapshot ∷ opened ∷ []) 200 opened

matches_fingerprint-IsSameOrder_example : IsSameOrder fingerprint opened 200
unfolding matches_fingerprint primary_symbol primary_action primary_quantity is_action
    normalize_broker_action value eqb_Decimal decimal_equal within ◌-ℤ◌ upper without_code
matches_fingerprint-IsSameOrder_example =
    matches_fingerprint-IsSameOrder fingerprint opened 200 refl

normalize_broker_action-value_example :
    normalize_broker_action (some "Sell Short") ≡ some sell_short
unfolding upper value without_code
normalize_broker_action-value_example = normalize_broker_action-value sell_short "Sell Short" refl

status_classes_example :
    (order_status_is_done (some received) && order_status_is_active (some received) ≡ false)
    × ((order_status_is_done (some received) || order_status_is_active (some received))
        ≡ not (member received (other ∷ status_message ∷ unknown ∷ [])))
    × (order_status_can_cancel (some received) ≡ (
        order_status_is_active (some received)
        && not (member received cancel_pending_statuses)
        && not (member received non_cancelable_working_statuses)))
    × (order_status_can_replace (some received) ≡ (
        order_status_can_cancel (some received) && not (member received replace_pending_statuses)))
status_classes_example = status_classes received

normalize_order_status-value_example : normalize_order_status (some " ack ") ≡ some received
unfolding upper OrderStatus.value strip
normalize_order_status-value_example = normalize_order_status-value received " ack " refl
