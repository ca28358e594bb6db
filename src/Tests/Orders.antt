-- ===== src/Tests/Orders.antt =====
-- The theorems on order writes and on the request loop, applied to values.
use ts_api_wrapper.Base.{
  ℕ, ◌≡◌, refl, ◌⊎◌, ◌↔◌, inl, inr, true, false, none, some, List, [], ◌≤◌, is_some, length,
  contains, ◌+◌, arith, ◌∷◌, ◌||◌, ◌&&◌, is_none, is_some, any, if◌then◌else◌,
}
use ts_api_wrapper.Base.Text.{strip, is_blank}
use ts_api_wrapper.Base.Decimal.{whole, leb_Decimal, mul_Decimal}
use ts_api_wrapper.Base.Result.{ok, err}
use ts_api_wrapper.Json.{Json}
use ts_api_wrapper.Config.{trade_scope, read_account_scope, assert_can_cancel_orders}
use ts_api_wrapper.Models.Built.{IsBuilt}
use ts_api_wrapper.Models.Orders.{OrderRequest, order, nil, AllOrders}
use ts_api_wrapper.Json.{end}
use ts_api_wrapper.Trade.{
  order_id, reconcile_required, single, TradeStationTrade, is_ambiguous, has_errors,
}
use ts_api_wrapper.Trade.Reconcile.{
  Update, event, is_snapshot, last_named, updated, reconcile_required-updated,
}
use ts_api_wrapper.Validation.{validate_order_for_config}
use ts_api_wrapper.Validation.Risk.{IsAccepted, validate_order_for_config_iff}
use ts_api_wrapper.Transport.{Reply, timed_out, failed}
use ts_api_wrapper.Rest.{Call, request_json}
use ts_api_wrapper.Rest.Reads.{read_exhausted}
use ts_api_wrapper.Errors.{retry_exhausted}
use ts_api_wrapper.Rest.Verbs.{get_call, post_order_write, delete_order_write}
use ts_api_wrapper.Rest.Loop.{request_json_ends}
use ts_api_wrapper.Rest.Writes
use ts_api_wrapper.Rest.Writes.{
  is_unauthorized, is_unknown, write_verdict, write_outcome, first_reply, second_reply, sent_once,
  sent_twice,
}
use ts_api_wrapper.Client.Orders.{place_order, cancel_order, recorded, order_path}
use ts_api_wrapper.Models.Snapshots.{OrderSnapshot}
use ts_api_wrapper.Client.Orders.Guards.{
  Raises, IsOwned, lookup, place_order_guarded, cancel_order_guarded,
}
use ts_api_wrapper.Client.Orders.Outcome.{order_call, sent, place_order_unknown}
use ts_api_wrapper.Client.Pages.{get_order_pages}
use ts_api_wrapper.Client.Pages.Bounds.{get_order_pages_ends}
use ts_api_wrapper.Tests.{network, fresh_trace, config, client, fields, snapshot}

pub fields-IsBuilt : IsBuilt fields
unfolding strip
fields-IsBuilt = record {
  account_stripped = refl;
  account_given = refl;
  symbol_stripped = refl;
  symbol_given = refl;
  quantity_positive = refl;
  limit_positive = refl;
  stop_positive = refl;
  estimate_positive = refl;
  prices = refl;
}

within_limit : leb_Decimal (mul_Decimal (whole 10) (whole 50)) (whole 1000) ≡ true
unfolding leb_Decimal mul_Decimal
within_limit = refl

fields-IsAccepted : IsAccepted (λ s. false) config fields
fields-IsAccepted = (
  (refl, refl),
  record {
    class_known = refl;
    market_allowed = λ e. absurd (cc);
    options_allowed = λ e. absurd (cc);
    futures_allowed = λ e. absurd (cc);
    extended_allowed = λ e. absurd (cc);
    within_notional = (whole 50, inr (inl (refl, refl)), within_limit);
    estimated = λ e. absurd (cc);
  },
)

abbrev request : OrderRequest
request = order fields nil

-- A network on which every request times out.
abbrev lost : Reply ℕ
lost = timed_out "timeout"

abbrev write : Call
write = order_call (client lost) request

place_order_unknown_example :
    (t : TradeStationTrade ℕ) × (place_order (client lost) request fresh_trace
      ≡ (some (ok t), sent (network lost) write (λ n. "token") fresh_trace))
    × (reconcile_required t ≡ true)
    × (order_id t ≡ none)
place_order_unknown_example =
    place_order_unknown (client lost) request (λ n. "token") (λ n. "renewed") fresh_trace
      (fields-IsBuilt, tt) (fields-IsAccepted, tt) refl refl (λ n. refl) (λ n. refl) refl

place_order_guarded_example :
    Raises (place_order (client lost) request fresh_trace) fresh_trace
    ⊎ ((contains config.requested_scopes trade_scope ≡ true)
        × (true ≡ true)
        × AllOrders (IsAccepted (λ s. false) config) request
        × (place_order (client lost) request fresh_trace
            ≡ recorded
                (client lost)
                (single request)
                Json.null
                (post_order_write
                  (network lost)
                  "/orderexecution/orders"
                  Json.null
                  (some "request"))
                fresh_trace))
place_order_guarded_example =
    place_order_guarded (client lost) request fresh_trace (fields-IsBuilt, tt)

write_outcome_example : request_json (network lost) write fresh_trace ≡ (
  some (write_verdict (network lost) write lost),
  sent_once (network lost) write (λ n. "token") fresh_trace,
)
write_outcome_example =
    write_outcome (network lost) write (λ n. "token") (λ n. "renewed") fresh_trace refl (λ n. refl)
      (λ n. refl)

request_json_ends_example :
    let (r, s) = request_json (network lost) write fresh_trace in
    (is_some r ≡ true) × (length s.sent ≤ 4)
request_json_ends_example = request_json_ends (network lost) write fresh_trace

validate_order_for_config_iff_example :
    (validate_order_for_config (λ s. false) config request ≡ ok tt)
    ↔ AllOrders (IsAccepted (λ s. false) config) request
validate_order_for_config_iff_example =
    validate_order_for_config_iff (λ s. false) config request (fields-IsBuilt, tt)

get_order_pages_ends_example :
    let (r, s) = get_order_pages (client lost) "/orders" [] fresh_trace in
    (is_some r ≡ true) × (length s.sent ≤ 16)
get_order_pages_ends_example = get_order_pages_ends (client lost) "/orders" [] fresh_trace

cancel_order_guarded_example :
    let after = cancel_order (client lost) "SIM1" "42" fresh_trace in
    let looked = lookup (client lost) "SIM1" (strip "42") fresh_trace in
    (after.1 ≡ fresh_trace)
    ⊎ (after.1 ≡ looked.1)
    ⊎ ((contains config.requested_scopes trade_scope ≡ true)
        × (contains config.requested_scopes read_account_scope ≡ true)
        × (assert_can_cancel_orders config "SIM1" ≡ ok tt)
        × (is_blank (strip "42") ≡ false)
        × ((os : List OrderSnapshot) × (looked.0 ≡ some (ok os)) × IsOwned "SIM1" (strip "42") os)
        × (after
            ≡ delete_order_write
                (network lost)
                (order_path (client lost) (strip "42"))
                (some (strip "42"))
                looked.1))
cancel_order_guarded_example = cancel_order_guarded (client lost) "SIM1" "42" fresh_trace

-- A trade that was acknowledged with no order's ID.
abbrev placed : TradeStationTrade ℕ
placed = record {
  request = single request;
  payload = Json.null;
  payload_hash = "hash";
  ack = some (record { order_id = none; orders = []; errors = [] });
  latest_order = none;
  events = [];
  ambiguous_error = none;
}

-- An event and then a snapshot.
abbrev updates : List Update
updates = event end ∷ Update.snapshot snapshot ∷ []

reconcile_required-updated_example :
    (order_id (updated placed updates) ≡ last_named (order_id placed) updates)
    × (((is_ambiguous placed || has_errors placed.ack ≡ true)
          × (reconcile_required (updated placed updates) ≡ true))
        ⊎ ((is_ambiguous placed || has_errors placed.ack ≡ false)
            × (reconcile_required (updated placed updates) ≡ (
                if any is_snapshot updates
                then false
                else is_some placed.ack && is_none (order_id placed)))))
reconcile_required-updated_example = reconcile_required-updated placed updates

-- A network that refuses every connection.
abbrev down : Reply ℕ
down = failed "connection refused"

read_exhausted_example :
    let (r, s) = request_json (network down) (get_call "/brokerage/accounts") fresh_trace in
    (r ≡ some (err (retry_exhausted "connection refused")))
    × (length s.sent ≡ 3)
    × (length s.slept + 1 ≡ 3)
read_exhausted_example =
    read_exhausted (network down) (get_call "/brokerage/accounts") "connection refused"
      (λ n. "token") fresh_trace refl (omega arith) (λ n. refl) (λ n q. refl)
