-- ===== src/Tests/Writes.antt =====
-- The theorems on replacements and on groups of orders, applied to values.
use ts_api_wrapper.Base.{ℕ, ◌≡◌, ◌⊎◌, true, false, some, List, [], ◌∷◌, contains, All}
use ts_api_wrapper.Base.Text.{strip, is_blank}
use ts_api_wrapper.Base.Result.{ok}
use ts_api_wrapper.Json.{Json}
use ts_api_wrapper.Config.{trade_scope, read_account_scope, assert_can_replace_orders}
use ts_api_wrapper.Models.Enums.{normal}
use ts_api_wrapper.Models.Orders.{order, nil, AllOrders, GroupOrderRequest}
use ts_api_wrapper.Models.Replace.{OrderReplaceRequest}
use ts_api_wrapper.Models.Snapshots.{OrderSnapshot}
use ts_api_wrapper.Trade.{group}
use ts_api_wrapper.Validation.{validate_replace_for_config}
use ts_api_wrapper.Validation.Risk.{IsAccepted}
use ts_api_wrapper.Transport.{Reply, timed_out}
use ts_api_wrapper.Rest.Verbs.{post_order_write}
use ts_api_wrapper.Client.Coerce.{Replacement, legacy, coerce_replace_request}
use ts_api_wrapper.Client.Orders.{replace_order, place_order_group, recorded}
use ts_api_wrapper.Client.Orders.Guards.{Raises, IsOwned, lookup}
use ts_api_wrapper.Client.Orders.Groups.{HasCapabilities, place_order_group_guarded}
use ts_api_wrapper.Client.Orders.Replacing.{put_replacement, replace_order_guarded}
use ts_api_wrapper.Tests.{network, fresh_trace, config, client, capabilities, fields}
use ts_api_wrapper.Tests.Orders.{fields-IsBuilt}

-- A network on which every request times out.
abbrev lost : Reply ℕ
lost = timed_out "timeout"

abbrev change : Replacement
change = legacy (order fields nil)

replace_order_guarded_example :
    let after = replace_order (client lost) "SIM1" "42" change fresh_trace in
    let looked = lookup (client lost) "SIM1" (strip "42") fresh_trace in
    (after.1 ≡ fresh_trace)
    ⊎ (after.1 ≡ looked.1)
    ⊎ ((contains config.requested_scopes trade_scope ≡ true)
        × (contains config.requested_scopes read_account_scope ≡ true)
        × (true ≡ true)
        × (assert_can_replace_orders (λ s. false) config "SIM1" ≡ ok tt)
        × (is_blank (strip "42") ≡ false)
        × ((os : List OrderSnapshot) × (looked.0 ≡ some (ok os)) × IsOwned "SIM1" (strip "42") os)
        × ((request : OrderReplaceRequest) × (coerce_replace_request change ≡ ok request)
            × (validate_replace_for_config request config ≡ ok tt)
            × (after ≡ put_replacement (client lost) change (strip "42") request looked.1)))
replace_order_guarded_example = replace_order_guarded (client lost) "SIM1" "42" change fresh_trace

abbrev pair : GroupOrderRequest
pair = record {
  type = normal;
  orders = order fields nil ∷ order fields nil ∷ [];
  request_id = "group";
}

place_order_group_guarded_example :
    Raises (place_order_group (client lost) pair fresh_trace) fresh_trace
    ⊎ ((contains config.requested_scopes trade_scope ≡ true)
        × HasCapabilities capabilities pair
        × All (AllOrders (IsAccepted (λ s. false) config)) pair.orders
        × (place_order_group (client lost) pair fresh_trace
            ≡ recorded
                (client lost)
                (group pair)
                Json.null
                (post_order_write
                  (network lost)
                  "/orderexecution/ordergroups"
                  Json.null
                  (some "group"))
                fresh_trace))
place_order_group_guarded_example =
    place_order_group_guarded (client lost) pair fresh_trace
      ((fields-IsBuilt, tt), ((fields-IsBuilt, tt), tt))
