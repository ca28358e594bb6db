-- ===== src/Client/Orders/Groups.antt =====
-- What must hold before a group of orders is sent (client.py: `place_order_group`).
use ts_api_wrapper.Base.{
  String, ◌≡◌, refl, ◌∙◌, ◌↔◌, ◌⊎◌, inl, inr, Bool, true, some, List, [], ◌∷◌, contains, All, arith,
}
use ts_api_wrapper.Base.Floats.{Floats}
use ts_api_wrapper.Base.Result.{ok, >>-eq-ok_iff}
use ts_api_wrapper.Config.{TradeStationConfig, trade_scope}
use ts_api_wrapper.Models.Enums.{is_oco, is_bracket}
use ts_api_wrapper.Models.Built.{IsBuilt}
use ts_api_wrapper.Models.Orders.{OrderRequest, AllOrders, GroupOrderRequest}
use ts_api_wrapper.Trade.{group}
use ts_api_wrapper.Validation.{
  validate_order_for_config, validate_orders_for_config, validate_group_for_config,
}
use ts_api_wrapper.Validation.Risk.{IsAccepted, validate_order_for_config_iff}
use ts_api_wrapper.Rest.{Trace}
use ts_api_wrapper.Rest.Verbs.{post_order_write}
use ts_api_wrapper.Client.{
  Client, TradeStationCapabilities, require_scope, require_group_capabilities,
}
use ts_api_wrapper.Client.Orders.{place_order_group, recorded}
use ts_api_wrapper.Client.Orders.Guards.{Raises, guard-cases, require_scope_sound}

validate_orders_iff :
    (exists : String → Bool) (c : TradeStationConfig) (os : List OrderRequest)
    → All (AllOrders IsBuilt) os
    → (validate_orders_for_config exists c os ≡ ok tt) ↔ All (AllOrders (IsAccepted exists c)) os
unfolding validate_orders_for_config
validate_orders_iff exists c [] b = (λ h. tt, λ h. refl)
validate_orders_iff exists c (o ∷ os) (b, bs) =
    let one = validate_order_for_config_iff exists c o b in
    let all_others = validate_orders_iff exists c os bs in
    let both =
      >>-eq-ok_iff (validate_order_for_config exists c o)
        (validate_orders_for_config exists c os) in
    (
      λ h. (one.0 (both.0 h).0, all_others.0 (both.0 h).1),
      λ (h, hs). both.1 (one.1 h, all_others.1 hs),
    )

-- The capabilities that a group needs.
abbrev pub HasCapabilities : TradeStationCapabilities → GroupOrderRequest → Type 0
HasCapabilities caps g =
    (caps.supports_group_orders ≡ true)
    × (is_oco g.type ≡ true → caps.supports_oco ≡ true)
    × (is_bracket g.type ≡ true → caps.supports_bracket ≡ true)

capabilities_sound :
    (caps : TradeStationCapabilities) (g : GroupOrderRequest)
    → require_group_capabilities caps g ≡ ok tt
    → HasCapabilities caps g
unfolding require_group_capabilities
capabilities_sound caps g h = (ground arith, λ e. ground arith, λ e. ground arith)

-- Placing a group of built orders either raises an exception of its own with nothing asked of the
-- token provider or the network, or the trade scope was requested, the capabilities that the group
-- needs are there and every order of it, the triggered ones included, is accepted by the risk checks,
-- and what is sent and returned is the one write of the group.
pub place_order_group_guarded :
    {fl : Floats} (client : Client fl) (g : GroupOrderRequest) (s : Trace fl)
    → All (AllOrders IsBuilt) g.orders
    → Raises (place_order_group client g s) s
      ⊎ ((contains client.config.requested_scopes trade_scope ≡ true)
          × HasCapabilities client.capabilities g
          × All (AllOrders (IsAccepted client.exists client.config)) g.orders
          × (place_order_group client g s
              ≡ recorded client
                  (group g)
                  (client.group_order_payload g)
                  (post_order_write client.rest "/orderexecution/ordergroups"
                    (client.group_order_payload g)
                    (some g.request_id))
                  s))
unfolding place_order_group validate_group_for_config
place_order_group_guarded client g s b = elim (guard-cases (require_scope client trade_scope) _ s) [
  | inl (e, h) ↦ inl (e, h)
  | inr (scope, h) ↦ elim (guard-cases (require_group_capabilities client.capabilities g) _ s) [
    | inl (e, h') ↦ inl (e, h ∙ h')
    | inr (able, h') ↦
        elim (guard-cases (validate_group_for_config client.exists client.config g) _ s) [
          | inl (e, h'') ↦ inl (e, h ∙ h' ∙ h'')
          | inr (valid, h'') ↦ inr (
            require_scope_sound client trade_scope scope,
            capabilities_sound client.capabilities g able,
            (validate_orders_iff client.exists client.config g.orders b).0 valid,
            h ∙ h' ∙ h'',
          )
        ]
  ]
]
