-- ===== src/Client/Orders/Replacing.antt =====
-- What must hold before a replacement is sent (client.py: `replace_order`).
use ts_api_wrapper.Base.{
  String, ◌≡◌, ap, ◌∙◌, ◌⊎◌, inl, inr, true, false, Option, some, List, contains,
}
use ts_api_wrapper.Base.Floats.{Floats}
use ts_api_wrapper.Base.Text.{strip, is_blank}
use ts_api_wrapper.Base.Result.{Result, ok}
use ts_api_wrapper.Errors.{Failure}
use ts_api_wrapper.Config.{trade_scope, read_account_scope, assert_can_replace_orders}
use ts_api_wrapper.Models.Replace.{OrderReplaceRequest}
use ts_api_wrapper.Models.Snapshots.{OrderSnapshot}
use ts_api_wrapper.Trade.{TradeStationTrade, replacement}
use ts_api_wrapper.Validation.{validate_replace_for_config}
use ts_api_wrapper.Rest.{Trace}
use ts_api_wrapper.Rest.Run.{Run, ◌>>=◌, ◌>>◌, locally}
use ts_api_wrapper.Rest.Verbs.{put_order_write}
use ts_api_wrapper.Client.{Client, require_scope, require_capability}
use ts_api_wrapper.Client.Coerce.{Replacement, coerce_replace_request, request_id_of}
use ts_api_wrapper.Client.Orders.{replace_order, recorded, order_path}
use ts_api_wrapper.Client.Orders.Guards.{
  locally-cases, guard-cases, require_scope_sound, require_capability_sound, lookup, IsOwned,
  look_up_cases,
}

module _ {fl : Floats} (client : Client fl) (requested : Replacement) where
  -- The one write of a replacement.
  abbrev pub put_replacement : String → OrderReplaceRequest → Run fl (TradeStationTrade fl.F)
  put_replacement cleaned request =
      recorded client (replacement request) (client.replace_order_payload request) (
        put_order_write client.rest (order_path client cleaned)
          (client.replace_order_payload request) (some (request_id_of requested cleaned)))

  abbrev replaced : String → Run fl (TradeStationTrade fl.F)
  replaced cleaned = locally (coerce_replace_request requested) >>= λ request.
      locally (validate_replace_for_config request client.config) >> put_replacement cleaned request

  -- The replacement is refused with nothing sent, or it is valid and sent.
  abbrev IsReplaced :
      String
      → Trace fl
      → Option (Result (Failure fl.F) (TradeStationTrade fl.F)) × Trace fl
      → Type 0
  IsReplaced cleaned s after =
      (after.1 ≡ s)
      ⊎ ((request : OrderReplaceRequest) × (coerce_replace_request requested ≡ ok request)
          × (validate_replace_for_config request client.config ≡ ok tt)
          × (after ≡ put_replacement cleaned request s))

  replaced-cases : (cleaned : String) (s : Trace fl) → IsReplaced cleaned s (replaced cleaned s)
  replaced-cases cleaned s = elim (locally-cases (coerce_replace_request requested) _ s) [
    | inl (e, h) ↦ inl (ap (λ p. p.1) h)
    | inr (request, made, h) ↦
        elim (guard-cases (validate_replace_for_config request client.config) _ s) [
          | inl (e, h') ↦ inl (ap (λ p. p.1) (h ∙ h'))
          | inr (valid, h') ↦ inr (request, made, valid, h ∙ h')
        ]
  ]

-- Replacing an order ends in one of two ways. Either what was asked of the environment is nothing,
-- or the look-up of the order alone; or the scopes were requested, the capability is there, the
-- account may replace orders, the order ID is not blank, the look-up found the order and did not find
-- it to be another account's, the replacement passes its risk checks, and the one write is the
-- replacement of that order.
pub replace_order_guarded :
    {fl : Floats} (client : Client fl) (account_id order_id : String) (requested : Replacement)
    (s : Trace fl)
    → let after = replace_order client account_id order_id requested s in
      let looked = lookup client account_id (strip order_id) s in
      (after.1 ≡ s)
      ⊎ (after.1 ≡ looked.1)
      ⊎ ((contains client.config.requested_scopes trade_scope ≡ true)
          × (contains client.config.requested_scopes read_account_scope ≡ true)
          × (client.capabilities.supports_replace ≡ true)
          × (assert_can_replace_orders client.exists client.config account_id ≡ ok tt)
          × (is_blank (strip order_id) ≡ false)
          × ((os : List OrderSnapshot) × (looked.0 ≡ some (ok os))
              × IsOwned account_id (strip order_id) os)
          × ((request : OrderReplaceRequest) × (coerce_replace_request requested ≡ ok request)
              × (validate_replace_for_config request client.config ≡ ok tt)
              × (after ≡ put_replacement client requested (strip order_id) request looked.1)))
unfolding replace_order
replace_order_guarded client account_id order_id requested s =
    elim (guard-cases (require_scope client trade_scope) _ s) [
      | inl (e, h1) ↦ inl (ap (λ p. p.1) h1)
      | inr (trade, h1) ↦ elim (guard-cases (require_scope client read_account_scope) _ s) [
        | inl (e, h2) ↦ inl (ap (λ p. p.1) (h1 ∙ h2))
        | inr (reads, h2) ↦
            elim (guard-cases (require_capability client.capabilities.supports_replace) _ s) [
              | inl (e, h3) ↦ inl (ap (λ p. p.1) (h1 ∙ h2 ∙ h3))
              | inr (able, h3) ↦
                  elim (guard-cases
                    (assert_can_replace_orders client.exists client.config account_id) _ s) [
                      | inl (e, h4) ↦ inl (ap (λ p. p.1) (h1 ∙ h2 ∙ h3 ∙ h4))
                      | inr (may, h4) ↦
                          let first = h1 ∙ h2 ∙ h3 ∙ h4 in
                          elim (look_up_cases client account_id order_id (replaced client requested)
                            s) [
                              | inl same ↦ inl (ap (λ p. p.1) first ∙ same)
                              | inr (inl alone) ↦ inr (inl (ap (λ p. p.1) first ∙ alone))
                              | inr (inr (given, owned, next)) ↦
                                  elim (replaced-cases client requested (strip order_id)
                                    (lookup client account_id (strip order_id) s).1) [
                                      | inl same ↦ inr (inl (ap (λ p. p.1) (first ∙ next) ∙ same))
                                      | inr (request, made, valid, last) ↦ inr (
                                          inr (
                                            require_scope_sound client trade_scope trade,
                                            require_scope_sound client read_account_scope reads,
                                            require_capability_sound _ able,
                                            may,
                                            given,
                                            owned,
                                            (request, made, valid, first ∙ next ∙ last),
                                          ))
                                    ]
                            ]
                    ]
            ]
      ]
    ]
