-- ===== src/Client/Coerce.antt =====
-- What a replacement asks for (client.py: `_coerce_replace_request`).
use ts_api_wrapper.Base.{String, true, false, Option, none, some, List, [], ◌∷◌}
use ts_api_wrapper.Base.Result.{Result, ok, ◌>>=◌}
use ts_api_wrapper.Errors.{Error}
use ts_api_wrapper.Json.{Fields}
use ts_api_wrapper.Models.Enums.{OrderType, is_market}
use ts_api_wrapper.Models.Options.{
  AdvancedOptions, AdvancedOptionsReplace, ActivationRulesReplace, activation_rules_replace,
  advanced_options_replace,
}
use ts_api_wrapper.Models.Orders.{OrderRequest, order, fields}
use ts_api_wrapper.Models.Replace.{OrderReplaceRequest, order_replace_request}

-- `OrderReplaceRequest | OrderRequest`
pub data Replacement : Type 0 where
  explicit : OrderReplaceRequest → Replacement
  legacy : OrderRequest → Replacement

-- `ActivationRulesReplace(Rules=rules)` if there are any
abbrev rules_replace : List Fields → Result Error (Option ActivationRulesReplace)
rules_replace [] = ok none
rules_replace (r ∷ rs) = do
  rules ← activation_rules_replace (record { clear_all = none; rules = r ∷ rs })
  ok (some rules)

unfoldable pub coerce_replace_advanced_options :
    Option AdvancedOptions → Result Error (Option AdvancedOptionsReplace)
coerce_replace_advanced_options none = ok none
coerce_replace_advanced_options (some a) = do
  market_rules ← rules_replace a.market_activation_rules
  time_rules ← rules_replace a.time_activation_rules
  options ← advanced_options_replace (record {
    market_activation_rules = market_rules;
    show_only_quantity = a.show_only_quantity;
    time_activation_rules = time_rules;
    trailing_stop = a.trailing_stop;
  })
  ok (some options)

abbrev market_only : OrderType → Option OrderType
market_only t = elim (is_market t) [ true ↦ some t | false ↦ none ]

unfoldable pub coerce_replace_request : Replacement → Result Error OrderReplaceRequest
unfolding coerce_replace_advanced_options
coerce_replace_request (explicit r) = ok r
coerce_replace_request (legacy (order f _)) = do
  options ← coerce_replace_advanced_options f.advanced_options
  order_replace_request (record {
    advanced_options = options;
    limit_price = f.limit_price;
    order_type = market_only f.order_type;
    quantity = some f.quantity;
    stop_price = f.stop_price;
  })

abbrev pub request_id_of : Replacement → String → String
request_id_of (explicit _) order_id = order_id
request_id_of (legacy o) _ = (fields o).request_id
