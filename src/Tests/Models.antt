-- ===== src/Tests/Models.antt =====
-- The theorems on requests, groups and configurations, applied to values.
use ts_api_wrapper.Base.{ℕ, String, ◌≡◌, refl, none, [], ◌∷◌}
use ts_api_wrapper.Base.Text.{strip}
use ts_api_wrapper.Base.Decimal.{whole}
use ts_api_wrapper.Base.Result.{ok, checked}
use ts_api_wrapper.Config.{
  trade_station_config, reject_unresolved_placeholders, reject_unresolved_secret_placeholder,
  require_refresh_scopes, require_unique_account_allowlist, validate_environment_contract,
  strip_trailing_slash,
}
use ts_api_wrapper.Config.Scopes.{cleaned, sorted_set}
use ts_api_wrapper.Config.Contract.{IsConfig, trade_station_config-IsConfig}
use ts_api_wrapper.Models.Enums.{day, buy, sell, oco, bracket, equity}
use ts_api_wrapper.Models.Built.{
  IsBuilt, IsGiven, order_request-IsBuilt, order_request_complete, stripped,
}
use ts_api_wrapper.Models.Orders.{
  order, Osos, nil, order_request, require_non_blank, require_positive_quantity,
  require_positive_price, validate_price_requirements,
}
use ts_api_wrapper.Builders.{Common, bracket_order_group, oco_exit_group}
use ts_api_wrapper.Builders.Groups.{
  IsOrderable, long_stock, limit_at, stop_at, bracket_order_group_builds, oco_exit_group_builds,
}
use ts_api_wrapper.Redaction.{Value, mapping, text, entry, end, redact}
use ts_api_wrapper.Redaction.Laws.{IsRedacted, redact-IsRedacted}
use ts_api_wrapper.Tests.{config, fields}

order_request-IsBuilt_example : IsBuilt fields × ◌≡◌ {A = Osos} nil nil
unfolding order_request require_non_blank require_positive_quantity require_positive_price checked
    validate_price_requirements strip
order_request-IsBuilt_example = order_request-IsBuilt fields fields nil nil refl

fields-IsGiven : IsGiven fields
unfolding strip
fields-IsGiven = record {
  account_given = refl;
  symbol_given = refl;
  quantity_positive = refl;
  limit_positive = refl;
  stop_positive = refl;
  estimate_positive = refl;
  prices = refl;
}

order_request_complete_example : order_request fields nil ≡ ok (order (stripped fields) nil)
order_request_complete_example = order_request_complete fields nil fields-IsGiven

trade_station_config-IsConfig_example : IsConfig config
unfolding trade_station_config reject_unresolved_placeholders strip
    reject_unresolved_secret_placeholder require_refresh_scopes cleaned
    require_unique_account_allowlist checked validate_environment_contract strip_trailing_slash
    sorted_set
trade_station_config-IsConfig_example = trade_station_config-IsConfig config config refl

abbrev common : Common
common = record {
  account_id = "SIM1";
  symbol = "MSFT";
  quantity = whole 10;
  route = none;
  asset_class = equity;
}

common-IsOrderable : IsOrderable common
unfolding strip
common-IsOrderable = record { account_given = refl; symbol_given = refl; quantity_positive = refl }

abbrev ids : ℕ → String
ids n = "id"

bracket_order_group_builds_example :
    bracket_order_group common buy (whole 50) (whole 60) (whole 40) day day none ids
    ≡ ok (record {
      type = bracket;
      orders =
          limit_at common buy (whole 50) day "id"
          ∷ limit_at common sell (whole 60) day "id"
          ∷ stop_at common sell (whole 40) day "id"
          ∷ [];
      request_id = "id";
    })
bracket_order_group_builds_example =
    bracket_order_group_builds common buy sell (whole 50) (whole 60) (whole 40) day day none ids
      common-IsOrderable long_stock refl refl refl refl refl

oco_exit_group_builds_example :
    oco_exit_group common sell (whole 60) (whole 40) day ids
    ≡ ok (record {
      type = oco;
      orders =
          limit_at common sell (whole 60) day "id" ∷ stop_at common sell (whole 40) day "id" ∷ [];
      request_id = "id";
    })
oco_exit_group_builds_example =
    oco_exit_group_builds common sell (whole 60) (whole 40) day ids common-IsOrderable refl refl
      refl

abbrev headers : Value
headers = mapping (entry "Authorization" (text "Bearer token") (entry "Accept" (text "json") end))

redact-IsRedacted_example : IsRedacted (λ s. s) headers (redact (λ s. s) headers)
redact-IsRedacted_example = redact-IsRedacted (λ s. s) headers
