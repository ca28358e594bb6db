-- ===== src/Models/Replace.antt =====
-- Replacement requests (models.py: `OrderReplaceRequest`).
use ts_api_wrapper.Base.{Bool, false, ◌&&◌, not, Option, none, some, is_none}
use ts_api_wrapper.Base.Decimal.{Decimal}
use ts_api_wrapper.Base.Result.{Result, ok, ◌>>◌, raise_if}
use ts_api_wrapper.Errors.{Error, value_error}
use ts_api_wrapper.Models.Enums.{OrderType, is_market}
use ts_api_wrapper.Models.Options.{AdvancedOptionsReplace, is_given_non_positive}

pub record OrderReplaceRequest : Type 0 where
  pub advanced_options : Option AdvancedOptionsReplace
  pub limit_price : Option Decimal
  pub order_type : Option OrderType
  pub quantity : Option Decimal
  pub stop_price : Option Decimal

-- `order_type is not None and order_type is not OrderType.MARKET`
abbrev pub is_given_non_market : Option OrderType → Bool
is_given_non_market none = false
is_given_non_market (some t) = not (is_market t)

unfoldable pub order_replace_request : OrderReplaceRequest → Result Error OrderReplaceRequest
order_replace_request r = do
  raise_if (is_given_non_positive r.limit_price) (value_error "price must be positive")
  raise_if (is_given_non_positive r.quantity) (value_error "quantity must be positive")
  raise_if (is_given_non_positive r.stop_price) (value_error "price must be positive")
  raise_if
      (is_none r.advanced_options
        && is_none r.limit_price
        && is_none r.order_type
        && is_none r.quantity
        && is_none r.stop_price)
      (value_error "replace request requires at least one updated property")
  raise_if (is_given_non_market r.order_type)
      (value_error "replace request OrderType can only convert to Market")
  ok r
