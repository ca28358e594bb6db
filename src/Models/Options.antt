-- ===== src/Models/Options.antt =====
-- The parts of an order request: time in force, trailing stop, advanced options (models.py).
use ts_api_wrapper.Base.{
  String, Bool, true, false, ◌&&◌, not, Option, none, some, List, is_none, is_some,
}
use ts_api_wrapper.Base.Decimal.{Decimal, is_positive}
use ts_api_wrapper.Base.DateTime.{DateTime}
use ts_api_wrapper.Base.Result.{Result, ok, ◌>>◌, raise_if}
use ts_api_wrapper.Errors.{Error, value_error}
use ts_api_wrapper.Json.{Fields}
use ts_api_wrapper.Models.Enums.{Duration, is_dated}

-- `value is not None and value <= 0`
abbrev pub is_given_non_positive : Option Decimal → Bool
is_given_non_positive none = false
is_given_non_positive (some d) = not (is_positive d)

pub record TimeInForce : Type 0 where
  pub duration : Duration
  pub expiration : Option DateTime

unfoldable pub time_in_force : TimeInForce → Result Error TimeInForce
time_in_force t = do
  raise_if (is_dated t.duration && is_none t.expiration)
      (value_error "GTD durations require Expiration")
  ok t

pub record TrailingStop : Type 0 where
  pub amount : Option Decimal
  pub percent : Option Decimal

unfoldable pub trailing_stop : TrailingStop → Result Error TrailingStop
trailing_stop t = do
  raise_if (is_none t.amount && is_none t.percent)
      (value_error "trailing stop requires Amount or Percent")
  raise_if (is_some t.amount && is_some t.percent)
      (value_error "trailing stop Amount and Percent are mutually exclusive")
  raise_if (is_given_non_positive t.amount) (value_error "trailing stop Amount must be positive")
  raise_if (is_given_non_positive t.percent) (value_error "trailing stop Percent must be positive")
  ok t

pub record AdvancedOptions : Type 0 where
  pub add_liquidity : Option Bool
  pub all_or_none : Option Bool
  pub book_only : Option Bool
  pub discretionary_price : Option Decimal
  pub market_activation_rules : List Fields
  pub non_display : Option Bool
  pub peg_value : Option String
  pub show_only_quantity : Option Decimal
  pub time_activation_rules : List Fields
  pub trailing_stop : Option TrailingStop

unfoldable pub advanced_options : AdvancedOptions → Result Error AdvancedOptions
advanced_options a = do
  raise_if (is_given_non_positive a.discretionary_price)
      (value_error "advanced option decimal values must be positive")
  raise_if (is_given_non_positive a.show_only_quantity)
      (value_error "advanced option decimal values must be positive")
  ok a

pub record ActivationRulesReplace : Type 0 where
  pub clear_all : Option Bool
  pub rules : List Fields

pub record AdvancedOptionsReplace : Type 0 where
  pub market_activation_rules : Option ActivationRulesReplace
  pub show_only_quantity : Option Decimal
  pub time_activation_rules : Option ActivationRulesReplace
  pub trailing_stop : Option TrailingStop

-- `not self.clear_all`
abbrev pub is_falsy : Option Bool → Bool
is_falsy none = true
is_falsy (some b) = not b

abbrev pub is_empty {ℓ} : {A : Type ℓ} → List A → Bool
is_empty List.[] = true
is_empty (List.◌∷◌ _ _) = false

unfoldable pub activation_rules_replace :
    ActivationRulesReplace → Result Error ActivationRulesReplace
activation_rules_replace r = do
  raise_if (is_falsy r.clear_all && is_empty r.rules)
      (value_error "replace activation rules require ClearAll or Rules")
  ok r

unfoldable pub advanced_options_replace :
    AdvancedOptionsReplace → Result Error AdvancedOptionsReplace
advanced_options_replace a = do
  raise_if (is_given_non_positive a.show_only_quantity)
      (value_error "ShowOnlyQuantity must be positive")
  raise_if
      (is_none a.market_activation_rules
        && is_none a.show_only_quantity
        && is_none a.time_activation_rules
        && is_none a.trailing_stop)
      (value_error "replace advanced options require at least one option")
  ok a
