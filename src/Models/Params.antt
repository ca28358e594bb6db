-- ===== src/Models/Params.antt =====
-- The parameters of charts and option chains, and the legs of option requests (models.py). A date is
-- given as its `isoformat()`.
use ts_api_wrapper.Base.{
  String, Bool, false, ◌&&◌, not, Option, none, some, List, is_some, nat_eq, ◌^◌, ◌%◌,
}
use ts_api_wrapper.Base.Int.{ℤ, pos, leb_ℤ, neg_part}
use ts_api_wrapper.Base.Decimal.{Decimal, is_positive}
use ts_api_wrapper.Base.Text.{strip, is_blank}
use ts_api_wrapper.Base.Result.{Result, ok, ◌>>◌, ◌>>=◌, raise_if}
use ts_api_wrapper.Errors.{Error, value_error}
use ts_api_wrapper.Models.Enums.{BarUnit, BarSessionTemplate, TradeAction}
use ts_api_wrapper.Models.Options.{is_given_non_positive, is_empty}

-- `value is not None and value <= 0`
abbrev pub is_given_non_positive_int : Option ℤ → Bool
is_given_non_positive_int none = false
is_given_non_positive_int (some n) = leb_ℤ n (pos 0)

-- `_BaseBarChartParams`
pub record StreamBarChartParams : Type 0 where
  pub interval : ℤ
  pub unit : BarUnit
  pub bars_back : Option ℤ
  pub session_template : Option BarSessionTemplate

unfoldable pub stream_bar_chart_params : StreamBarChartParams → Result Error StreamBarChartParams
stream_bar_chart_params p = do
  raise_if (leb_ℤ p.interval (pos 0)) (value_error "bar interval must be positive")
  raise_if (is_given_non_positive_int p.bars_back) (value_error "bars_back must be positive")
  ok p

pub record BarChartParams : Type 0 where
  pub base : StreamBarChartParams
  pub first_date : Option String
  pub last_date : Option String
  pub start_date : Option String

unfoldable pub bar_chart_params : BarChartParams → Result Error BarChartParams
unfolding stream_bar_chart_params
bar_chart_params p = do
  _ ← stream_bar_chart_params p.base
  raise_if (is_some p.first_date && is_some p.base.bars_back)
      (value_error "first_date and bars_back are mutually exclusive")
  raise_if (is_some p.last_date && is_some p.start_date)
      (value_error "last_date and start_date are mutually exclusive")
  ok p

pub data OptionSpreadTypeName : Type 0 where
  single straddle vertical strangle ratio_back_1x2 ratio_back_1x3 ratio_back_2x3 butterfly
        iron_butterfly condor iron_condor covered collar combo calendar diagonal :
      OptionSpreadTypeName

pub data OptionType : Type 0 where
  all_options call put : OptionType

pub data StrikeRange : Type 0 where
  all_strikes itm otm : StrikeRange

pub record OptionChainStreamParams : Type 0 where
  pub expiration : Option String
  pub expiration2 : Option String
  pub strike_proximity : Option ℤ
  pub spread_type : Option OptionSpreadTypeName
  pub risk_free_rate : Option Decimal
  pub price_center : Option Decimal
  pub strike_interval : Option ℤ
  pub enable_greeks : Option Bool
  pub strike_range : Option StrikeRange
  pub option_type : Option OptionType

unfoldable pub option_chain_stream_params :
    OptionChainStreamParams → Result Error OptionChainStreamParams
option_chain_stream_params p = do
  raise_if (is_given_non_positive_int p.strike_proximity)
      (value_error "option-chain integer parameters must be positive")
  raise_if (is_given_non_positive p.price_center) (value_error "price_center must be positive")
  raise_if (is_given_non_positive_int p.strike_interval)
      (value_error "option-chain integer parameters must be positive")
  ok p

pub record OptionQuoteLeg : Type 0 where
  pub symbol : String
  pub ratio : Decimal

unfoldable pub option_quote_leg : OptionQuoteLeg → Result Error OptionQuoteLeg
option_quote_leg leg = do
  raise_if (is_blank (strip leg.symbol)) (value_error "option quote leg symbol must not be blank")
  raise_if (nat_eq leg.ratio.coefficient 0) (value_error "option quote leg ratio must not be zero")
  ok (record leg { symbol = strip leg.symbol })

-- `value == value.to_integral_value()`
abbrev pub is_integral : Decimal → Bool
is_integral d = nat_eq (d.coefficient % 10 ^ neg_part d.exponent) 0

pub record OptionRiskRewardLeg : Type 0 where
  pub symbol : String
  pub quantity : Decimal
  pub trade_action : TradeAction

unfoldable pub option_risk_reward_leg : OptionRiskRewardLeg → Result Error OptionRiskRewardLeg
option_risk_reward_leg leg = do
  raise_if (is_blank (strip leg.symbol)) (value_error "option leg symbol must not be blank")
  raise_if (not (is_positive leg.quantity)) (value_error "option leg quantity must be positive")
  raise_if (not (is_integral leg.quantity))
      (value_error "option leg quantity must be a whole number")
  ok (record leg { symbol = strip leg.symbol })

pub record OptionRiskRewardRequest : Type 0 where
  pub legs : List OptionRiskRewardLeg
  pub spread_price : Decimal

unfoldable pub option_risk_reward_request :
    OptionRiskRewardRequest → Result Error OptionRiskRewardRequest
option_risk_reward_request r = do
  raise_if (is_empty r.legs) (value_error "option risk/reward request requires at least one leg")
  ok r
