-- ===== src/Models/Accounts.antt =====
-- Accounts and balances that the broker returns (models.py). Reading one from JSON is pydantic's work.
use ts_api_wrapper.Base.{String, Bool, Option, List}
use ts_api_wrapper.Base.Int.{ℤ}
use ts_api_wrapper.Base.Decimal.{Decimal}

pub record AccountDetail : Type 0 where
  pub day_trading_qualified : Option Bool
  pub enrolled_in_reg_t_program : Option Bool
  pub is_stock_locate_eligible : Option Bool
  pub option_approval_level : Option ℤ
  pub pattern_day_trader : Option Bool
  pub requires_buying_power_warning : Option Bool

pub record AccountSnapshot : Type 0 where
  pub account_id : String
  pub status : Option String
  pub account_type : Option String
  pub account_detail : Option AccountDetail
  pub alias : Option String
  pub alt_id : Option String
  pub currency : Option String

pub record BalanceDetail : Type 0 where
  pub cost_of_positions : Option Decimal
  pub day_trade_excess : Option Decimal
  pub day_trade_margin : Option Decimal
  pub day_trade_open_order_margin : Option Decimal
  pub day_trades : Option Decimal
  pub initial_margin : Option Decimal
  pub maintenance_margin : Option Decimal
  pub maintenance_rate : Option Decimal
  pub margin_requirement : Option Decimal
  pub open_order_margin : Option Decimal
  pub option_buying_power : Option Decimal
  pub options_market_value : Option Decimal
  pub overnight_buying_power : Option Decimal
  pub realized_profit_loss : Option Decimal
  pub required_margin : Option Decimal
  pub security_on_deposit : Option Decimal
  pub today_real_time_trade_equity : Option Decimal
  pub trade_equity : Option Decimal
  pub unrealized_profit_loss : Option Decimal
  pub unsettled_funds : Option Decimal

pub record CurrencyDetail : Type 0 where
  pub account_conversion_rate : Option Decimal
  pub account_margin_requirement : Option Decimal
  pub cash_balance : Option Decimal
  pub commission : Option Decimal
  pub currency : Option String
  pub initial_margin : Option Decimal
  pub maintenance_margin : Option Decimal
  pub realized_profit_loss : Option Decimal
  pub unrealized_profit_loss : Option Decimal

pub record BalanceSnapshot : Type 0 where
  pub account_id : String
  pub account_type : Option String
  pub balance_detail : Option BalanceDetail
  pub buying_power : Option Decimal
  pub equity : Option Decimal
  pub todays_profit_loss : Option Decimal
  pub cash_balance : Option Decimal
  pub commission : Option Decimal
  pub currency_details : List CurrencyDetail
  pub market_value : Option Decimal
  pub uncleared_deposit : Option Decimal

pub record BodBalanceDetail : Type 0 where
  pub account_balance : Option Decimal
  pub cash_available_to_withdraw : Option Decimal
  pub day_trades : Option Decimal
  pub day_trading_marginable_buying_power : Option Decimal
  pub equity : Option Decimal
  pub net_cash : Option Decimal
  pub open_trade_equity : Option Decimal
  pub option_buying_power : Option Decimal
  pub option_value : Option Decimal
  pub overnight_buying_power : Option Decimal
  pub security_on_deposit : Option Decimal

pub record BodCurrencyDetail : Type 0 where
  pub account_margin_requirement : Option Decimal
  pub account_open_trade_equity : Option Decimal
  pub account_securities : Option Decimal
  pub cash_balance : Option Decimal
  pub currency : Option String
  pub margin_requirement : Option Decimal
  pub open_trade_equity : Option Decimal
  pub securities : Option Decimal

pub record BodBalanceSnapshot : Type 0 where
  pub account_id : String
  pub account_type : Option String
  pub balance_detail : Option BodBalanceDetail
  pub currency_details : List BodCurrencyDetail
