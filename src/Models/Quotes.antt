-- ===== src/Models/Quotes.antt =====
-- Market data that the broker returns (models.py). Reading one from JSON is pydantic's work. The fields
-- `open_` and `type_` are `opening` and `kind` here.
use ts_api_wrapper.Base.{
  String, Bool, Option, none, some, List, nat_eq, ◌%◌, ◌/◌, ◌*◌, if◌then◌else◌,
}
use ts_api_wrapper.Base.Int.{negsuc, ◌+ℤ◌}
use ts_api_wrapper.Base.DateTime.{DateTime}
use ts_api_wrapper.Base.Decimal.{Decimal, add_Decimal, round_to_context}

pub record QuoteSnapshot : Type 0 where
  pub symbol : String
  pub bid : Option Decimal
  pub bid_size : Option Decimal
  pub ask : Option Decimal
  pub ask_size : Option Decimal
  pub last : Option Decimal
  pub last_size : Option Decimal
  pub opening : Option Decimal
  pub high : Option Decimal
  pub low : Option Decimal
  pub close : Option Decimal
  pub previous_close : Option Decimal
  pub volume : Option Decimal
  pub trade_time : Option DateTime

pub record SymbolDetail : Type 0 where
  pub symbol : String
  pub asset_type : Option String
  pub country : Option String
  pub currency : Option String
  pub description : Option String
  pub exchange : Option String
  pub root : Option String
  pub underlying : Option String
  pub expiration_date : Option DateTime
  pub option_type : Option String
  pub strike_price : Option Decimal

pub record OptionExpiration : Type 0 where
  pub date : DateTime
  pub root : Option String
  pub kind : Option String

pub record OptionSpreadType : Type 0 where
  pub name : String
  pub expiration_interval : Option Bool
  pub strike_interval : Option Bool

pub record OptionStrikes : Type 0 where
  pub spread_type : Option String
  pub strikes : List (List Decimal)

pub record OptionRiskReward : Type 0 where
  pub adjusted_max_gain : Option Decimal
  pub adjusted_max_loss : Option Decimal
  pub breakeven_points : List Decimal
  pub max_gain_is_infinite : Option Bool
  pub max_loss_is_infinite : Option Bool

pub record BarSnapshot : Type 0 where
  pub timestamp : Option DateTime
  pub opening : Option Decimal
  pub high : Option Decimal
  pub low : Option Decimal
  pub close : Option Decimal
  pub total_volume : Option Decimal
  pub bar_status : Option String
  pub is_realtime : Option Bool
  pub is_end_of_history : Option Bool

-- `a / Decimal("2")`
unfoldable pub halved : Decimal → Decimal
halved a =
    if nat_eq (a.coefficient % 2) 0
    then record a { coefficient = a.coefficient / 2 }
    else round_to_context
        (record a { coefficient = a.coefficient * 5; exponent = a.exponent +ℤ negsuc 0 })

abbrev middle : Option Decimal → Option Decimal → Option Decimal
middle (some bid) (some ask) = some (halved (add_Decimal bid ask))
middle _ _ = none

unfoldable pub midpoint : QuoteSnapshot → Option Decimal
unfolding halved
midpoint q = middle q.bid q.ask
