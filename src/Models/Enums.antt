-- ===== src/Models/Enums.antt =====
-- The enumerations of the request models (models.py).
use ts_api_wrapper.Base.{String, Bool, true, false}

pub data AssetClass : Type 0 where
  equity etf option future index unknown : AssetClass

pub data TradeAction : Type 0 where
  buy sell buy_to_cover sell_short buy_to_open buy_to_close sell_to_open sell_to_close : TradeAction

pub data OrderType : Type 0 where
  limit stop_market market stop_limit : OrderType

pub data Duration : Type 0 where
  day day_plus gtc gtc_plus gtd gtd_plus at_open at_close ioc fok minute_1 minute_3 minute_5 :
      Duration

pub data GroupType : Type 0 where
  normal oco bracket : GroupType

pub data BarUnit : Type 0 where
  minute daily weekly monthly : BarUnit

pub data BarSessionTemplate : Type 0 where
  useq_pre useq_post useq_pre_and_post useq_24_hour default : BarSessionTemplate

-- The value of a trade action on the wire.
unfoldable pub value : TradeAction → String
value buy = "BUY"
value sell = "SELL"
value buy_to_cover = "BUYTOCOVER"
value sell_short = "SELLSHORT"
value buy_to_open = "BUYTOOPEN"
value buy_to_close = "BUYTOCLOSE"
value sell_to_open = "SELLTOOPEN"
value sell_to_close = "SELLTOCLOSE"

abbrev pub is_market : OrderType → Bool
is_market market = true
is_market _ = false

abbrev pub is_limit : OrderType → Bool
is_limit limit = true
is_limit _ = false

abbrev pub is_stop_market : OrderType → Bool
is_stop_market stop_market = true
is_stop_market _ = false

abbrev pub is_stop_limit : OrderType → Bool
is_stop_limit stop_limit = true
is_stop_limit _ = false

-- `a == b` for order types
abbrev pub eqb_OrderType : OrderType → OrderType → Bool
eqb_OrderType limit b = is_limit b
eqb_OrderType stop_market b = is_stop_market b
eqb_OrderType market b = is_market b
eqb_OrderType stop_limit b = is_stop_limit b

abbrev pub is_unknown : AssetClass → Bool
is_unknown unknown = true
is_unknown _ = false

abbrev pub is_option : AssetClass → Bool
is_option option = true
is_option _ = false

abbrev pub is_future : AssetClass → Bool
is_future future = true
is_future _ = false

-- `duration in {Duration.GTD, Duration.GTD_PLUS}`
abbrev pub is_dated : Duration → Bool
is_dated gtd = true
is_dated gtd_plus = true
is_dated _ = false

abbrev pub is_oco : GroupType → Bool
is_oco oco = true
is_oco _ = false

abbrev pub is_bracket : GroupType → Bool
is_bracket bracket = true
is_bracket _ = false
