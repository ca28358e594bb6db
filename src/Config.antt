-- ===== src/Config.antt =====
-- The configuration and its assertions (src/tradestation_api_wrapper/config.py). Constructing the
-- model is a function of the values given, every field included.
pub mod Scopes
pub mod Contract
use Prim.Native.Char.{Char, code}
use ts_api_wrapper.Base.{
  ℕ, String, Bool, true, false, ◌&&◌, ◌||◌, not, Option, none, some, List, [], ◌∷◌, ◌==◌, keep, map,
  contains, nat_eq, is_some, all,
}
use ts_api_wrapper.Base.Int.{ℤ}
use ts_api_wrapper.Base.Text.{strip, is_blank, rstrip_by, codes, occurs}
use ts_api_wrapper.Base.Decimal.{Decimal}
use ts_api_wrapper.Base.Result.{Result, ok, err, ◌>>=◌, ◌>>◌, raise_if, checked}
use ts_api_wrapper.Errors.{Error, value_error, configuration_error}
use ts_api_wrapper.Config.Scopes.{sorted_set, cleaned}

pub data Environment : Type 0 where
  sim live : Environment

abbrev pub sim_base_url : String
sim_base_url = "https://sim-api.tradestation.com/v3"

abbrev pub live_base_url : String
live_base_url = "https://api.tradestation.com/v3"

abbrev pub live_acknowledgement_text : String
live_acknowledgement_text = "I_ACKNOWLEDGE_LIVE_TRADESTATION_TRADING"

abbrev pub required_scopes : List String
required_scopes = "openid" ∷ "offline_access" ∷ []

abbrev pub trade_scope : String
trade_scope = "Trade"

abbrev pub market_data_scope : String
market_data_scope = "MarketData"

abbrev pub read_account_scope : String
read_account_scope = "ReadAccount"

abbrev pub option_spreads_scope : String
option_spreads_scope = "OptionSpreads"

abbrev pub matrix_scope : String
matrix_scope = "Matrix"

pub record TradeStationConfig : Type 0 where
  pub environment : Environment
  pub base_url : String
  pub client_id : String
  pub client_secret : Option String
  pub redirect_uri : String
  pub requested_scopes : List String
  pub account_allowlist : List String
  pub live_trading_enabled : Bool
  pub live_acknowledgement : Option String
  pub max_order_notional : Decimal
  pub max_symbol_position_notional : Decimal
  pub max_daily_loss : Decimal
  pub max_daily_order_count : ℤ
  pub allow_market_orders : Bool
  pub allow_options : Bool
  pub allow_futures : Bool
  pub allow_extended_hours : Bool
  pub kill_switch_file : Option String

is_slash : Char → Bool
is_slash c = nat_eq (code c) b'/'

unfoldable pub strip_trailing_slash : String → String
unfolding rstrip_by is_slash
strip_trailing_slash value = rstrip_by is_slash value

abbrev has_placeholder : String → Bool
has_placeholder value = occurs (codes "${") (codes value) || occurs (codes "}") (codes value)

unfoldable pub reject_unresolved_placeholders : String → Result Error String
reject_unresolved_placeholders value = do
  raise_if (has_placeholder value) (value_error "configuration contains unresolved placeholder")
  raise_if (is_blank (strip value)) (value_error "configuration value must not be blank")
  ok (strip value)

unfoldable pub reject_unresolved_secret_placeholder : Option String → Result Error (Option String)
reject_unresolved_secret_placeholder none = ok none
reject_unresolved_secret_placeholder (some secret) = do
  raise_if (has_placeholder secret) (value_error "configuration contains unresolved placeholder")
  ok (some secret)

-- `len(set(texts)) != len(texts)`
abbrev pub has_duplicates : List String → Bool
has_duplicates [] = false
has_duplicates (s ∷ ss) = contains ss s || has_duplicates ss

abbrev no_texts : List String → Bool
no_texts [] = true
no_texts (_ ∷ _) = false

unfoldable pub require_unique_account_allowlist : List String → Result Error (List String)
require_unique_account_allowlist value = do
  raise_if (no_texts (cleaned value))
      (value_error "account_allowlist must contain at least one account")
  raise_if (has_duplicates (cleaned value))
      (value_error "account_allowlist contains duplicate account IDs")
  ok (cleaned value)

unfoldable pub require_refresh_scopes : List String → Result Error (List String)
require_refresh_scopes value = do
  raise_if (not (all (contains (cleaned value)) required_scopes))
      (value_error "requested_scopes missing required scopes")
  ok (sorted_set (cleaned value))

abbrev pub is_sim : Environment → Bool
is_sim sim = true
is_sim live = false

abbrev is_acknowledged : Option String → Bool
is_acknowledged none = false
is_acknowledged (some text) = text == live_acknowledgement_text

unfoldable pub validate_environment_contract : TradeStationConfig → Result Error (Unit {0})
validate_environment_contract c = do
  raise_if (is_sim c.environment && not (c.base_url == sim_base_url))
      (value_error "SIM must use https://sim-api.tradestation.com/v3")
  raise_if (not (is_sim c.environment) && not (c.base_url == live_base_url))
      (value_error "LIVE must use https://api.tradestation.com/v3")
  raise_if (not (is_sim c.environment) && not c.live_trading_enabled)
      (value_error "LIVE requires live_trading_enabled=true")
  raise_if (not (is_sim c.environment) && not (is_acknowledged c.live_acknowledgement))
      (value_error "LIVE requires explicit live_acknowledgement")
  raise_if
      ((c.allow_market_orders || c.allow_options || c.allow_futures)
        && not (contains c.requested_scopes trade_scope))
      (value_error "trading enablement flags require requested_scopes to include Trade")

-- `TradeStationConfig(...)`
unfoldable pub trade_station_config : TradeStationConfig → Result Error TradeStationConfig
trade_station_config c = do
  client_id ← reject_unresolved_placeholders c.client_id
  client_secret ← reject_unresolved_secret_placeholder c.client_secret
  redirect_uri ← reject_unresolved_placeholders c.redirect_uri
  scopes ← require_refresh_scopes c.requested_scopes
  allowlist ← require_unique_account_allowlist c.account_allowlist
  checked validate_environment_contract (record c {
    base_url = strip_trailing_slash c.base_url;
    client_id = client_id;
    client_secret = client_secret;
    redirect_uri = redirect_uri;
    requested_scopes = scopes;
    account_allowlist = allowlist;
  })

unfoldable pub assert_account_allowed : TradeStationConfig → String → Result Error (Unit {0})
assert_account_allowed c account_id =
    raise_if (not (contains c.account_allowlist account_id))
      (configuration_error "account is not allowlisted")

abbrev pub is_active_switch : (String → Bool) → Option String → Bool
is_active_switch exists none = false
is_active_switch exists (some path) = exists path

-- `exists` answers for `Path.exists` at the moment of the call.
unfoldable pub assert_can_submit_orders :
    (String → Bool) → TradeStationConfig → String → Result Error (Unit {0})
unfolding assert_account_allowed
assert_can_submit_orders exists c account_id = do
  assert_account_allowed c account_id
  raise_if (is_active_switch exists c.kill_switch_file)
      (configuration_error "kill switch is active")

unfoldable pub assert_can_replace_orders :
    (String → Bool) → TradeStationConfig → String → Result Error (Unit {0})
unfolding assert_can_submit_orders
assert_can_replace_orders exists c account_id = assert_can_submit_orders exists c account_id

unfoldable pub assert_can_cancel_orders : TradeStationConfig → String → Result Error (Unit {0})
unfolding assert_account_allowed
assert_can_cancel_orders c account_id = assert_account_allowed c account_id

unfoldable pub assert_scope_requested : TradeStationConfig → String → Result Error (Unit {0})
assert_scope_requested c scope =
    raise_if (not (contains c.requested_scopes scope))
      (configuration_error "requested_scopes missing required scope")
