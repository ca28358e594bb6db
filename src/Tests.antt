-- ===== src/Tests.antt =====
-- Values for the tests: a simulated account, an order, and a network that times out.
pub mod Orders
pub mod Models
pub mod Rates
pub mod Writes
pub mod Streams
pub mod Matching
pub mod Auth
pub mod Events
pub mod Reads
use ts_api_wrapper.Base.{
  ℕ, suc, ◌+◌, ◌-◌, ◌*◌, ◌^◌, ltb, leb, String, ◌≡◌, refl, Bool, true, false, not, Option, none,
  some, List, [], ◌∷◌, arith,
}
use ts_api_wrapper.Base.Int.{ℤ, pos, negsuc, ◌+ℤ◌, ◌-ℤ◌, leb_ℤ}
use ts_api_wrapper.Base.Decimal.{Decimal, whole}
use ts_api_wrapper.Base.Floats.{Floats}
use ts_api_wrapper.Base.Result.{Result, ok, err}
use ts_api_wrapper.Errors.{Failure}
use ts_api_wrapper.Json.{Json, Fields}
use ts_api_wrapper.Config.{TradeStationConfig, sim, sim_base_url}
use ts_api_wrapper.Models.Enums.{equity, buy, limit, day}
use ts_api_wrapper.Models.Orders.{OrderFields, OrderRequest, order, nil}
use ts_api_wrapper.Models.Snapshots.{OrderSnapshot, OrderAck}
use ts_api_wrapper.RateLimit.{RetryPolicy, StreamReconnectPolicy}
use ts_api_wrapper.Redaction.{Value}
use ts_api_wrapper.Rest.{Env, Trace}
use ts_api_wrapper.Transport.{HttpRequest, HttpResponse, Reply, responded, timed_out}
use ts_api_wrapper.Client.{Client, TradeStationCapabilities}

pub lt_asymm_ℕ : (a b : ℕ) → ltb a b ≡ true → ltb b a ≡ false
lt_asymm_ℕ a b h = ground arith

pub lt_irrefl_ℕ : (a : ℕ) → ltb a a ≡ false
lt_irrefl_ℕ a = ground arith

-- Seconds that are whole and not negative.
abbrev pub seconds : Floats
seconds = record {
  F = ℕ;
  nought = 0;
  lt = ltb;
  le = leb;
  plus = λ a b. a + b;
  times = λ a b. a * b;
  minus = λ a. 0;
  scale = λ a n. a * 2 ^ n;
  uniform = λ n lo hi. hi;
  is_finite = λ a. true;
  parse_float = λ s. some 7;
  seconds_until = λ s. none;
  lt_irrefl = lt_irrefl_ℕ;
  lt_asymm = lt_asymm_ℕ;
}

abbrev pub policy : RetryPolicy seconds
policy = record {
  max_attempts = 3;
  base_delay_seconds = 1;
  max_delay_seconds = 30;
  jitter_ratio = 0;
  retry_after_ceiling_seconds = 5;
}

-- A network on which every request is answered in the same way.
abbrev pub network : Reply ℕ → Env seconds
network reply = record {
  base_url = sim_base_url;
  policy = policy;
  token = λ n. ok "token";
  refresh = λ n. ok "renewed";
  send = λ n q. reply;
  loads = λ s. none;
  to_text = λ v. "value";
  redact_text = λ s. s;
  show = λ v. "value";
}

abbrev pub fresh_trace : Trace seconds
fresh_trace = record { tokens = 0; refreshes = 0; sent = []; slept = [] }

abbrev pub config : TradeStationConfig
config = record {
  environment = sim;
  base_url = sim_base_url;
  client_id = "client";
  client_secret = none;
  redirect_uri = "http://localhost";
  requested_scopes = "ReadAccount" ∷ "Trade" ∷ "offline_access" ∷ "openid" ∷ [];
  account_allowlist = "SIM1" ∷ [];
  live_trading_enabled = false;
  live_acknowledgement = none;
  max_order_notional = whole 1000;
  max_symbol_position_notional = whole 1000;
  max_daily_loss = whole 100;
  max_daily_order_count = pos 10;
  allow_market_orders = false;
  allow_options = false;
  allow_futures = false;
  allow_extended_hours = false;
  kill_switch_file = none;
}

abbrev pub capabilities : TradeStationCapabilities
capabilities = record {
  supports_single_orders = true;
  supports_order_confirm = true;
  supports_group_orders = true;
  supports_group_confirm = true;
  supports_oco = true;
  supports_bracket = true;
  supports_replace = true;
  supports_stream_orders = true;
  supports_stream_positions = true;
  supports_quote_stream = true;
  supports_bar_stream = true;
  supports_market_depth_stream = true;
  supports_option_streams = true;
}

abbrev pub snapshot : OrderSnapshot
snapshot = record {
  account_id = some "SIM1";
  order_id = "42";
  status = some "ACK";
  symbol = some "MSFT";
  order_type = some limit;
  limit_price = some (whole 50);
  stop_price = none;
  opened_at = none;
  legs = [];
}

abbrev pub client : Reply ℕ → Client seconds
client reply = record {
  rest = network reply;
  config = config;
  capabilities = capabilities;
  max_order_pages = 4;
  exists = λ s. false;
  order_payload = λ o. Json.null;
  group_order_payload = λ g. Json.null;
  replace_order_payload = λ r. Json.null;
  payload_hash = λ v. "hash";
  order_ack = λ fs. ok (record { order_id = none; orders = []; errors = [] });
  order_snapshot = λ v. ok snapshot;
  quote = λ s. s;
  urlencode = λ params. "query";
  format_decimal = λ d. "decimal";
  characters = λ s. [];
}

abbrev pub fields : OrderFields
fields = record {
  account_id = "SIM1";
  symbol = "MSFT";
  quantity = whole 10;
  order_type = limit;
  trade_action = buy;
  time_in_force = record { duration = day; expiration = none };
  limit_price = some (whole 50);
  stop_price = none;
  route = none;
  advanced_options = none;
  order_confirm_id = none;
  request_id = "request";
  asset_class = equity;
  client_order_id = none;
  estimated_price = none;
}
