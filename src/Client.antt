-- ===== src/Client.antt =====
-- The client's checks and paths (src/tradestation_api_wrapper/client.py). What the client is made of
-- and what it takes from pydantic, urllib and hashlib is the record `Client`.
pub mod Coerce
pub mod Orders
pub mod Pages
pub mod Payload
pub mod Reads
pub mod Market
pub mod Streams
use ts_api_wrapper.Base.{
  ℕ, String, Bool, true, false, ◌&&◌, not, Option, none, some, List, [], ◌∷◌, map, keep, leb, ltb,
  length,
}
use Prim.Native.String.{◌++◌}
use ts_api_wrapper.Base.Int.{ℤ, pos, leb_ℤ}
use ts_api_wrapper.Base.Floats.{Floats}
use ts_api_wrapper.Base.Decimal.{Decimal}
use ts_api_wrapper.Base.Text.{strip, is_blank}
use ts_api_wrapper.Base.Result.{Result, ok, ◌>>=◌, ◌>>◌, raise_if}
use ts_api_wrapper.Errors.{Error, value_error, capability_error}
use ts_api_wrapper.Json.{Json, Fields}
use ts_api_wrapper.Config.{TradeStationConfig, assert_account_allowed, assert_scope_requested}
use ts_api_wrapper.Models.Enums.{is_oco, is_bracket}
use ts_api_wrapper.Models.Orders.{OrderRequest, GroupOrderRequest}
use ts_api_wrapper.Models.Replace.{OrderReplaceRequest}
use ts_api_wrapper.Models.Snapshots.{OrderSnapshot, OrderAck}
use ts_api_wrapper.Rest.{Env}

-- `TradeStationCapabilities`, those that the client asks for
pub record TradeStationCapabilities : Type 0 where
  pub supports_single_orders : Bool
  pub supports_order_confirm : Bool
  pub supports_group_orders : Bool
  pub supports_group_confirm : Bool
  pub supports_oco : Bool
  pub supports_bracket : Bool
  pub supports_replace : Bool
  pub supports_stream_orders : Bool
  pub supports_stream_positions : Bool
  pub supports_quote_stream : Bool
  pub supports_bar_stream : Bool
  pub supports_market_depth_stream : Bool
  pub supports_option_streams : Bool

-- A value of a query, as `_query_value` tells them apart: the `value` of an enumeration is a text, and
-- a date or datetime is given as its `isoformat()`.
pub data QueryValue : Type 0 where
  text_value : String → QueryValue
  flag_value : Bool → QueryValue
  date_value : String → QueryValue
  decimal_value : Decimal → QueryValue
  int_value : ℤ → QueryValue

-- A value that `urlencode` is given.
pub data Encoded : Type 0 where
  text_part : String → Encoded
  int_part : ℤ → Encoded

abbrev pub Params : Type 0
Params = List (String × Option QueryValue)

pub record Client (fl : Floats) : Type 0 where
  pub rest : Env fl
  pub config : TradeStationConfig
  pub capabilities : TradeStationCapabilities
  pub max_order_pages : ℕ
  -- `kill_switch_file.exists()`
  pub exists : String → Bool
  -- `model_dump` of the requests
  pub order_payload : OrderRequest → Json
  pub group_order_payload : GroupOrderRequest → Json
  pub replace_order_payload : OrderReplaceRequest → Json
  -- `canonical_payload_hash`: SHA-256 of the canonical JSON text
  pub payload_hash : Json → String
  -- `model_validate`
  pub order_ack : Fields → Result Error OrderAck
  pub order_snapshot : Json → Result Error OrderSnapshot
  -- `quote(value, safe="")`
  pub quote : String → String
  pub urlencode : List (String × Encoded) → String
  -- `format(value, "f")`
  pub format_decimal : Decimal → String
  -- iterating a text
  pub characters : String → List String

abbrev pub max_account_ids_per_request : ℕ
max_account_ids_per_request = 25

abbrev pub max_order_ids_per_request : ℕ
max_order_ids_per_request = 50

abbrev pub max_order_page_size : ℤ
max_order_page_size = pos 600

unfoldable pub require_capability : Bool → Result Error (Unit {0})
require_capability b = raise_if (not b) (capability_error "TradeStation capability unavailable")

unfoldable pub require_group_capabilities :
    TradeStationCapabilities → GroupOrderRequest → Result Error (Unit {0})
unfolding require_capability
require_group_capabilities caps g = do
  require_capability caps.supports_group_orders
  raise_if (is_oco g.type && not caps.supports_oco)
      (capability_error "TradeStation capability unavailable")
  raise_if (is_bracket g.type && not caps.supports_bracket)
      (capability_error "TradeStation capability unavailable")

unfoldable pub order_id_value : String → Result Error String
order_id_value order_id = do
  raise_if (is_blank (strip order_id)) (value_error "order ID must not be blank")
  ok (strip order_id)

-- the values that are not blank, stripped
unfoldable pub cleaned_ids : List String → List String
cleaned_ids values = map strip (keep (λ v. not (is_blank (strip v))) values)

-- `",".join(...)`
unfoldable pub joined : List String → String
joined [] = ""
joined (x ∷ []) = x
joined (x ∷ y ∷ ys) = x ++ ("," ++ joined (y ∷ ys))

abbrev is_nil : List String → Bool
is_nil [] = true
is_nil (_ ∷ _) = false

unfoldable pub clean_symbols : List String → Result Error (List String)
unfolding cleaned_ids
clean_symbols symbols = do
  raise_if (is_nil (cleaned_ids symbols)) (value_error "at least one symbol is required")
  ok (cleaned_ids symbols)

unfoldable pub bounded_page_size : Option ℤ → Result Error (Option ℤ)
bounded_page_size none = ok none
bounded_page_size (some n) = do
  raise_if (not (leb_ℤ (pos 1) n && leb_ℤ n max_order_page_size))
      (value_error "page_size must be between 1 and the maximum")
  ok (some n)

unfoldable pub query_value : (Decimal → String) → QueryValue → Encoded
query_value format (text_value s) = text_part s
query_value format (flag_value true) = text_part "true"
query_value format (flag_value false) = text_part "false"
query_value format (date_value s) = text_part s
query_value format (decimal_value d) = text_part (format d)
query_value format (int_value n) = int_part n

unfoldable pub path_segment : String → Result Error String
path_segment value = do
  raise_if (is_blank (strip value)) (value_error "symbol must not be blank")
  ok (strip value)

unfoldable pub positive_int : Option ℤ → Result Error (Option ℤ)
positive_int none = ok none
positive_int (some n) = do
  raise_if (leb_ℤ n (pos 0)) (value_error "max_levels must be positive")
  ok (some n)

module _ {fl : Floats} (client : Client fl) where
  -- the parameters that are given, as `urlencode` is given them
  unfoldable pub query_params : Params → List (String × Encoded)
  unfolding query_value
  query_params [] = []
  query_params ((k, none) ∷ ps) = query_params ps
  query_params ((k, some v) ∷ ps) = (k, query_value client.format_decimal v) ∷ query_params ps

  abbrev pub encoded : List (String × Encoded) → String
  encoded [] = ""
  encoded (p ∷ ps) = "?" ++ client.urlencode (p ∷ ps)

  unfoldable pub query_string : Params → String
  unfolding query_params
  query_string params = encoded (query_params params)

  unfoldable pub single_symbol_path : String → Result Error String
  unfolding path_segment
  single_symbol_path symbol = do segment ← path_segment symbol; ok (client.quote segment)

  unfoldable pub symbol_path : List String → Result Error String
  unfolding clean_symbols joined
  symbol_path symbols = do cleaned ← clean_symbols symbols; ok (joined (map client.quote cleaned))

  unfoldable pub joined_symbols : List String → Result Error String
  unfolding clean_symbols joined
  joined_symbols symbols = do cleaned ← clean_symbols symbols; ok (joined cleaned)

  -- the loop of `assert_account_allowed`
  unfoldable pub assert_accounts_allowed : List String → Result Error (Unit {0})
  assert_accounts_allowed [] = ok tt
  assert_accounts_allowed (a ∷ as') =
      assert_account_allowed client.config a >> assert_accounts_allowed as'

  unfoldable pub account_path : List String → Result Error String
  unfolding assert_accounts_allowed joined
  account_path account_ids = do
    raise_if (is_nil account_ids) (value_error "at least one account ID is required")
    raise_if (ltb max_account_ids_per_request (length account_ids))
        (value_error "too many account IDs")
    assert_accounts_allowed account_ids
    ok (joined (map client.quote account_ids))

  unfoldable pub order_ids_path : List String → Result Error String
  unfolding cleaned_ids joined
  order_ids_path order_ids = do
    raise_if (is_nil (cleaned_ids order_ids)) (value_error "at least one order ID is required")
    raise_if (ltb max_order_ids_per_request (length (cleaned_ids order_ids)))
        (value_error "too many order IDs")
    ok (joined (map client.quote (cleaned_ids order_ids)))

  abbrev pub require_scope : String → Result Error (Unit {0})
  require_scope scope = assert_scope_requested client.config scope
