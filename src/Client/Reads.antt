-- ===== src/Client/Reads.antt =====
-- The reads of accounts (client.py: `get_accounts` to `get_historical_orders_by_id`). What
-- `model_validate` makes of an item, and `asyncio.gather`, are arguments.
pub mod Permitted
use ts_api_wrapper.Base.{String, Option, none, some, List, [], ◌∷◌, ◌++◌, Bool, contains, keep}
use Prim.Native.String
use ts_api_wrapper.Base.Int.{ℤ}
use ts_api_wrapper.Base.Floats.{Floats}
use ts_api_wrapper.Base.Result.{Result, ok}
use ts_api_wrapper.Base.Result
use ts_api_wrapper.Errors.{Error}
use ts_api_wrapper.Json.{Json, Fields}
use ts_api_wrapper.Config.{read_account_scope, trade_scope}
use ts_api_wrapper.Models.Snapshots.{OrderSnapshot, PositionSnapshot, AccountStateSnapshot}
use ts_api_wrapper.Models.Accounts.{AccountSnapshot, BalanceSnapshot, BodBalanceSnapshot}
use ts_api_wrapper.Rest.Run.{Run, ◌>>=◌, ◌>>◌, locally, pure}
use ts_api_wrapper.Rest.Verbs.{get}
use ts_api_wrapper.Client.Payload.{items_of, orders_of}
use ts_api_wrapper.Client.Pages.{get_orders, get_order_pages, size_params}
use ts_api_wrapper.Client.{
  Client, Params, text_value, date_value, require_scope, account_path, order_ids_path,
  bounded_page_size, joined_symbols, query_string,
}

-- `f"/brokerage/accounts/{accounts}{rest}"`
abbrev pub accounts_url : String → String → String
accounts_url accounts rest =
    Prim.Native.String.◌++◌ "/brokerage/accounts/" (Prim.Native.String.◌++◌ accounts rest)

module _ {fl : Floats} (client : Client fl) where
  unfoldable pub get_accounts :
      (Json → Result Error AccountSnapshot) → Run fl (List AccountSnapshot)
  unfolding items_of
  get_accounts validate = do
    locally (require_scope client read_account_scope)
    payload ← get client.rest "/brokerage/accounts"
    locally (items_of client "Accounts" validate payload)

  unfoldable pub get_balances :
      (Json → Result Error BalanceSnapshot) → List String → Run fl (List BalanceSnapshot)
  unfolding items_of
  get_balances validate account_ids = do
    locally (require_scope client read_account_scope)
    accounts ← locally (account_path client account_ids)
    payload ← get client.rest (accounts_url accounts "/balances")
    locally (items_of client "Balances" validate payload)

  unfoldable pub get_bod_balances :
      (Json → Result Error BodBalanceSnapshot) → List String → Run fl (List BodBalanceSnapshot)
  unfolding items_of
  get_bod_balances validate account_ids = do
    locally (require_scope client read_account_scope)
    accounts ← locally (account_path client account_ids)
    payload ← get client.rest (accounts_url accounts "/bodbalances")
    locally (items_of client "BODBalances" validate payload)

  -- `self._joined_symbols(symbols) if symbols else None`
  abbrev pub symbols_param : List String → Result Error Params
  symbols_param [] = ok (("symbol", none) ∷ [])
  symbols_param (s ∷ ss) =
      ts_api_wrapper.Base.Result.◌>>=◌ (joined_symbols client (s ∷ ss))
        (λ symbols. ok (("symbol", some (text_value symbols)) ∷ []))

  unfoldable pub get_positions :
      (Json → Result Error PositionSnapshot)
      → List String
      → List String
      → Run fl (List PositionSnapshot)
  unfolding items_of
  get_positions validate account_ids symbols = do
    locally (require_scope client read_account_scope)
    accounts ← locally (account_path client account_ids)
    params ← locally (symbols_param symbols)
    payload ←
        get client.rest (
          accounts_url accounts (Prim.Native.String.◌++◌ "/positions" (query_string client params)))
    locally (items_of client "Positions" validate payload)

  -- `since` is given as its `isoformat()`.
  unfoldable pub get_historical_orders :
      List String → String → Option ℤ → Run fl (List OrderSnapshot)
  unfolding get_order_pages
  get_historical_orders account_ids since page_size = do
    locally (require_scope client read_account_scope)
    accounts ← locally (account_path client account_ids)
    size ← locally (bounded_page_size page_size)
    get_order_pages client (accounts_url accounts "/historicalorders")
        (("since", some (text_value since)) ∷ size_params size)

  unfoldable pub get_historical_orders_by_id :
      List String → List String → String → Run fl (List OrderSnapshot)
  get_historical_orders_by_id account_ids order_ids since = do
    locally (require_scope client read_account_scope)
    accounts ← locally (account_path client account_ids)
    orders ← locally (order_ids_path client order_ids)
    payload ← get client.rest (
        accounts_url accounts (
          Prim.Native.String.◌++◌ "/historicalorders/" (
            Prim.Native.String.◌++◌ orders
              (query_string client (("since", some (date_value since)) ∷ [])))))
    locally (orders_of client payload)

  unfoldable pub get_routes : Run fl Fields
  get_routes = do
    locally (require_scope client trade_scope)
    get client.rest "/orderexecution/routes"

  unfoldable pub get_activation_triggers : Run fl Fields
  get_activation_triggers = do
    locally (require_scope client trade_scope)
    get client.rest "/orderexecution/activationtriggers"

-- `asyncio.gather` of four coroutines: it starts each of them on a trace that the others also extend.
abbrev pub Gather : Floats → Type 0
Gather fl =
    Run fl (List AccountSnapshot)
    → Run fl (List BalanceSnapshot)
    → Run fl (List PositionSnapshot)
    → Run fl (List OrderSnapshot)
    → Run fl
        (List AccountSnapshot × List BalanceSnapshot × List PositionSnapshot × List OrderSnapshot)

module _ {fl : Floats} (client : Client fl) (gather : Gather fl)
    (account : Json → Result Error AccountSnapshot) (balance : Json → Result Error BalanceSnapshot)
    (position : Json → Result Error PositionSnapshot) where
  -- `account.account_id in requested_account_ids`
  abbrev is_requested : List String → AccountSnapshot → Bool
  is_requested account_ids a = contains account_ids a.account_id

  unfoldable pub fetch_state_snapshot : List String → Run fl AccountStateSnapshot
  unfolding get_accounts get_balances get_positions
  fetch_state_snapshot account_ids = do
    _ ← locally (account_path client account_ids)
    read ←
        gather (get_accounts client account) (get_balances client balance account_ids)
          (get_positions client position account_ids []) (get_orders client account_ids none)
    pure (record {
      accounts = keep (is_requested account_ids) read.0;
      balances = read.1;
      positions = read.2;
      orders = read.3;
    })
