-- ===== src/Client/Pages.antt =====
-- Reading orders (client.py: `get_orders`, `get_orders_by_id`, `_get_order_pages`).
pub mod Bounds
use ts_api_wrapper.Base.{
  ℕ, zero, suc, String, Bool, true, false, Option, none, some, List, [], ◌∷◌, ◌++◌, map, contains,
}
use Prim.Native.String
use ts_api_wrapper.Base.Int.{ℤ}
use ts_api_wrapper.Base.Floats.{Floats}
use ts_api_wrapper.Base.Text.{strip, is_blank}
use ts_api_wrapper.Base.Result.{Result, ok, err}
use ts_api_wrapper.Errors.{Error, pagination_error, type_error}
use ts_api_wrapper.Json.{Json, Fields, end, field, items, as_text}
use ts_api_wrapper.Json
use ts_api_wrapper.Config.{read_account_scope}
use ts_api_wrapper.Models.Snapshots.{OrderSnapshot}
use ts_api_wrapper.Rest.Run.{Run, ◌>>=◌, ◌>>◌, locally, pure}
use ts_api_wrapper.Rest.Verbs.{get}
use ts_api_wrapper.Client.Payload.{orders_of}
use ts_api_wrapper.Client.{
  Client, Params, text_value, int_value, date_value, query_string, require_scope, account_path,
  order_ids_path, bounded_page_size,
}

abbrev pub next_params : Option String → Params
next_params none = []
next_params (some t) = ("nextToken", some (text_value t)) ∷ []

abbrev pub size_params : Option ℤ → Params
size_params none = []
size_params (some n) = ("pageSize", some (int_value n)) ∷ []

module _ {fl : Floats} (client : Client fl) where
  -- the token of the next page, if it is a text that is not blank
  unfoldable pub next_token : Fields → Option String
  next_token payload = elim (as_text (Json.get payload "NextToken")) [
    | none ↦ none
    | some t ↦ elim (is_blank (strip t)) [ true ↦ none | false ↦ some t ]
  ]

  -- what follows a page with a next token, seen before or not: `rest` reads on from it
  abbrev pub read_on :
      (String → Run fl (List OrderSnapshot)) → String → Bool → Run fl (List OrderSnapshot)
  read_on rest t true = locally (err (pagination_error "order pagination repeated a page token"))
  read_on rest t false = rest t

  unfoldable pub turn_page :
      (String → Run fl (List OrderSnapshot))
      → List String
      → List OrderSnapshot
      → Option String
      → Run fl (List OrderSnapshot)
  turn_page rest seen orders none = pure orders
  turn_page rest seen orders (some t) = read_on rest t (contains seen t)

  -- the loop over at most so many pages
  unfoldable pub pages_from :
      ℕ
      → String
      → Params
      → Option String
      → List String
      → List OrderSnapshot
      → Run fl (List OrderSnapshot)
  unfolding turn_page orders_of next_token query_string
  pages_from zero base params token seen orders =
      locally (err (pagination_error "order pagination exceeded the page safety limit"))
  pages_from (suc n) base params token seen orders = do
    payload ←
        get client.rest
          (Prim.Native.String.◌++◌ base (query_string client (params ++ next_params token)))
    found ← locally (orders_of client payload)
    turn_page (λ t. pages_from n base params (some t) (t ∷ seen) (orders ++ found)) seen
        (orders ++ found) (next_token payload)

  unfoldable pub get_order_pages : String → Params → Run fl (List OrderSnapshot)
  unfolding pages_from
  get_order_pages base params = pages_from client.max_order_pages base params none [] []

  unfoldable pub get_orders : List String → Option ℤ → Run fl (List OrderSnapshot)
  unfolding get_order_pages account_path
  get_orders account_ids page_size = do
    locally (require_scope client read_account_scope)
    accounts ← locally (account_path client account_ids)
    size ← locally (bounded_page_size page_size)
    get_order_pages
        (Prim.Native.String.◌++◌ "/brokerage/accounts/"
          (Prim.Native.String.◌++◌ accounts "/orders"))
        (size_params size)

  unfoldable pub get_orders_by_id : List String → List String → Run fl (List OrderSnapshot)
  get_orders_by_id account_ids order_ids = do
    locally (require_scope client read_account_scope)
    accounts ← locally (account_path client account_ids)
    orders ← locally (order_ids_path client order_ids)
    payload ← get client.rest (
        Prim.Native.String.◌++◌ "/brokerage/accounts/"
          (Prim.Native.String.◌++◌ accounts (Prim.Native.String.◌++◌ "/orders/" orders)))
    locally (orders_of client payload)
