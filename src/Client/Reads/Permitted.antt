-- ===== src/Client/Reads/Permitted.antt =====
-- What must hold before an account is read or streamed (client.py).
use ts_api_wrapper.Base.{
  ℕ, ◌≤◌, String, ◌≡◌, refl, ap, sym, ◌∙◌, ◌⊎◌, inl, inr, Bool, true, false, Option, List, [], ◌∷◌,
  All, contains, length, ltb, arith,
}
use ts_api_wrapper.Base.Int.{ℤ}
use ts_api_wrapper.Base.Floats.{Floats}
use ts_api_wrapper.Base.Result.{Result, ok, err, raise_if, >>=-eq-ok, Result-cases}
use ts_api_wrapper.Base.Result
use ts_api_wrapper.Errors.{Error}
use ts_api_wrapper.Json.{Json}
use ts_api_wrapper.Config.{read_account_scope, assert_account_allowed}
use ts_api_wrapper.Models.Accounts.{AccountSnapshot, BalanceSnapshot, BodBalanceSnapshot}
use ts_api_wrapper.Models.Snapshots.{PositionSnapshot}
use ts_api_wrapper.Rest.{Trace}
use ts_api_wrapper.Rest.Run.{Run, ◌>>=◌, ◌>>◌, locally}
use ts_api_wrapper.Client.{
  Client, require_scope, require_capability, account_path, assert_accounts_allowed,
}
use ts_api_wrapper.Client.Orders.Guards.{
  Raises, guard-cases, locally-cases, require_scope_sound, require_capability_sound,
}
use ts_api_wrapper.Client.Pages.{get_orders, get_orders_by_id}
use ts_api_wrapper.Client.Reads.{
  Gather, get_accounts, fetch_state_snapshot, get_balances, get_bod_balances, get_positions,
  get_historical_orders, get_historical_orders_by_id,
}
use ts_api_wrapper.Client.Streams.{Target, stream_orders, stream_orders_by_id, stream_positions}

module _ {fl : Floats} (client : Client fl) where
  abbrev IsAllowed : String → Type 0
  IsAllowed account_id = contains client.config.account_allowlist account_id ≡ true

  -- There are some accounts, not too many, all of them allowed.
  abbrev pub AreAllowed : List String → Type 0
  AreAllowed account_ids =
      (1 ≤ length account_ids) × (length account_ids ≤ 25) × All IsAllowed account_ids

  -- The scope for reading accounts was requested.
  abbrev pub IsRequested : Type 0
  IsRequested = contains client.config.requested_scopes read_account_scope ≡ true

  abbrev pub IsPermitted : List String → Type 0
  IsPermitted account_ids = IsRequested × AreAllowed account_ids

  assert_accounts_allowed_sound :
      (ids : List String) → assert_accounts_allowed client ids ≡ ok tt → All IsAllowed ids
  unfolding assert_accounts_allowed assert_account_allowed
  assert_accounts_allowed_sound [] h = tt
  assert_accounts_allowed_sound (a ∷ ids) h =
      let (_, allowed, rest) = >>=-eq-ok (assert_account_allowed client.config a) _ h in
      (ground arith, assert_accounts_allowed_sound ids rest)

  account_path_sound :
      (ids : List String) (path : String) → account_path client ids ≡ ok path → AreAllowed ids
  unfolding account_path
  account_path_sound [] path h = absurd (cc)
  account_path_sound (a ∷ ids) path h =
      let (_, few, rest) = >>=-eq-ok (raise_if (ltb 25 (length (a ∷ ids))) _) _ h in
      let (_, allowed, _) = >>=-eq-ok (assert_accounts_allowed client (a ∷ ids)) _ rest in
      (omega arith, ground arith, assert_accounts_allowed_sound (a ∷ ids) allowed)

  guarded_read :
      {B : Type 0} (ids : List String) (k : String → Run fl B) (s : Trace fl)
      → let r =
          locally (require_scope client read_account_scope)
          >> (locally (account_path client ids) >>= k) in
        Raises (r s) s ⊎ IsPermitted ids
  guarded_read ids k s = elim (guard-cases (require_scope client read_account_scope) _ s) [
    | inl raised ↦ inl raised
    | inr (scope, e) ↦ elim (locally-cases (account_path client ids) k s) [
      | inl (x, e') ↦ inl (x, e ∙ e')
      | inr (path, found, _) ↦
          let allowed = account_path_sound ids path found in
          inr (require_scope_sound client _ scope, allowed)
    ]
  ]

  requested_read :
      {B : Type 0} (m : Run fl B) (s : Trace fl)
      → Raises ((locally (require_scope client read_account_scope) >> m) s) s ⊎ IsRequested
  requested_read m s = elim (guard-cases (require_scope client read_account_scope) m s) [
    | inl raised ↦ inl raised
    | inr (scope, e) ↦ inr (require_scope_sound client _ scope)
  ]

  allowed_read :
      {B : Type 0} (ids : List String) (k : String → Run fl B) (s : Trace fl)
      → Raises ((locally (account_path client ids) >>= k) s) s ⊎ AreAllowed ids
  allowed_read ids k s = elim (locally-cases (account_path client ids) k s) [
    | inl raised ↦ inl raised
    | inr (path, found, _) ↦ inr (account_path_sound ids path found)
  ]

  -- A stream raises, or is permitted and the capability is there.
  abbrev pub IsGuarded : List String → Bool → Result Error Target → Type 0
  IsGuarded ids capability r = ((e : Error) × (r ≡ err e)) ⊎ (IsPermitted ids × (capability ≡ true))

  stream-IsGuarded :
      (ids : List String) (capability : Bool) (k : String → Result Error Target)
      → IsGuarded ids capability (
          ts_api_wrapper.Base.Result.◌>>◌ (require_scope client read_account_scope) (
            ts_api_wrapper.Base.Result.◌>>◌
              (require_capability capability)
              (ts_api_wrapper.Base.Result.◌>>=◌ (account_path client ids) k)))
  stream-IsGuarded ids capability k = go _ refl
    where
      go :
          (r : Result Error Target)
          → ts_api_wrapper.Base.Result.◌>>◌ (require_scope client read_account_scope) (
              ts_api_wrapper.Base.Result.◌>>◌
                (require_capability capability)
                (ts_api_wrapper.Base.Result.◌>>=◌ (account_path client ids) k))
            ≡ r
          → IsGuarded ids capability r
      go (err e) h = inl (e, refl)
      go (ok target) h =
          let (_, scope, after_scope) = >>=-eq-ok (require_scope client read_account_scope) _ h in
          let (_, able, after_able) = >>=-eq-ok (require_capability capability) _ after_scope in
          let (path, found, _) = >>=-eq-ok (account_path client ids) k after_able in
          let allowed = account_path_sound ids path found in
          inr (
            (require_scope_sound client _ scope, allowed),
            require_capability_sound capability able,
          )

-- Each read and each stream for given accounts raises an exception of its own, with nothing asked of
-- the token provider or the network, or the scope for reading accounts was requested, and the account
-- IDs are at least one, at most 25, and all of them in the allowlist; for a stream, its capability is
-- there too. `get_accounts`, which takes no account IDs, raises so or the scope was requested.
-- `fetch_state_snapshot` raises so, or the account IDs are as said.
pub account_access-IsGuarded :
    {fl : Floats} (client : Client fl) (gather : Gather fl)
    (account : Json → Result Error AccountSnapshot) (balance : Json → Result Error BalanceSnapshot)
    (bod_balance : Json → Result Error BodBalanceSnapshot)
    (position : Json → Result Error PositionSnapshot) (account_ids order_ids symbols : List String)
    (since : String) (page_size : Option ℤ) (s : Trace fl)
    → let IsRead = λ (r : Type 0). r ⊎ IsPermitted client account_ids in
      IsRead (Raises (get_balances client balance account_ids s) s)
      × IsRead (Raises (get_bod_balances client bod_balance account_ids s) s)
      × IsRead (Raises (get_positions client position account_ids symbols s) s)
      × IsRead (Raises (get_orders client account_ids page_size s) s)
      × IsRead (Raises (get_orders_by_id client account_ids order_ids s) s)
      × IsRead (Raises (get_historical_orders client account_ids since page_size s) s)
      × IsRead (Raises (get_historical_orders_by_id client account_ids order_ids since s) s)
      × IsGuarded client account_ids client.capabilities.supports_stream_orders
          (stream_orders client account_ids)
      × IsGuarded client account_ids client.capabilities.supports_stream_orders
          (stream_orders_by_id client account_ids order_ids)
      × IsGuarded client account_ids client.capabilities.supports_stream_positions
          (stream_positions client account_ids)
      × (Raises (get_accounts client account s) s ⊎ IsRequested client)
      × (Raises (fetch_state_snapshot client gather account balance position account_ids s) s
          ⊎ AreAllowed client account_ids)
unfolding get_accounts fetch_state_snapshot get_balances get_bod_balances get_positions get_orders
    get_orders_by_id get_historical_orders get_historical_orders_by_id stream_orders
    stream_orders_by_id stream_positions
account_access-IsGuarded client gather account balance bod_balance position ids order_ids symbols
      since size s =
    (
      guarded_read client ids _ s,
      guarded_read client ids _ s,
      guarded_read client ids _ s,
      guarded_read client ids _ s,
      guarded_read client ids _ s,
      guarded_read client ids _ s,
      guarded_read client ids _ s,
      stream-IsGuarded client ids _ _,
      stream-IsGuarded client ids _ _,
      stream-IsGuarded client ids _ _,
      requested_read client _ s,
      allowed_read client ids _ s,
    )
