-- ===== src/Tests/Reads.antt =====
-- The theorem on the access to accounts, applied to values.
use ts_api_wrapper.Base.{String, ◌⊎◌, some, List, [], ◌∷◌}
use ts_api_wrapper.Base.Int.{pos}
use ts_api_wrapper.Base.Decimal.{whole}
use ts_api_wrapper.Base.Result.{Result, ok, err}
use ts_api_wrapper.Errors.{Error, value_error}
use ts_api_wrapper.Json.{Json}
use ts_api_wrapper.Models.Accounts.{AccountSnapshot, BalanceSnapshot, BodBalanceSnapshot}
use ts_api_wrapper.Models.Snapshots.{PositionSnapshot}
use ts_api_wrapper.Client.Orders.Guards.{Raises}
use ts_api_wrapper.Client.Pages.{get_orders, get_orders_by_id}
use ts_api_wrapper.Client.Reads.{
  Gather, get_accounts, fetch_state_snapshot, get_balances, get_bod_balances, get_positions,
  get_historical_orders, get_historical_orders_by_id,
}
use ts_api_wrapper.Client.Reads.Permitted.{
  AreAllowed, IsRequested, IsPermitted, IsGuarded, account_access-IsGuarded,
}
use ts_api_wrapper.Client.Streams.{stream_orders, stream_orders_by_id, stream_positions}
use ts_api_wrapper.Transport.{timed_out}
use ts_api_wrapper.Tests.{client, fresh_trace, seconds}
use ts_api_wrapper.Rest.Run.{◌>>=◌, pure}

abbrev refused_balance : Json → Result Error BalanceSnapshot
refused_balance v = err (value_error "balance")

abbrev refused_bod_balance : Json → Result Error BodBalanceSnapshot
refused_bod_balance v = err (value_error "balance")

abbrev one_position : Json → Result Error PositionSnapshot
one_position v = ok (record { account_id = "SIM1"; symbol = "MSFT"; quantity = whole 5 })

abbrev refused_account : Json → Result Error AccountSnapshot
refused_account v = err (value_error "account")

-- One read after another, each on the trace that the one before leaves.
abbrev in_turn : Gather seconds
in_turn accounts balances positions orders = do
  acs ← accounts
  bs ← balances
  ps ← positions
  os ← orders
  pure (acs, bs, ps, os)

account_access-IsGuarded_example :
    let c = client (timed_out "timeout") in
    let ids : List String = "SIM1" ∷ "SIM1" ∷ [] in
    let IsRead = λ (r : Type 0). r ⊎ IsPermitted c ids in
    IsRead (Raises (get_balances c refused_balance ids fresh_trace) fresh_trace)
    × IsRead (Raises (get_bod_balances c refused_bod_balance ids fresh_trace) fresh_trace)
    × IsRead (Raises (get_positions c one_position ids [] fresh_trace) fresh_trace)
    × IsRead (Raises (get_orders c ids (some (pos 5)) fresh_trace) fresh_trace)
    × IsRead (Raises (get_orders_by_id c ids ("42" ∷ []) fresh_trace) fresh_trace)
    × IsRead
        (Raises (get_historical_orders c ids "2026-01-01" (some (pos 5)) fresh_trace) fresh_trace)
    × IsRead (
        Raises (get_historical_orders_by_id c ids ("42" ∷ []) "2026-01-01" fresh_trace) fresh_trace)
    × IsGuarded c ids c.capabilities.supports_stream_orders (stream_orders c ids)
    × IsGuarded c ids c.capabilities.supports_stream_orders (stream_orders_by_id c ids ("42" ∷ []))
    × IsGuarded c ids c.capabilities.supports_stream_positions (stream_positions c ids)
    × (Raises (get_accounts c refused_account fresh_trace) fresh_trace ⊎ IsRequested c)
    × (Raises
          (fetch_state_snapshot c in_turn refused_account refused_balance one_position ids
            fresh_trace)
          fresh_trace
        ⊎ AreAllowed c ids)
account_access-IsGuarded_example =
    account_access-IsGuarded (client (timed_out "timeout")) in_turn refused_account refused_balance
      refused_bod_balance one_position ("SIM1" ∷ "SIM1" ∷ []) ("42" ∷ []) [] "2026-01-01"
      (some (pos 5)) fresh_trace
