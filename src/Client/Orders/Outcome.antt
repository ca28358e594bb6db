-- ===== src/Client/Orders/Outcome.antt =====
-- What placing an order says when its outcome is unknown (client.py: `place_order`, with rest.py).
use ts_api_wrapper.Base.{
  ℕ, String, ◌≡◌, refl, ap, ◌∙◌, Bool, true, false, Option, none, some, if◌then◌else◌, contains,
}
use mathlib.Core.Option
use ts_api_wrapper.Base.Floats.{Floats}
use ts_api_wrapper.Base.Result.{Result, ok, err}
use ts_api_wrapper.Errors.{
  Failure, local, network_timeout, transport_error, stream_open_error, retry_exhausted, api_error,
  rate_limit_error, authentication_error, stream_error, ambiguous_order_state,
}
use ts_api_wrapper.Json.{Json, Fields}
use ts_api_wrapper.Config.{trade_scope}
use ts_api_wrapper.Models.Built.{IsBuilt}
use ts_api_wrapper.Models.Orders.{OrderRequest, AllOrders, fields}
use ts_api_wrapper.Transport.{Reply}
use ts_api_wrapper.Trade.{
  TradeStationTrade, OrderWriteRequest, single, order_id, reconcile_required,
}
use ts_api_wrapper.Validation.{validate_order_for_config}
use ts_api_wrapper.Validation.Risk.{IsAccepted, validate_order_for_config_iff}
use ts_api_wrapper.Rest.{Trace, Env, Call, request_json}
use ts_api_wrapper.Rest.Run.{◌>>=◌, ◌>>◌, continue}
use ts_api_wrapper.Rest.Verbs.{post_order_write_call}
use ts_api_wrapper.Rest.Writes.{
  is_unauthorized, is_unknown, is_ambiguous, write_verdict, first_reply, second_reply, sent_once,
  sent_twice, write_outcome, write_verdict_ambiguous,
}
use ts_api_wrapper.Client.{Client}
use ts_api_wrapper.Client.Orders.{place_order, recorded, trade_after}
use ts_api_wrapper.Client.Orders.Guards.{require_scope_complete, require_capability_complete}

module _ {fl : Floats} (env : Env fl) (call : Call) (tok : ℕ → String) (s : Trace fl) where
  -- The reply that counts: the second one if the first is 401.
  abbrev pub last_reply : Reply fl.F
  last_reply =
      if is_unauthorized (first_reply env call tok s)
      then second_reply env call tok s
      else first_reply env call tok s

  -- The trace after it.
  abbrev pub sent : Trace fl
  sent =
      if is_unauthorized (first_reply env call tok s)
      then sent_twice env call tok s
      else sent_once env call tok s

  pub write_last :
      (renewed : ℕ → String)
      → call.retry_safe ≡ false
      → ((n : ℕ) → env.token n ≡ ok (tok n))
      → ((n : ℕ) → env.refresh n ≡ ok (renewed n))
      → request_json env call s ≡ (some (write_verdict env call last_reply), sent)
  write_last renewed w tokens fresh =
      write_outcome env call tok renewed s w tokens fresh
      ∙ pair (is_unauthorized (first_reply env call tok s)) _ _ _ _
    where
      pair :
          (b : Bool) (x y : Reply fl.F) (t u : Trace fl)
          → ◌≡◌ {A = Option (Result (Failure fl.F) Fields) × Trace fl}
              (if b
                then (some (write_verdict env call x), t)
                else (some (write_verdict env call y), u))
              (some (write_verdict env call (if b then x else y)), (if b then t else u))
      pair true x y t u = refl
      pair false x y t u = refl

module _ {fl : Floats} (client : Client fl) (request : OrderWriteRequest) (payload : Json) where
  -- An ambiguous write makes a trade that must be reconciled and that names no order.
  pub trade_after_ambiguous :
      (env : Env fl) (call : Call) (r : Result (Failure fl.F) Fields)
      → is_ambiguous env call r ≡ true
      → (t : TradeStationTrade fl.F) × (trade_after client request payload r ≡ ok t)
        × (reconcile_required t ≡ true)
        × (order_id t ≡ none)
  unfolding trade_after reconcile_required order_id
  trade_after_ambiguous env call (err (ambiguous_order_state op id cause)) h = (_, refl, refl, refl)
  trade_after_ambiguous env call (ok response) h = absurd (cc)
  trade_after_ambiguous env call (err (local e)) h = absurd (cc)
  trade_after_ambiguous env call (err (network_timeout m)) h = absurd (cc)
  trade_after_ambiguous env call (err (transport_error m)) h = absurd (cc)
  trade_after_ambiguous env call (err (stream_open_error e)) h = absurd (cc)
  trade_after_ambiguous env call (err (retry_exhausted m)) h = absurd (cc)
  trade_after_ambiguous env call (err (api_error e)) h = absurd (cc)
  trade_after_ambiguous env call (err (rate_limit_error e d)) h = absurd (cc)
  trade_after_ambiguous env call (err (authentication_error e)) h = absurd (cc)
  trade_after_ambiguous env call (err (stream_error v)) h = absurd (cc)

-- The write that placing an order makes.
abbrev pub order_call : {fl : Floats} → Client fl → OrderRequest → Call
order_call client o =
    post_order_write_call "/orderexecution/orders" (client.order_payload o)
      (some (fields o).request_id)

place_order_writes :
    {fl : Floats} (client : Client fl) (o : OrderRequest) (s : Trace fl)
    → contains client.config.requested_scopes trade_scope ≡ true
    → client.capabilities.supports_single_orders ≡ true
    → validate_order_for_config client.exists client.config o ≡ ok tt
    → place_order client o s
      ≡ recorded client
          (single o)
          (client.order_payload o)
          (request_json client.rest (order_call client o))
          s
unfolding place_order ◌>>=◌ ◌>>◌ continue
place_order_writes client o s scope able valid =
    let may = require_scope_complete client trade_scope scope in
    let can = require_capability_complete _ able in rw (may, can, valid)

-- Placing an order that the configuration accepts, while tokens can be had, when the reply that
-- counts leaves open whether the order took effect (a timeout or another transport error, an
-- `AmbiguousOrderState` of the transport itself, 408, 500, 502, 503, 504, or a 2xx reply whose body
-- is no JSON object), raises nothing: it returns a trade that must be reconciled and names no order,
-- after one request, or after two if the first one was answered 401, and without sleeping.
pub place_order_unknown :
    {fl : Floats} (client : Client fl) (o : OrderRequest) (tok renewed : ℕ → String) (s : Trace fl)
    → AllOrders IsBuilt o
    → AllOrders (IsAccepted client.exists client.config) o
    → contains client.config.requested_scopes trade_scope ≡ true
    → client.capabilities.supports_single_orders ≡ true
    → ((n : ℕ) → client.rest.token n ≡ ok (tok n))
    → ((n : ℕ) → client.rest.refresh n ≡ ok (renewed n))
    → is_unknown client.rest
        (order_call client o)
        (last_reply client.rest (order_call client o) tok s)
      ≡ true
    → (t : TradeStationTrade fl.F) × (place_order client o s
        ≡ (some (ok t), sent client.rest (order_call client o) tok s))
      × (reconcile_required t ≡ true)
      × (order_id t ≡ none)
place_order_unknown client o tok renewed s built accepted scope able tokens fresh unknown =
    let call = order_call client o in
    let reply = last_reply client.rest call tok s in
    let (t, made, must, no_id) =
      trade_after_ambiguous client (single o) (client.order_payload o) client.rest call
        (write_verdict client.rest call reply)
        (write_verdict_ambiguous client.rest call reply refl ∙ unknown) in
    let valid = (validate_order_for_config_iff client.exists client.config o built).1 accepted in
    let written = write_last client.rest call tok s renewed refl tokens fresh in
    let after = trade_after client (single o) (client.order_payload o) in
    (
      t,
      place_order_writes client o s scope able valid
          ∙ ap (λ p. (Option.map after p.0, p.1)) written
          ∙ ap (λ r. (some r, sent client.rest call tok s)) made,
      must,
      no_id,
    )
