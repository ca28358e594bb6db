-- ===== src/Rest/Streams.antt =====
-- Streams over the REST client (rest.py: `_stream_chunks`, `stream_events`,
-- `_stream_reconnect_policy`). `transport.stream` is an argument: what its n-th call does.
pub mod Requests
use ts_api_wrapper.Base.{
  ℕ, zero, suc, ◌+◌, ◌-◌, ◌*◌, ◌≤◌, ◌≡◌, refl, ap, sym, ◌∙◌, String, Bool, true, false, ◌&&◌, not,
  Option, none, some, List, [], ◌∷◌, nat_eq, length, is_some, arith, if◌then◌else◌,
}
use Prim.Native.String.{◌++◌}
use ts_api_wrapper.Base.Floats.{Floats}
use ts_api_wrapper.Base.Result.{Result, ok, err}
use ts_api_wrapper.Errors.{Failure}
use ts_api_wrapper.Json.{Json}
use ts_api_wrapper.RateLimit.{RetryPolicy, StreamReconnectPolicy}
use ts_api_wrapper.Transport.{HttpRequest, HttpResponse}
use ts_api_wrapper.Rest.{Env, Trace, url, api_error_of}
use ts_api_wrapper.Stream.Events.{Connection, Watch, Ended, events}
use ts_api_wrapper.Stream.Fuel.{IsDecoder}
use ts_api_wrapper.Stream.Events.Counted.{delivered}
use ts_api_wrapper.Stream.Events.Reconnects.{reconnects_bounded}

-- A connection that may fail after some chunks, or `HTTPStreamOpenError` before the first one.
pub data StreamReply (F : Type 0) : Type 0 where
  served : Connection F → StreamReply F
  refused : HttpResponse → StreamReply F

pub data Opened (F : Type 0) : Type 0 where
  connected : Connection F → Opened F
  -- refresh the token, and try once more
  renewing : Opened F

abbrev pub broken : {F : Type 0} → Failure F → Connection F
broken e = record { chunks = []; failure = some e }

module _ {fl : Floats} (env : Env fl) where
  unfoldable pub after_stream_reply : Bool → StreamReply fl.F → Opened fl.F
  after_stream_reply refreshed (served c) = connected c
  after_stream_reply refreshed (refused r) =
      if nat_eq r.status_code 401 && not refreshed
      then renewing
      else connected (broken (api_error_of env r))

  -- `_stream_reconnect_policy`, but for its `sleeper`
  unfoldable pub stream_reconnect_policy : StreamReconnectPolicy fl
  stream_reconnect_policy = record {
    max_reconnects = env.policy.max_attempts - 1;
    base_delay = env.policy.base_delay_seconds;
    max_delay = env.policy.max_delay_seconds;
    retry_after_ceiling = env.policy.retry_after_ceiling_seconds;
  }

module _ {fl : Floats} (env : Env fl) (open_stream : ℕ → HttpRequest → StreamReply fl.F)
    (path accept : String) where
  open fl use {F}

  unfoldable pub stream_request : String → HttpRequest
  stream_request token = record {
    method = "GET";
    url = url env path;
    headers = ("Accept", accept) ∷ ("Authorization", "Bearer " ++ token) ∷ [];
    json_body = none;
    form_body = [];
  }

  abbrev pub Opening : Type 0
  Opening = Bool → Trace fl → Option (Connection F) × Trace fl

  abbrev pub after_refresh :
      Opening → Trace fl → Result (Failure F) String → Option (Connection F) × Trace fl
  after_refresh loop s (err e) = (some (broken e), s)
  after_refresh loop s (ok _) = loop true s

  abbrev pub after_opened : Opening → Trace fl → Opened F → Option (Connection F) × Trace fl
  after_opened loop s (connected c) = (some c, s)
  after_opened loop s renewing =
      after_refresh loop (record s { refreshes = s.refreshes + 1 }) (env.refresh s.refreshes)

  abbrev pub open_with :
      Opening → Bool → Trace fl → Result (Failure F) String → Option (Connection F) × Trace fl
  open_with loop refreshed s (err e) = (some (broken e), s)
  open_with loop refreshed s (ok token) =
      let q = stream_request token in
      after_opened loop (record s { sent = q ∷ s.sent })
        (after_stream_reply env refreshed (open_stream (length s.sent) q))

  -- The loop `while True` of `_stream_chunks`, on fuel
  unfoldable pub open_loop : ℕ → Opening
  unfolding after_stream_reply
  open_loop zero refreshed s = (none, s)
  open_loop (suc n) refreshed s =
      open_with (λ b t. open_loop n b t) refreshed (record s { tokens = s.tokens + 1 })
        (env.token s.tokens)

  -- a second round only follows the first 401
  unfoldable pub stream_chunks : Trace fl → Option (Connection F) × Trace fl
  unfolding open_loop
  stream_chunks s = open_loop 2 false s

  abbrev pub connection_of : Option (Connection F) → Connection F
  connection_of none = record { chunks = []; failure = none }
  connection_of (some c) = c

  -- The trace after the first connections of a stream.
  unfoldable pub trace_after : Trace fl → ℕ → Trace fl
  unfolding stream_chunks
  trace_after s zero = s
  trace_after s (suc n) = (stream_chunks (trace_after s n)).1

  -- The n-th call of the chunk source.
  unfoldable pub source_of : Trace fl → ℕ → Connection F
  unfolding trace_after
  source_of s n = connection_of (stream_chunks (trace_after s n)).0

  unfoldable pub stream_events :
      (List ℕ → Option (Json × List ℕ))
      → Bool
      → Trace fl
      → ℕ
      → Option (Result (Failure F) (Unit {0})) × Watch F
  unfolding source_of stream_reconnect_policy
  stream_events raw_decode raise_on_error s fuel =
      events raw_decode (stream_reconnect_policy env) raise_on_error (source_of s) fuel
