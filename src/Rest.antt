-- ===== src/Rest.antt =====
-- The REST client's request loop (src/tradestation_api_wrapper/rest.py: `request_json` and what it
-- calls). The token provider, the transport and the sleeper are the environment: their n-th answer
-- is a function of n, and a trace counts and lists what was asked of them.
pub mod Loop
pub mod Writes
pub mod Reads
pub mod Verbs
pub mod Run
pub mod Streams
use ts_api_wrapper.Base.{
  ℕ, zero, suc, ◌+◌, ◌-◌, String, Bool, true, false, ◌&&◌, ◌||◌, not, Option, none, some, List, [],
  ◌∷◌, ◌==◌, leb, ltb, nat_eq, length, if◌then◌else◌,
}
use Prim.Native.String.{◌++◌}
use ts_api_wrapper.Base.Floats.{Floats}
use ts_api_wrapper.Base.Result.{Result, ok, err}
use ts_api_wrapper.Base.Text.{is_blank}
use text.Mathlib.Text.{starts_with}
use ts_api_wrapper.Errors.{
  Failure, ApiError, network_timeout, transport_error, retry_exhausted, api_error, rate_limit_error,
  authentication_error, ambiguous_order_state,
}
use ts_api_wrapper.Json.{Json, Fields, obj, end, field, get}
use ts_api_wrapper.Json
use ts_api_wrapper.RateLimit.{RetryPolicy, parse_retry_after_seconds, delay_for_attempt}
use ts_api_wrapper.Redaction.{Value, redact}
use ts_api_wrapper.Transport.{
  HttpRequest, HttpResponse, header, json, Reply, responded, timed_out, failed, raised,
}

-- `AMBIGUOUS_WRITE_STATUSES`
abbrev pub is_ambiguous_write_status : ℕ → Bool
is_ambiguous_write_status n =
    nat_eq n 408 || nat_eq n 500 || nat_eq n 502 || nat_eq n 503 || nat_eq n 504

abbrev pub is_success : ℕ → Bool
is_success n = leb 200 n && ltb n 300

abbrev pub is_retryable : ℕ → Bool
is_retryable n =
    nat_eq n 408 || nat_eq n 429 || nat_eq n 500 || nat_eq n 502 || nat_eq n 503 || nat_eq n 504

-- One call of `request_json`.
pub record Call : Type 0 where
  pub method : String
  pub path : String
  pub payload : Option Json
  pub retry_safe : Bool
  pub ambiguous_operation : Option String
  pub local_request_id : Option String

module _ (fl : Floats) where
  open fl use {F}

  pub record Env : Type 0 where
    pub base_url : String
    pub policy : RetryPolicy fl
    -- the n-th `get_access_token` and `force_refresh_access_token`
    pub token : ℕ → Result (Failure F) String
    pub refresh : ℕ → Result (Failure F) String
    -- the n-th `transport.send`
    pub send : ℕ → HttpRequest → Reply F
    pub loads : String → Option Json
    -- Python's `str` of a value
    pub to_text : Json → String
    pub redact_text : String → String
    -- Python's `str` of a mapping or a sequence
    pub show : Value → String

  -- What has been asked of the environment, the latest first.
  pub record Trace : Type 0 where
    pub tokens : ℕ
    pub refreshes : ℕ
    pub sent : List HttpRequest
    pub slept : List F

  pub data Next : Type 0 where
    done : Result (Failure F) Fields → Next
    -- sleep, with the `Retry-After` header if there is one, and try once more
    retry : Option String → Next
    -- refresh the token, and try once more
    renew : Next

module _ {fl : Floats} (env : Env fl) where
  open fl use {F}

  unfoldable pub url : String → String
  url path = if starts_with path "/" then env.base_url ++ path else env.base_url ++ ("/" ++ path)

  unfoldable pub response_payload : HttpResponse → Fields
  response_payload r = elim (json env.loads r) [
    | none ↦ field "Message" (Json.str r.body) end
    | some (obj fs) ↦ fs
    | some v ↦ field "Message" (Json.str (env.to_text v)) end
  ]

  -- `str(payload.get(key, payload.get(other, text)))`
  unfoldable pub get_text : Fields → String → String → String → String
  get_text fs key other default = elim (get fs key) [
    | some v ↦ env.to_text v
    | none ↦ elim (get fs other) [ some v ↦ env.to_text v | none ↦ default ]
  ]

  unfoldable pub api_error_of : HttpResponse → Failure F
  unfolding response_payload get_text
  api_error_of r =
      let payload = response_payload r in
      let e : ApiError = record {
        status_code = r.status_code;
        error = get_text payload "Error" "error" "TradeStationAPIError";
        message = get_text payload "Message" "message" r.body;
        payload = some (obj payload);
      } in
      if nat_eq r.status_code 401
      then authentication_error e
      else if nat_eq r.status_code 429
      then rate_limit_error e (parse_retry_after_seconds fl (header r.headers "Retry-After"))
      else api_error e

  -- `str(value)` of what `redact` returns
  abbrev shown : Value → String
  shown (Value.object s) = s
  shown (Value.text s) = s
  shown v = env.show v

  -- `str(redact(exc))` for an exception with this message
  unfoldable pub redacted_message : String → String
  unfolding redact
  redacted_message message = shown (redact env.redact_text (Value.object message))

module _ {fl : Floats} (env : Env fl) (call : Call) where
  open fl use {F}

  -- `ambiguous_operation or method`
  unfoldable pub operation : String
  operation = elim call.ambiguous_operation [
    | none ↦ call.method
    | some text ↦ if is_blank text then call.method else text
  ]

  unfoldable pub ambiguous : Failure F → Failure F
  ambiguous cause = ambiguous_order_state (operation) call.local_request_id cause

  -- The two `except` branches: `cause` is the exception, `message` its text.
  unfoldable pub after_transport_error : ℕ → Failure F → String → Next fl
  after_transport_error attempt cause message =
      if not call.retry_safe
      then done (err (ambiguous cause))
      else if leb env.policy.max_attempts attempt
      then done (err (retry_exhausted (redacted_message env message)))
      else retry none

  -- A response with a 2xx status.
  unfoldable pub decode : HttpResponse → Result (Failure F) Fields
  decode r = elim (json env.loads r) [
    | some (obj fs) ↦ ok fs
    | none ↦ refuse "expected valid JSON object response" (Json.str r.body)
    | some v ↦ refuse "expected JSON object response" v
  ]
    where
      refuse : String → Json → Result (Failure F) Fields
      refuse message v =
          let e : Failure F = api_error (record {
            status_code = r.status_code;
            error = "InvalidResponse";
            message = message;
            payload = some (obj (field "response" v end));
          }) in
          err (if call.retry_safe then e else ambiguous e)

  unfoldable pub after_response : ℕ → Bool → HttpResponse → Next fl
  after_response attempt refreshed r =
      if nat_eq r.status_code 401 && not refreshed
      then renew
      else if is_success r.status_code
      then done (decode r)
      else if not call.retry_safe && is_ambiguous_write_status r.status_code
      then done (err (ambiguous (api_error_of env r)))
      else if call.retry_safe && is_retryable r.status_code && ltb attempt env.policy.max_attempts
      then retry (header r.headers "Retry-After")
      else done (err (api_error_of env r))

  unfoldable pub after_reply : ℕ → Bool → Reply F → Next fl
  unfolding after_transport_error after_response
  after_reply attempt refreshed (timed_out m) = after_transport_error attempt (network_timeout m) m
  after_reply attempt refreshed (failed m) = after_transport_error attempt (transport_error m) m
  after_reply attempt refreshed (raised e) = done (err e)
  after_reply attempt refreshed (responded r) = after_response attempt refreshed r

  unfoldable pub http_request : String → HttpRequest
  http_request token = record {
    method = call.method;
    url = url env call.path;
    headers = ("Accept", "application/json") ∷ ("Authorization", "Bearer " ++ token) ∷ [];
    json_body = call.payload;
    form_body = [];
  }

  abbrev pub asked_token : Trace fl → Trace fl
  asked_token s = record s { tokens = s.tokens + 1 }

  abbrev pub asked_refresh : Trace fl → Trace fl
  asked_refresh s = record s { refreshes = s.refreshes + 1 }

  abbrev pub did_send : HttpRequest → Trace fl → Trace fl
  did_send q s = record s { sent = q ∷ s.sent }

  abbrev pub did_sleep : ℕ → Option String → Trace fl → Trace fl
  did_sleep attempt retry_after s = record s {
    slept = delay_for_attempt fl env.policy (length s.slept) attempt retry_after ∷ s.slept;
  }

  -- What one round ends with; `loop` is the rest of the loop.
  abbrev pub Loop : Type 0
  Loop = ℕ → Bool → Trace fl → Option (Result (Failure F) Fields) × Trace fl

  pub continue_refreshed :
      Loop
      → ℕ
      → Trace fl
      → Result (Failure F) String
      → Option (Result (Failure F) Fields) × Trace fl
  continue_refreshed loop attempt s (err e) = (some (err e), s)
  continue_refreshed loop attempt s (ok _) = loop attempt true s

  pub continue_with :
      Loop → ℕ → Bool → Trace fl → Next fl → Option (Result (Failure F) Fields) × Trace fl
  unfolding continue_refreshed
  continue_with loop attempt refreshed s (done r) = (some r, s)
  continue_with loop attempt refreshed s (retry h) =
      loop (attempt + 1) refreshed (did_sleep attempt h s)
  continue_with loop attempt refreshed s renew =
      continue_refreshed loop attempt (asked_refresh s) (env.refresh s.refreshes)

  pub attempt_with :
      Loop
      → ℕ
      → Bool
      → Trace fl
      → Result (Failure F) String
      → Option (Result (Failure F) Fields) × Trace fl
  unfolding continue_with
  attempt_with loop attempt refreshed s (err e) = (some (err e), asked_token s)
  attempt_with loop attempt refreshed s (ok token) =
      let q = http_request token in
      continue_with loop attempt refreshed (did_send q (asked_token s))
        (after_reply attempt refreshed (env.send (length s.sent) q))

  -- The loop `while True`, on fuel: `none` means that the fuel ran out.
  unfoldable pub request_loop : ℕ → Loop
  unfolding attempt_with
  request_loop zero attempt refreshed s = (none, s)
  request_loop (suc fuel) attempt refreshed s =
      attempt_with (request_loop fuel) attempt refreshed s (env.token s.tokens)

  -- Each round but the last one retries below `max_attempts` or refreshes for the first time.
  unfoldable pub request_json : Trace fl → Option (Result (Failure F) Fields) × Trace fl
  unfolding request_loop
  request_json s = request_loop (env.policy.max_attempts + 2) 1 false s
