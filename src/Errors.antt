-- ===== src/Errors.antt =====
-- Exceptions (src/tradestation_api_wrapper/errors.py), as values.
-- `Error` holds what is raised before anything is sent, `Failure` what a request may raise. Messages
-- that the source formats with values are kept by their fixed part.
use ts_api_wrapper.Base.{ℕ, String, Option, Bool, true, false}
use ts_api_wrapper.Base.Result.{Result, ok, err}
use ts_api_wrapper.Json.{Json}

pub data Error : Type 0 where
  -- `ValueError`, and pydantic's `ValidationError`, which is one
  value_error : String → Error
  configuration_error : String → Error
  request_validation_error : String → Error
  pagination_error : String → Error
  capability_error : String → Error
  stream_parse_error : String → Error
  -- a `TypeError` of Python itself
  type_error : String → Error
  -- an `OverflowError` of Python itself
  overflow_error : String → Error

-- `TradeStationAPIError`
pub record ApiError : Type 0 where
  pub status_code : ℕ
  pub error : String
  pub message : String
  pub payload : Option Json

-- `F` is the type of floating-point seconds.
pub data Failure (F : Type 0) : Type 0 where
  local : Error → Failure F
  network_timeout : String → Failure F
  transport_error : String → Failure F
  -- `HTTPStreamOpenError`
  stream_open_error : ApiError → Failure F
  retry_exhausted : String → Failure F
  api_error : ApiError → Failure F
  rate_limit_error : ApiError → Option F → Failure F
  authentication_error : ApiError → Failure F
  stream_error : Json → Failure F
  -- the operation, the caller's request ID, the cause
  ambiguous_order_state : String → Option String → Failure F → Failure F

abbrev pub is_ambiguous_order_state : {F : Type 0} → Failure F → Bool
is_ambiguous_order_state (ambiguous_order_state _ _ _) = true
is_ambiguous_order_state _ = false

abbrev pub lift {ℓ} : {F : Type 0} {A : Type ℓ} → Result Error A → Result (Failure F) A
lift (ok a) = ok a
lift (err e) = err (local e)
