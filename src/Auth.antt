-- ===== src/Auth.antt =====
-- OAuth tokens (src/tradestation_api_wrapper/auth.py): reading the token endpoint's answers. What
-- the module takes from Python, pydantic and its configuration is the record `AuthEnv`.
pub mod Store
pub mod Manager
pub mod Loopback
pub mod Lock
use ts_api_wrapper.Base.{
  ℕ, ◌+◌, ◌*◌, String, Bool, true, false, ◌&&◌, not, Option, none, some, List, [], ◌∷◌, leb,
  if◌then◌else◌,
}
use ts_api_wrapper.Base.Int.{ℤ, pos, ◌+ℤ◌, leb_ℤ, pos_part, neg_part}
use ts_api_wrapper.Base.DateTime.{DateTime, naive, aware}
use ts_api_wrapper.Base.Result.{Result, ok, err, ◌>>=◌, ◌>>◌, raise_if}
use ts_api_wrapper.Errors.{
  Error, ApiError, Failure, authentication_error, local, overflow_error, type_error,
}
use ts_api_wrapper.Json.{Json, Fields, obj, get, has}
use ts_api_wrapper.Json
use ts_api_wrapper.Models.Snapshots.{is_truthy_json}
use ts_api_wrapper.Redaction.Json.{redact_json, redact_fields}
use ts_api_wrapper.Transport.{HttpRequest, HttpResponse, json, Reply}

pub record OAuthToken : Type 0 where
  pub access_token : String
  pub refresh_token : Option String
  pub token_type : String
  pub expires_at : DateTime
  pub scope : Option String

pub record AuthEnv (F : Type 0) : Type 0 where
  pub client_id : String
  pub client_secret : Option String
  pub redirect_uri : String
  -- `int(float(value))`, or `ValueError` or `OverflowError`
  pub int_of_float : Json → Option ℤ
  -- Python's `str` of a value
  pub to_text : Json → String
  pub redact_text : String → String
  pub loads : String → Option Json
  -- the n-th `transport.send`
  pub send : ℕ → HttpRequest → Reply F
  -- the n-th `datetime.now(UTC)`, in microseconds
  pub now : ℕ → ℤ

abbrev pub default_token_lifetime_seconds : ℤ
default_token_lifetime_seconds = pos 1200

-- `REFRESH_MARGIN`, in microseconds
abbrev pub refresh_margin : ℤ
refresh_margin = pos 120000000

-- `n` seconds in microseconds
abbrev pub microseconds : ℤ → ℤ
microseconds (pos n) = pos (n * 1000000)
microseconds (ℤ.negsuc n) = ℤ.negsuc (n * 1000000 + 999999)

-- The last moment of year 9999, from the first of year 1.
abbrev pub last_moment : ℤ
last_moment = pos 315537897599999999

-- `issued_at + timedelta(seconds=seconds)`
unfoldable pub plus_seconds : ℤ → ℤ → Result Error DateTime
plus_seconds t seconds =
    let sum = t +ℤ microseconds seconds in
    if leb_ℤ (pos 0) sum && leb_ℤ sum last_moment
    then ok (aware sum)
    else err (overflow_error "date value out of range")

-- `self.expires_at <= current_time + REFRESH_MARGIN`; a naive moment is not compared with an aware
unfoldable pub expires_soon : OAuthToken → ℤ → Result Error Bool
expires_soon token now = elim token.expires_at [
  | aware t ↦ ok (leb_ℤ t (now +ℤ refresh_margin))
  | naive _ ↦ err (type_error "can't compare offset-naive and offset-aware datetimes")
]

abbrev is_number_or_text : Json → Bool
is_number_or_text (Json.str _) = true
is_number_or_text (Json.int _) = true
is_number_or_text (Json.float _ _) = true
is_number_or_text (Json.bool _) = true
is_number_or_text _ = false

module _ {F : Type 0} (env : AuthEnv F) where
  abbrev default_or : Option ℤ → ℤ
  default_or none = default_token_lifetime_seconds
  default_or (some n) = n

  unfoldable pub coerce_expires_in_seconds : Option Json → ℤ
  coerce_expires_in_seconds none = default_token_lifetime_seconds
  coerce_expires_in_seconds (some v) =
      if is_number_or_text v
      then default_or (env.int_of_float v)
      else default_token_lifetime_seconds

  -- `payload.get("refresh_token") or existing_refresh_token`, as a text if it is true
  unfoldable pub next_refresh_token : Fields → Option String → Option String
  next_refresh_token payload existing = elim (get payload "refresh_token") [
    | none ↦ given existing
    | some v ↦ if is_truthy_json (some v) then some (env.to_text v) else given existing
  ]
    where
      given : Option String → Option String
      given none = none
      given (some String.[]) = none
      given (some (String.◌∷◌ c t)) = some (String.◌∷◌ c t)

  abbrev text_of : Option Json → String → String
  text_of none default = default
  text_of (some v) default = env.to_text v

  abbrev option_text : Option Json → Option String
  option_text none = none
  option_text (some v) = some (env.to_text v)

  abbrev redacted : Option Fields → Option Json
  redacted none = none
  redacted (some fs) = some (obj (redact_fields env.redact_text fs))

  abbrev pub auth_error : ℕ → String → String → Option Fields → Failure F
  auth_error status error message payload = authentication_error (record {
    status_code = status;
    error = error;
    message = message;
    payload = redacted payload;
  })

  abbrev expiry : Result Error DateTime → (DateTime → OAuthToken) → Result (Failure F) OAuthToken
  expiry (ok t) make = ok (make t)
  expiry (err e) make = err (local e)

  unfoldable pub from_token_response : Fields → Option String → ℤ → Result (Failure F) OAuthToken
  unfolding get coerce_expires_in_seconds next_refresh_token plus_seconds
  from_token_response payload existing issued_at = elim (get payload "access_token") [
    | some (Json.str access) ↦
        expiry (plus_seconds issued_at (coerce_expires_in_seconds (get payload "expires_in")))
          (λ expires_at. record {
            access_token = access;
            refresh_token = next_refresh_token payload existing;
            token_type = text_of (get payload "token_type") "Bearer";
            expires_at = expires_at;
            scope = option_text (get payload "scope");
          })
    | _ ↦ err (auth_error 0 "InvalidTokenResponse" "missing access_token" (some payload))
  ]

  unfoldable pub decode_token_payload : HttpResponse → Option Fields
  decode_token_payload r = elim (json env.loads r) [ some (obj fs) ↦ some fs | _ ↦ none ]

  unfoldable pub token_error_message : Option Fields → String → String
  token_error_message none fallback = fallback
  token_error_message (some fs) fallback = elim (get fs "error_description") [
    | some v ↦ env.to_text v
    | none ↦ text_of (get fs "message") fallback
  ]

  abbrev error_text : Option Fields → String
  error_text none = "AuthError"
  error_text (some fs) = text_of (get fs "error") "AuthError"

  unfoldable pub token_error : Option Fields → ℕ → String → Failure F
  unfolding token_error_message
  token_error payload status fallback =
      auth_error status (error_text payload) (token_error_message payload fallback) payload

  -- The payload of a token endpoint's response, if it is a success.
  unfoldable pub payload_of_response : HttpResponse → String → Result (Failure F) Fields
  unfolding decode_token_payload token_error
  payload_of_response r fallback = elim (decode_token_payload r) [
    | none ↦ err (token_error none r.status_code fallback)
    | some payload ↦
        if leb 400 r.status_code
        then err (token_error (some payload) r.status_code fallback)
        else ok payload
  ]
