-- ===== src/Transport.antt =====
-- HTTP requests and responses (src/tradestation_api_wrapper/transport.py), and the answers that a
-- transport gives. The body of a response is its text, decoded with replacement characters; the calls
-- of urllib and httpx are the environment.
pub mod Reader
use ts_api_wrapper.Base.{ℕ, String, Option, none, some, List, [], ◌∷◌, ◌==◌, if◌then◌else◌}
use ts_api_wrapper.Base.Text.{is_blank}
use ts_api_wrapper.Json.{Json, obj, end}
use ts_api_wrapper.Errors.{Failure}

abbrev pub Headers : Type 0
Headers = List (String × String)

-- `headers.get(name)`, on an ordinary dict: names are compared as they are spelled.
unfoldable pub header : Headers → String → Option String
header [] name = none
header ((k, v) ∷ hs) name = if k == name then some v else header hs name

pub record HttpRequest : Type 0 where
  pub method : String
  pub url : String
  pub headers : Headers
  pub json_body : Option Json
  pub form_body : Headers

pub record HttpResponse : Type 0 where
  pub status_code : ℕ
  pub headers : Headers
  pub body : String

-- `response.json()`; `loads` is `json.loads`, with `none` for a `ValueError`.
unfoldable pub json : (String → Option Json) → HttpResponse → Option Json
json loads r = if is_blank r.body then some (obj end) else loads r.body

-- What `transport.send` does: a response, `NetworkTimeout`, another `TransportError`, or any other
-- exception.
pub data Reply (F : Type 0) : Type 0 where
  responded : HttpResponse → Reply F
  timed_out : String → Reply F
  failed : String → Reply F
  raised : Failure F → Reply F
