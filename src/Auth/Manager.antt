-- ===== src/Auth/Manager.antt =====
-- The OAuth manager (auth.py: `OAuthManager`) over any token store. Other tasks and processes may
-- change the store before each access: `others n` is what they do before the n-th one. A lock of the
-- manager's own lets one refresh run at a time.
pub mod Stored
use ts_api_wrapper.Base.{
  ℕ, ◌+◌, String, Bool, true, false, ◌&&◌, ◌||◌, not, Option, none, some, List, [], ◌∷◌, ◌++◌,
  if◌then◌else◌,
}
use Prim.Native.String
use ts_api_wrapper.Base.Int.{ℤ}
use ts_api_wrapper.Base.Result.{Result, ok, err}
use ts_api_wrapper.Base.Text.{is_blank}
use ts_api_wrapper.Errors.{Error, Failure, local, network_timeout, transport_error, lift}
use ts_api_wrapper.Transport.{
  HttpRequest, HttpResponse, Headers, Reply, responded, timed_out, failed, raised,
}
use ts_api_wrapper.Auth.{
  OAuthToken, AuthEnv, auth_error, expires_soon, payload_of_response, from_token_response,
}
use ts_api_wrapper.Auth.Store.{TokenStore}

abbrev pub token_url : String
token_url = "https://signin.tradestation.com/oauth/token"

module _ (F S : Type 0) where
  pub record Manager : Type 0 where
    pub env : AuthEnv F
    pub store : TokenStore F S
    pub others : ℕ → S → S

-- The store, the accesses to it so far, the clock readings, and the requests sent, the latest first.
pub record World (S : Type 0) : Type 0 where
  pub state : S
  pub accesses : ℕ
  pub readings : ℕ
  pub sent : List HttpRequest

abbrev pub Act : Type 0 → Type 0 → Type 0 → Type 0
Act F S A = World S → Result (Failure F) A × World S

module _ {F S A B : Type 0} where
  abbrev pub follow :
      (A → Act F S B) → Result (Failure F) A × World S → Result (Failure F) B × World S
  follow k (ok a, w) = k a w
  follow k (err e, w) = (err e, w)

  infixl 5 ◌>>=◌
  unfoldable pub ◌>>=◌ : Act F S A → (A → Act F S B) → Act F S B
  (m >>= k) w = follow k (m w)

module _ {F S A : Type 0} where
  abbrev pub result : Result (Failure F) A → Act F S A
  result r w = (r, w)

abbrev given_field : String → Option String → Headers
given_field name none = []
given_field name (some value) = if is_blank value then [] else (name, value) ∷ []

module _ {F S : Type 0} (m : Manager F S) where
  open m use {env, store}

  -- An access to the store, after what the others did.
  abbrev pub met : World S → World S
  met w = record w { state = m.others w.accesses w.state; accesses = w.accesses + 1 }

  abbrev pub after :
      {A : Type 0} → World S → Result (Failure F) A × S → Result (Failure F) A × World S
  after w (r, s) = (r, record w { state = s })

  unfoldable pub load : Act F S (Option OAuthToken)
  load w = (store.load (met w).state, met w)

  unfoldable pub save : OAuthToken → Act F S (Unit {0})
  save t w = after (met w) (store.save t (met w).state)

  unfoldable pub swap : Option String → OAuthToken → Act F S Bool
  swap expected t w = after (met w) (store.compare_and_swap_refresh_token expected t (met w).state)

  unfoldable pub now : Act F S ℤ
  now w = (ok (env.now w.readings), record w { readings = w.readings + 1 })

  abbrev response_of : Reply F → Result (Failure F) HttpResponse
  response_of (responded r) = ok r
  response_of (timed_out x) = err (network_timeout x)
  response_of (failed x) = err (transport_error x)
  response_of (raised e) = err e

  abbrev count : List HttpRequest → ℕ
  count [] = 0
  count (_ ∷ qs) = count qs + 1

  unfoldable pub send : HttpRequest → Act F S HttpResponse
  send q w = (response_of (env.send (count w.sent) q), record w { sent = q ∷ w.sent })

  abbrev pub form_request : Headers → HttpRequest
  form_request form = record {
    method = "POST";
    url = token_url;
    headers = [];
    json_body = none;
    form_body = form;
  }

  unfoldable pub exchange_request : String → Option String → HttpRequest
  exchange_request code verifier = form_request (
      ("grant_type", "authorization_code")
      ∷ ("client_id", env.client_id)
      ∷ ("code", code)
      ∷ ("redirect_uri", env.redirect_uri)
      ∷ (given_field "client_secret" env.client_secret ++ given_field "code_verifier" verifier))

  unfoldable pub refresh_request : String → HttpRequest
  refresh_request refresh = form_request (
      ("grant_type", "refresh_token")
      ∷ ("client_id", env.client_id)
      ∷ ("refresh_token", refresh)
      ∷ given_field "client_secret" env.client_secret)

  unfoldable pub exchange_authorization_code : String → Option String → Act F S OAuthToken
  unfolding load save now send exchange_request
  exchange_authorization_code code verifier = do
    response ← send (exchange_request code verifier)
    payload ← result (payload_of_response env response "authorization-code exchange failed")
    issued_at ← now
    token ← result (from_token_response env payload none issued_at)
    _ ← save token
    result (ok token)

  -- The refresh token of what the store holds, with it.
  abbrev pub with_refresh : OAuthToken → Option String → Result (Failure F) (OAuthToken × String)
  with_refresh t none =
      err (auth_error env 0 "MissingRefreshToken" "no refresh token is available" none)
  with_refresh t (some refresh) = ok (t, refresh)

  abbrev pub refreshable : Option OAuthToken → Result (Failure F) (OAuthToken × String)
  refreshable none =
      err (auth_error env 0 "MissingRefreshToken" "no refresh token is available" none)
  refreshable (some t) = with_refresh t t.refresh_token

  abbrev pub latest_of : Option OAuthToken → Result (Failure F) OAuthToken
  latest_of none = err (auth_error env 0 "TokenStoreRace" "token store lost current token" none)
  latest_of (some t) = ok t

  -- What a refresh returns: the new token if it was swapped in, else what the store then holds.
  unfoldable pub settle : OAuthToken → Bool → Act F S OAuthToken
  unfolding load
  settle replacement true = result (ok replacement)
  settle replacement false = do latest ← load; result (latest_of latest)

  -- Asking the token endpoint for a new token.
  unfoldable pub renew : String → Act F S OAuthToken
  unfolding swap now send refresh_request settle
  renew refresh = do
    response ← send (refresh_request refresh)
    payload ← result (payload_of_response env response "token refresh failed")
    issued_at ← now
    replacement ← result (from_token_response env payload (some refresh) issued_at)
    swapped ← swap (some refresh) replacement
    settle replacement swapped

  -- `not force and not current.expires_soon()`
  unfoldable pub is_needed : Bool → OAuthToken → Act F S Bool
  unfolding now
  is_needed true current = result (ok true)
  is_needed false current = do time ← now; result (lift (expires_soon current time))

  unfoldable pub renew_if : OAuthToken → String → Bool → Act F S OAuthToken
  unfolding renew
  renew_if current refresh false = result (ok current)
  renew_if current refresh true = renew refresh

  unfoldable pub refresh_access_token : Bool → Act F S OAuthToken
  unfolding load is_needed renew_if
  refresh_access_token force = do
    held ← load
    current ← result (refreshable held)
    needed ← is_needed force current.0
    renew_if current.0 current.1 needed

  abbrev pub present : Option OAuthToken → Result (Failure F) OAuthToken
  present none = err (auth_error env 0 "MissingToken" "no OAuth token is available" none)
  present (some t) = ok t

  unfoldable pub fresh_token : OAuthToken → Bool → Act F S OAuthToken
  unfolding refresh_access_token
  fresh_token token false = result (ok token)
  fresh_token token true = refresh_access_token false

  unfoldable pub get_access_token : Act F S String
  unfolding load now fresh_token
  get_access_token = do
    held ← load
    token ← result (present held)
    time ← now
    soon ← result (lift (expires_soon token time))
    fresh ← fresh_token token soon
    result (ok fresh.access_token)

  unfoldable pub force_refresh_access_token : Act F S String
  unfolding refresh_access_token
  force_refresh_access_token = do token ← refresh_access_token true; result (ok token.access_token)
