-- ===== src/Auth/Loopback.antt =====
-- Authorization through a loopback server (auth.py: `authorize_with_loopback`,
-- `_loopback_handler`). The requests that the server meets until the deadline are a list, `none` where
-- `handle_request` timed out; parsing a request's path is an argument.
pub mod Accepted
use ts_api_wrapper.Base.{
  ℕ, String, Bool, true, false, not, Option, none, some, List, [], ◌∷◌, ◌++◌, ◌==◌, if◌then◌else◌,
}
use Prim.Native.String
use ts_api_wrapper.Base.Result.{Result, ok, err}
use ts_api_wrapper.Errors.{Failure}
use ts_api_wrapper.Transport.{Headers}
use ts_api_wrapper.Auth.{OAuthToken, AuthEnv, auth_error}
use ts_api_wrapper.Auth.Store.{eqb_option}
use ts_api_wrapper.Auth.Manager.{Manager, Act, result, exchange_authorization_code}

-- `_LoopbackCallback`
pub record Callback : Type 0 where
  pub expected_state : String
  pub authorization_code : Option String
  pub error : Option String

-- What `urlparse` and `parse_qs` make of a request's path.
pub record Parsed : Type 0 where
  pub path : String
  pub query : List (String × List String)

pub record PkcePair : Type 0 where
  pub verifier : String
  pub challenge : String

-- `query.get(key)`, and its first value
unfoldable pub first_query_value : List (String × List String) → String → Option String
first_query_value [] key = none
first_query_value ((k, values) ∷ rest) key =
    if k == key then elim values [ [] ↦ none | v ∷ _ ↦ some v ] else first_query_value rest key

-- a value that is missing or empty
abbrev pub non_empty : Option String → Option String
non_empty none = none
non_empty (some String.[]) = none
non_empty (some (String.◌∷◌ c t)) = some (String.◌∷◌ c t)

-- Each answer is the callback after the request, and the status of the response.
abbrev pub answer_code : Callback → Option String → Callback × ℕ
answer_code cb none =
    (record cb { error = some "OAuth callback did not include an authorization code" }, 400)
answer_code cb (some code) = (record cb { authorization_code = some code }, 200)

abbrev pub answer_query : Callback → Option String → Option String → Callback × ℕ
answer_query cb (some e) code = (record cb { error = some e }, 400)
answer_query cb none code = answer_code cb code

abbrev pub answer_state : Callback → List (String × List String) → Bool → Callback × ℕ
answer_state cb query false = (record cb { error = some "OAuth state did not match" }, 400)
answer_state cb query true =
    answer_query cb (non_empty (first_query_value query "error"))
      (non_empty (first_query_value query "code"))

abbrev pub answer_path : Callback → List (String × List String) → Bool → Callback × ℕ
answer_path cb query false = (cb, 404)
answer_path cb query true =
    answer_state cb query (eqb_option (first_query_value query "state") (some cb.expected_state))

-- `do_GET`
unfoldable pub do_get : String → Callback → Parsed → Callback × ℕ
unfolding first_query_value
do_get callback_path cb request = answer_path cb request.query (request.path == callback_path)

abbrev pub is_settled : Option String → Option String → Bool
is_settled none none = false
is_settled _ _ = true

-- `while callback.authorization_code is None and callback.error is None`
abbrev pub unless_settled : Bool → Callback → Callback → Callback
unless_settled true cb next = cb
unless_settled false cb next = next

-- The loop of `handle_request` until the callback is settled or the deadline is reached.
unfoldable pub serve : String → Callback → List (Option Parsed) → Callback
unfolding do_get
serve callback_path cb [] = cb
serve callback_path cb (none ∷ rs) =
    unless_settled (is_settled cb.authorization_code cb.error) cb (serve callback_path cb rs)
serve callback_path cb (some request ∷ rs) =
    unless_settled (is_settled cb.authorization_code cb.error) cb
      (serve callback_path (do_get callback_path cb request).0 rs)

abbrev pub waiting : String → Callback
waiting state = record { expected_state = state; authorization_code = none; error = none }

module _ {F S : Type 0} (m : Manager F S) where
  abbrev pub conclude_code : String → Option String → Act F S OAuthToken
  conclude_code verifier none =
      result
        (err (auth_error m.env 0 "OAuthCallbackTimeout" "OAuth callback was not received" none))
  conclude_code verifier (some code) = exchange_authorization_code m code (some verifier)

  -- What is done with the callback in the end.
  abbrev pub conclude : String → Option String → Option String → Act F S OAuthToken
  conclude verifier (some e) code = result (err (auth_error m.env 0 "OAuthCallbackError" e none))
  conclude verifier none code = conclude_code verifier code

  unfoldable pub authorize_with_loopback :
      String → PkcePair → String → List (Option Parsed) → Act F S OAuthToken
  unfolding serve
  authorize_with_loopback state pkce callback_path requests =
      let cb = serve callback_path (waiting state) requests in
      conclude pkce.verifier cb.error cb.authorization_code

-- The query of the authorization URL, before `urlencode`.
abbrev challenge_fields : Option PkcePair → Headers
challenge_fields none = []
challenge_fields (some p) = ("code_challenge", p.challenge) ∷ ("code_challenge_method", "S256") ∷ []

abbrev joined_by_space : List String → String
joined_by_space [] = ""
joined_by_space (x ∷ []) = x
joined_by_space (x ∷ y ∷ ys) =
    Prim.Native.String.◌++◌ x (Prim.Native.String.◌++◌ " " (joined_by_space (y ∷ ys)))

unfoldable pub authorization_query :
    {F : Type 0} → AuthEnv F → List String → String → Option PkcePair → Headers
authorization_query env scopes state pkce =
    ("audience", "https://api.tradestation.com")
    ∷ ("client_id", env.client_id)
    ∷ ("redirect_uri", env.redirect_uri)
    ∷ ("response_type", "code")
    ∷ ("scope", joined_by_space scopes)
    ∷ ("state", state)
    ∷ challenge_fields pkce
