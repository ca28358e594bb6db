-- ===== src/Tests/Auth.antt =====
-- The theorems on authentication, applied to values.
use ts_api_wrapper.Base.{
  ℕ, zero, suc, ◌≡◌, refl, true, false, Option, none, some, List, [], ◌∷◌, arith,
}
use ts_api_wrapper.Base.Int.{pos}
use ts_api_wrapper.Base.DateTime.{aware}
use ts_api_wrapper.Base.Result.{ok, err}
use ts_api_wrapper.Errors.{Failure}
use ts_api_wrapper.Json.{Json, obj, end, field}
use ts_api_wrapper.Transport.{responded}
use ts_api_wrapper.Auth.{OAuthToken, AuthEnv}
use ts_api_wrapper.Auth.Store.{IsTokenStore, memory_store, memory_store-IsTokenStore}
use ts_api_wrapper.Auth.Store.File.{FileEnv, file_store, file_store-IsTokenStore}
use ts_api_wrapper.Auth.Manager.{
  Manager, World, refresh_access_token, exchange_authorization_code, get_access_token,
  force_refresh_access_token,
}
use ts_api_wrapper.Auth.Manager.Stored.{IsStored, IsHeld, tokens-IsStored}
use ts_api_wrapper.Auth.Loopback.{Parsed, PkcePair, authorize_with_loopback}
use ts_api_wrapper.Auth.Loopback.Accepted.{
  IsAccepted, first_callback, authorize_with_loopback-IsAccepted,
}
use ts_api_wrapper.Auth.Lock.{
  System, trying, opened, inside, init, enter, create, write, Steps, done, step, prompt_rules,
  undisturbed_rules, read_lock_pid, move_to, leave_file, update, stopped,
}
use ts_api_wrapper.Auth.Lock.Exclusion.{mutual_exclusion}
use ts_api_wrapper.Auth.Lock.Runs.{live_lock_stolen, stale_lock_recovered}

abbrev token : OAuthToken
token = record {
  access_token = "access";
  refresh_token = some "refresh";
  token_type = "Bearer";
  expires_at = aware (pos 0);
  scope = none;
}

-- A file that holds the token itself, a lock that is had, and a disk that takes the first write only.
abbrev file_env : FileEnv ℕ OAuthToken
file_env = record {
  encode = λ t. t;
  decode = λ t. ok t;
  acquire = λ n. ok tt;
  replace = λ n. elim n [ zero ↦ ok tt | suc k ↦ err (Failure.transport_error "disk full") ];
}

file_store-IsTokenStore_example : IsTokenStore (file_store file_env)
file_store-IsTokenStore_example = file_store-IsTokenStore file_env (λ t. refl)

-- A token endpoint that gives out one access token.
abbrev auth_env : AuthEnv ℕ
auth_env = record {
  client_id = "client";
  client_secret = none;
  redirect_uri = "http://localhost:8080/callback";
  int_of_float = λ v. none;
  to_text = λ v. "text";
  redact_text = λ s. s;
  loads = λ s. some (obj (field "access_token" (Json.str "renewed") end));
  send = λ n q. responded (record { status_code = 200; headers = []; body = "token" });
  now = λ n. pos 1;
}

abbrev manager : Manager ℕ (Option OAuthToken)
manager = record { env = auth_env; store = memory_store ℕ; others = λ n s. s }

abbrev world : World (Option OAuthToken)
world = record { state = some token; accesses = 0; readings = 0; sent = [] }

tokens-IsStored_example :
    IsStored manager (memory_store-IsTokenStore ℕ) (refresh_access_token manager false world)
    × IsStored manager
        (memory_store-IsTokenStore ℕ)
        (exchange_authorization_code manager "code" none world)
    × IsHeld manager (memory_store-IsTokenStore ℕ) (get_access_token manager world)
    × IsHeld manager (memory_store-IsTokenStore ℕ) (force_refresh_access_token manager world)
tokens-IsStored_example =
    tokens-IsStored manager (memory_store-IsTokenStore ℕ) false "code" none world

-- A request for an icon, one with no code yet timed out, and the redirection.
abbrev requests : List (Option Parsed)
requests =
    some (record { path = "/favicon.ico"; query = [] })
    ∷ none
    ∷ some (record {
      path = "/callback";
      query = ("state", "nonce" ∷ []) ∷ ("code", "code" ∷ []) ∷ [];
    })
    ∷ []

abbrev pkce : PkcePair
pkce = record { verifier = "verifier"; challenge = "challenge" }

authorize_with_loopback-IsAccepted_example :
    IsAccepted manager "nonce" "verifier"
      (first_callback "/callback" requests)
      world
      (authorize_with_loopback manager "nonce" pkce "/callback" requests world)
authorize_with_loopback-IsAccepted_example =
    authorize_with_loopback-IsAccepted manager "nonce" pkce "/callback" requests world

-- Process 7 takes the lock.
abbrev entered : System
entered = move_to init 7 trying

abbrev created : System
created = leave_file entered (some (record { creator = 7; pid = none; aged = false })) 7 opened

abbrev locked : System
locked = leave_file created (some (record { creator = 7; pid = some 7; aged = false })) 7 inside

lock_run : Steps undisturbed_rules init locked
unfolding native.Mathlib.Decide.ℕ_discrete
lock_run =
    step (step (step done (enter 7 refl)) (create 7 (omega arith) refl refl refl)) (write 7 refl)

mutual_exclusion_example :
    (◌≡◌ {A = ℕ} 7 7) × (locked.running 7 ≡ true) × (read_lock_pid locked.file ≡ some 7)
unfolding native.Mathlib.Decide.ℕ_discrete
mutual_exclusion_example = mutual_exclusion lock_run 7 7 refl refl

live_lock_stolen_example :
    (t : System) × Steps prompt_rules init t
    × (t.phase 1 ≡ inside)
    × (t.phase 2 ≡ inside)
    × (t.running ≡ init.running)
live_lock_stolen_example =
    live_lock_stolen init 1 2 (λ e. omega (arith, e)) (omega arith) (omega arith) refl refl refl
      refl refl

-- Process 7 ends while it holds the lock.
abbrev abandoned : System
abandoned = record {
  file = locked.file;
  phase = update locked.phase 7 stopped;
  running = update locked.running 7 false;
}

stale_lock_recovered_example :
    (t : System) × Steps undisturbed_rules abandoned t
    × (t.phase 8 ≡ inside)
    × (read_lock_pid t.file ≡ some 8)
unfolding native.Mathlib.Decide.ℕ_discrete
stale_lock_recovered_example = stale_lock_recovered abandoned 8 7 (omega arith) refl refl refl refl
