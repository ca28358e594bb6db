-- ===== src/Auth/Loopback/Accepted.antt =====
-- Which authorization code is accepted (auth.py: `_loopback_handler`, `authorize_with_loopback`).
use ts_api_wrapper.Base.{
  String, ◌≡◌, refl, ap, sym, subst, some-injective, none-ne-some, ◌∙◌, ◌⊎◌, inl, inr, Bool, true,
  false, Option, none, some, List, [], ◌∷◌, ◌==◌, if◌then◌else◌,
}
use ts_api_wrapper.Base.Result.{Result, err}
use ts_api_wrapper.Errors.{Failure}
use ts_api_wrapper.Auth.{OAuthToken}
use ts_api_wrapper.Auth.Store.{eqb_option, eqb_option_sound, eqb_option_ne}
use ts_api_wrapper.Auth.Manager.{Manager, World, exchange_authorization_code}
use ts_api_wrapper.Auth.Loopback.{
  Callback, Parsed, PkcePair, first_query_value, non_empty, answer_query, answer_state, answer_path,
  do_get, is_settled, serve, waiting, unless_settled, conclude, authorize_with_loopback,
}

-- The first request to the callback's path.
unfoldable pub first_callback : String → List (Option Parsed) → Option Parsed
first_callback path [] = none
first_callback path (none ∷ rs) = first_callback path rs
first_callback path (some r ∷ rs) = if r.path == path then some r else first_callback path rs

-- A request that carries the state and a code, and no error of the provider.
pub record IsGrant (state : String) (r : Parsed) (code : String) : Type 0 where
  pub same_state : first_query_value r.query "state" ≡ some state
  pub no_error : non_empty (first_query_value r.query "error") ≡ none
  pub has_code : non_empty (first_query_value r.query "code") ≡ some code

-- Once settled, the callback stays as it is.
serve_settled :
    (path : String) (cb : Callback) (rs : List (Option Parsed))
    → is_settled cb.authorization_code cb.error ≡ true
    → serve path cb rs ≡ cb
unfolding serve
serve_settled path cb [] h = refl
serve_settled path cb (none ∷ rs) h = ap (λ b. unless_settled b cb (serve path cb rs)) h
serve_settled path cb (some r ∷ rs) h =
    ap (λ b. unless_settled b cb (serve path (do_get path cb r).0 rs)) h

-- A request to the callback's path settles a callback that waits.
answer_settles :
    (state : String) (query : List (String × List String)) (same : Bool)
    → let cb = (answer_state (waiting state) query same).0 in
      is_settled cb.authorization_code cb.error ≡ true
answer_settles state query false = refl
answer_settles state query true =
    go (non_empty (first_query_value query "error")) (non_empty (first_query_value query "code"))
  where
    go :
        (e code : Option String)
        → let cb = (answer_query (waiting state) e code).0 in
          is_settled cb.authorization_code cb.error ≡ true
    go (some x) code = refl
    go none none = refl
    go none (some c) = refl

abbrev answer_first : String → Option Parsed → Callback
answer_first state none = waiting state
answer_first state (some r) =
    (answer_state (waiting state) r.query
      (eqb_option (first_query_value r.query "state") (some state))).0

serve_first :
    (path state : String) (rs : List (Option Parsed))
    → serve path (waiting state) rs ≡ answer_first state (first_callback path rs)
unfolding serve first_callback do_get
serve_first path state [] = refl
serve_first path state (none ∷ rs) = serve_first path state rs
serve_first path state (some r ∷ rs) = go (r.path == path) (serve_first path state rs)
  where
    answered : Callback
    answered = answer_first state (some r)

    go :
        (b : Bool)
        → serve path (waiting state) rs ≡ answer_first state (first_callback path rs)
        → serve path (answer_path (waiting state) r.query b).0 rs
          ≡ answer_first state (if b then some r else first_callback path rs)
    go true ih =
        serve_settled path (answer_first state (some r)) rs (
          answer_settles state r.query
            (eqb_option (first_query_value r.query "state") (some state)))
    go false ih = ih

module _ {F S : Type 0} (m : Manager F S) where
  -- The exchange of a code that the first request to the callback's path granted, or an exception,
  -- with no request sent and the store untouched.
  abbrev pub IsAccepted :
      String → String → Option Parsed → World S → Result (Failure F) OAuthToken × World S → Type 0
  IsAccepted state verifier first w outcome =
      ((r : Parsed) × (code : String) × (first ≡ some r)
        × IsGrant state r code
        × (outcome ≡ exchange_authorization_code m code (some verifier) w))
      ⊎ ((e : Failure F) × (outcome ≡ (err e, w))
          × (¬ ((r : Parsed) × (code : String) × (first ≡ some r) × IsGrant state r code)))

  -- A grant of a request is that request's own.
  granted :
      (state : String) (r : Parsed)
      → ((r' : Parsed) × (code : String) × (some r ≡ some r') × IsGrant state r' code)
      → (code : String) × IsGrant state r code
  granted state r (r', code, p, g) =
      (code, subst (λ x. IsGrant state x code) (sym (some-injective _ _ p)) g)

  conclude_answer :
      (state verifier : String) (r : Parsed) (w : World S) (same : Bool)
      → eqb_option (first_query_value r.query "state") (some state) ≡ same
      → let cb = (answer_state (waiting state) r.query same).0 in
        IsAccepted state verifier (some r) w (conclude m verifier cb.error cb.authorization_code w)
  conclude_answer state verifier r w false h =
      inr (_, refl, λ g. eqb_option_ne _ _ h (granted state r g).1.same_state)
  conclude_answer state verifier r w true h = go _ refl _ refl
    where
      go :
          (e : Option String)
          → non_empty (first_query_value r.query "error") ≡ e
          → (code : Option String) → non_empty (first_query_value r.query "code") ≡ code
          → let cb = (answer_query (waiting state) e code).0 in
            IsAccepted state verifier
              (some r)
              w
              (conclude m verifier cb.error cb.authorization_code w)
      go (some x) p code q =
          inr (_, refl, λ g. absurd (none-ne-some _ (sym (granted state r g).1.no_error ∙ p)))
      go none p none q =
          inr (_, refl, λ g. absurd (none-ne-some _ (sym q ∙ (granted state r g).1.has_code)))
      go none p (some c) q = inl (
        r,
        c,
        refl,
        record { same_state = eqb_option_sound _ _ h; no_error = p; has_code = q },
        refl,
      )

  conclude_first :
      (state verifier : String) (first : Option Parsed) (w : World S)
      → let cb = answer_first state first in
        IsAccepted state verifier first w (conclude m verifier cb.error cb.authorization_code w)
  conclude_first state verifier none w = inr (_, refl, λ g. absurd (none-ne-some _ g.2))
  conclude_first state verifier (some r) w = conclude_answer state verifier r w _ refl

-- Only the first request to the callback's path counts, whatever else is requested before or after it.
-- If it carries the state that was sent, a code and no error of the provider, the outcome is the
-- exchange of that code with the PKCE verifier. Else, or if there is none until the deadline, an
-- exception is raised, with no request sent to the token endpoint and the token store untouched.
pub authorize_with_loopback-IsAccepted :
    {F S : Type 0} (m : Manager F S) (state : String) (pkce : PkcePair) (callback_path : String)
    (requests : List (Option Parsed)) (w : World S)
    → IsAccepted m state pkce.verifier
        (first_callback callback_path requests)
        w
        (authorize_with_loopback m state pkce callback_path requests w)
unfolding authorize_with_loopback
authorize_with_loopback-IsAccepted m state pkce callback_path requests w =
    subst
      (λ cb.
        IsAccepted m state pkce.verifier (first_callback callback_path requests) w
          (conclude m pkce.verifier cb.error cb.authorization_code w))
      (sym (serve_first callback_path state requests))
      (conclude_first m state pkce.verifier (first_callback callback_path requests) w)
