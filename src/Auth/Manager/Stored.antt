-- ===== src/Auth/Manager/Stored.antt =====
-- The tokens that the manager returns stand in the store (auth.py: `OAuthManager`).
use ts_api_wrapper.Base.{String, ◌≡◌, refl, ap, ◌∙◌, Bool, true, false, Option, none, some}
use ts_api_wrapper.Base.Result.{Result, ok, err, ok-injective}
use ts_api_wrapper.Errors.{Failure, lift}
use ts_api_wrapper.Auth.{OAuthToken, expires_soon}
use ts_api_wrapper.Auth.Store.{IsTokenStore, IsSaved, IsSwapped}
use ts_api_wrapper.Auth.Manager.{
  Manager, World, Act, follow, ◌>>=◌, result, met, after, load, save, swap, now, send, settle,
  renew, is_needed, renew_if, refreshable, with_refresh, present, latest_of, refresh_access_token,
  fresh_token, get_access_token, force_refresh_access_token, exchange_authorization_code,
  refresh_request, exchange_request,
}

module _ {F S : Type 0} (m : Manager F S) (law : IsTokenStore m.store) where
  -- A returned token is the one that the store then holds.
  abbrev pub IsStored : Result (Failure F) OAuthToken × World S → Type 0
  IsStored (ok t, w) = m.store.load w.state ≡ ok (some t)
  IsStored (err e, w) = Unit

  abbrev Stores : Act F S OAuthToken → Type 0
  Stores act = (w : World S) → IsStored (act w)

  -- A returned access token is that of the token that the store then holds.
  abbrev pub IsHeld : Result (Failure F) String × World S → Type 0
  IsHeld (ok access, w) =
      (t : OAuthToken) × (m.store.load w.state ≡ ok (some t)) × (t.access_token ≡ access)
  IsHeld (err e, w) = Unit

  -- What holds of every exception, and of what follows each result, holds of a sequence.
  >>=-holds :
      {A B : Type 0} (P : Result (Failure F) B × World S → Type 0) (act : Act F S A)
      (k : A → Act F S B) (w : World S)
      → ((e : Failure F) (v : World S) → P (err e, v))
      → ((a : A) → (act w).0 ≡ ok a → P (k a (act w).1))
      → P ((act >>= k) w)
  unfolding ◌>>=◌
  >>=-holds P act k w raises h = go (act w) h
    where
      go :
          (r : Result (Failure F) _ × World S)
          → ((a : _) → r.0 ≡ ok a → P (k a r.1))
          → P (follow k r)
      go (ok a, v) g = g a refl
      go (err e, v) g = raises e v

  >>=-IsStored :
      {A : Type 0} (act : Act F S A) (k : A → Act F S OAuthToken) (w : World S)
      → ((a : A) → (act w).0 ≡ ok a → IsStored (k a (act w).1))
      → IsStored ((act >>= k) w)
  >>=-IsStored act k w h = >>=-holds IsStored act k w (λ e v. tt) h

  >>=-IsHeld :
      {A : Type 0} (act : Act F S A) (k : A → Act F S String) (w : World S)
      → ((a : A) → (act w).0 ≡ ok a → IsHeld (k a (act w).1))
      → IsHeld ((act >>= k) w)
  >>=-IsHeld act k w h = >>=-holds IsHeld act k w (λ e v. tt) h

  latest_of-IsStored :
      (held : Option OAuthToken) (w : World S)
      → m.store.load w.state ≡ ok held
      → IsStored (latest_of m held, w)
  latest_of-IsStored none w h = tt
  latest_of-IsStored (some t) w h = h

  settle-IsStored :
      (t : OAuthToken) (w : World S) (b : Bool)
      → (b ≡ true → m.store.load w.state ≡ ok (some t))
      → IsStored (settle m t b w)
  unfolding settle load
  settle-IsStored t w true h = h refl
  settle-IsStored t w false h =
      >>=-IsStored (load m) _ w (λ held e. latest_of-IsStored held (met m w) e)

  -- A swap that happened leaves its token in the store.
  swap-stores :
      (expected : Option String) (t : OAuthToken) (w : World S) (b : Bool)
      → (swap m expected t w).0 ≡ ok b
      → b ≡ true
      → m.store.load (swap m expected t w).1.state ≡ ok (some t)
  unfolding swap
  swap-stores expected t w b e yes_swapped =
      go (m.store.compare_and_swap_refresh_token expected t (met m w).state)
        (law.swaps expected t (met m w).state) e
    where
      go :
          (r : Result (Failure F) Bool × S)
          → IsSwapped m.store expected t (met m w).state r
          → (after m (met m w) r).0 ≡ ok b
          → m.store.load (after m (met m w) r).1.state ≡ ok (some t)
      go (ok true, s) (c, held, same, stored) q = stored
      go (ok false, s) h q = absurd (cc)
      go (err x, s) h q = absurd (cc)

  swap-IsStored :
      (expected : Option String) (t : OAuthToken) (w : World S)
      → IsStored ((swap m expected t >>= λ swapped. settle m t swapped) w)
  swap-IsStored expected t w =
      >>=-IsStored (swap m expected t) (λ swapped. settle m t swapped) w
        λ swapped e.
          settle-IsStored t (swap m expected t w).1 swapped (swap-stores expected t w swapped e)

  renew-IsStored : (refresh : String) → Stores (renew m refresh)
  unfolding renew
  renew-IsStored refresh w = >>=-IsStored (send m (refresh_request m refresh)) _ w λ response _.
      >>=-IsStored (result _) _ _ λ payload _. >>=-IsStored (now m) _ _ λ issued_at _.
        >>=-IsStored (result _) _ _ λ replacement _. swap-IsStored (some refresh) replacement _

  is_needed-state :
      (force : Bool) (t : OAuthToken) (w : World S) → (is_needed m force t w).1.state ≡ w.state
  unfolding is_needed ◌>>=◌ now
  is_needed-state true t w = refl
  is_needed-state false t w = refl

  renew_if-IsStored :
      (t : OAuthToken) (refresh : String) (needed : Bool) (w : World S)
      → m.store.load w.state ≡ ok (some t)
      → IsStored (renew_if m t refresh needed w)
  unfolding renew_if
  renew_if-IsStored t refresh false w h = h
  renew_if-IsStored t refresh true w h = renew-IsStored refresh w

  refreshable_sound :
      (held : Option OAuthToken) (t : OAuthToken) (refresh : String)
      → refreshable m held ≡ ok (t, refresh)
      → held ≡ some t
  refreshable_sound none t refresh h = absurd (cc)
  refreshable_sound (some u) t refresh h = go u.refresh_token h
    where
      go : (o : Option String) → with_refresh m u o ≡ ok (t, refresh) → some u ≡ some t
      go none k = absurd (cc)
      go (some x) k = ap (λ p. some p.0) (ok-injective k)

  refresh-IsStored : (force : Bool) → Stores (refresh_access_token m force)
  unfolding refresh_access_token load
  refresh-IsStored force w = >>=-IsStored (load m) _ w λ held e.
      >>=-IsStored (result (refreshable m held)) _ (met m w) λ current e'.
        >>=-IsStored (is_needed m force current.0) _ (met m w) λ needed _.
          renew_if-IsStored current.0 current.1 needed (is_needed m force current.0 (met m w)).1 (
            ap m.store.load (is_needed-state force current.0 (met m w))
            ∙ e
            ∙ ap ok (refreshable_sound held current.0 current.1 e'))

  -- The access token of what is stored.
  access-IsHeld :
      (act : Act F S OAuthToken) (w : World S)
      → IsStored (act w)
      → IsHeld ((act >>= λ t. result (ok t.access_token)) w)
  unfolding ◌>>=◌
  access-IsHeld act w h = go (act w) h
    where
      go :
          (r : Result (Failure F) OAuthToken × World S)
          → IsStored r
          → IsHeld (follow (λ t. result (ok t.access_token)) r)
      go (ok t, v) h = (t, h, refl)
      go (err e, v) h = tt

  present_sound :
      (held : Option OAuthToken) (t : OAuthToken) → present m held ≡ ok t → held ≡ some t
  present_sound none t h = absurd (cc)
  present_sound (some u) t h = ap some (ok-injective h)

  fresh_token-IsStored :
      (t : OAuthToken) (soon : Bool) (w : World S)
      → m.store.load w.state ≡ ok (some t)
      → IsStored (fresh_token m t soon w)
  unfolding fresh_token
  fresh_token-IsStored t false w h = h
  fresh_token-IsStored t true w h = refresh-IsStored false w

  get-IsHeld : (w : World S) → IsHeld (get_access_token m w)
  unfolding get_access_token load now
  get-IsHeld w = >>=-IsHeld (load m) _ w λ held e.
      >>=-IsHeld (result (present m held)) _ (met m w) λ token e'.
        >>=-IsHeld (now m) _ (met m w) λ time _.
          >>=-IsHeld (result (lift (expires_soon token time))) _ (now m (met m w)).1 λ soon _.
            access-IsHeld (fresh_token m token soon) (now m (met m w)).1 (
              fresh_token-IsStored token soon (now m (met m w)).1
                (e ∙ ap ok (present_sound held token e')))

  force-IsHeld : (w : World S) → IsHeld (force_refresh_access_token m w)
  unfolding force_refresh_access_token
  force-IsHeld w = access-IsHeld (refresh_access_token m true) w (refresh-IsStored true w)

  save-IsStored : (t : OAuthToken) (w : World S) → IsStored ((save m t >>= λ _. result (ok t)) w)
  unfolding ◌>>=◌ save
  save-IsStored t w = go (m.store.save t (met m w).state) (law.saves t (met m w).state)
    where
      go :
          (r : Result (Failure F) (Unit {0}) × S)
          → IsSaved m.store t (met m w).state r
          → IsStored (follow (λ _. result (ok t)) (after m (met m w) r))
      go (ok _, s) h = h
      go (err e, s) h = tt

  exchange-IsStored :
      (code : String) (verifier : Option String)
      → Stores (exchange_authorization_code m code verifier)
  unfolding exchange_authorization_code
  exchange-IsStored code verifier w =
      >>=-IsStored (send m (exchange_request m code verifier)) _ w λ response _.
        >>=-IsStored (result _) _ _ λ payload _.
          >>=-IsStored (now m) _ _
            λ issued_at _. >>=-IsStored (result _) _ _ λ token _. save-IsStored token _

-- Over any store that keeps the promises of a token store, and whatever other tasks and processes do
-- to it before each access, a token that a refresh or the exchange of an authorization code returns is
-- the token that the store holds when it returns, and an access token that the manager gives out is
-- that of the token that the store then holds.
pub tokens-IsStored :
    {F S : Type 0} (m : Manager F S) (law : IsTokenStore m.store) (force : Bool) (code : String)
    (verifier : Option String) (w : World S)
    → IsStored m law (refresh_access_token m force w)
      × IsStored m law (exchange_authorization_code m code verifier w)
      × IsHeld m law (get_access_token m w)
      × IsHeld m law (force_refresh_access_token m w)
tokens-IsStored m law force code verifier w = (
  refresh-IsStored m law force w,
  exchange-IsStored m law code verifier w,
  get-IsHeld m law w,
  force-IsHeld m law w,
)
