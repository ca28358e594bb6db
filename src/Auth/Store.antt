-- ===== src/Auth/Store.antt =====
-- Token stores (auth.py: `TokenStore`, `MemoryTokenStore`): the three methods over an unknown state,
-- and what a client of a store relies on.
pub mod File
use ts_api_wrapper.Base.{
  String, ◌≡◌, refl, ◌≢◌, Bool, true, false, Option, none, some, ◌==◌, eq_iff, ap, ◌↔◌,
  if◌then◌else◌, Bool-cases, inl, inr, arith,
}
use ts_api_wrapper.Base.Result.{Result, ok, err}
use ts_api_wrapper.Errors.{Failure}
use ts_api_wrapper.Auth.{OAuthToken}

-- `current.refresh_token if current else None`
abbrev pub refresh_of : Option OAuthToken → Option String
refresh_of none = none
refresh_of (some t) = t.refresh_token

-- `a == b` on texts that may be `None`
abbrev pub eqb_option : Option String → Option String → Bool
eqb_option none none = true
eqb_option (some a) (some b) = a == b
eqb_option _ _ = false

pub eqb_option_sound : (a b : Option String) → eqb_option a b ≡ true → a ≡ b
eqb_option_sound none none h = refl
eqb_option_sound (some a) (some b) h = ap some ((eq_iff a b).0 h)
eqb_option_sound none (some b) h = absurd (cc)
eqb_option_sound (some a) none h = absurd (cc)

pub eqb_option_ne : (a b : Option String) → eqb_option a b ≡ false → a ≢ b
eqb_option_ne none none h e = absurd (cc)
eqb_option_ne (some a) (some b) h e = ground (arith, eq_iff a b)
eqb_option_ne none (some b) h e = absurd (cc)
eqb_option_ne (some a) none h e = absurd (cc)

pub record TokenStore (F S : Type 0) : Type 0 where
  pub load : S → Result (Failure F) (Option OAuthToken)
  pub save : OAuthToken → S → Result (Failure F) (Unit {0}) × S
  pub compare_and_swap_refresh_token : Option String → OAuthToken → S → Result (Failure F) Bool × S

module _ {F S : Type 0} (st : TokenStore F S) where
  -- After a save the store holds the token, or as much as before if it raised.
  abbrev pub IsSaved : OAuthToken → S → Result (Failure F) (Unit {0}) × S → Type 0
  IsSaved t s (ok _, s') = st.load s' ≡ ok (some t)
  IsSaved t s (err e, s') = st.load s' ≡ st.load s

  -- A swap happens exactly if the store holds the expected refresh token; else nothing changes.
  abbrev pub IsSwapped : Option String → OAuthToken → S → Result (Failure F) Bool × S → Type 0
  IsSwapped expected t s (ok true, s') =
      (c : Option OAuthToken) × (st.load s ≡ ok c)
      × (refresh_of c ≡ expected)
      × (st.load s' ≡ ok (some t))
  IsSwapped expected t s (ok false, s') =
      (c : Option OAuthToken) × (st.load s ≡ ok c)
      × (refresh_of c ≢ expected)
      × (st.load s' ≡ st.load s)
  IsSwapped expected t s (err e, s') = st.load s' ≡ st.load s

  -- What a token store promises: it is a register with compare-and-swap on the refresh token.
  pub record IsTokenStore : Type 0 where
    pub saves : (t : OAuthToken) (s : S) → IsSaved t s (st.save t s)
    pub swaps :
        (expected : Option String) (t : OAuthToken) (s : S)
        → IsSwapped expected t s (st.compare_and_swap_refresh_token expected t s)

-- `MemoryTokenStore`: its state is the token.
unfoldable pub memory_swap {ℓ} :
    {E : Type ℓ}
    → Option String
    → OAuthToken
    → Option OAuthToken
    → Result E Bool × Option OAuthToken
memory_swap expected replacement current =
    if eqb_option (refresh_of current) expected
    then (ok true, some replacement)
    else (ok false, current)

abbrev pub memory_store : (F : Type 0) → TokenStore F (Option OAuthToken)
memory_store F = record {
  load = λ s. ok s;
  save = λ t s. (ok tt, some t);
  compare_and_swap_refresh_token = λ expected t s. memory_swap expected t s;
}

memory_swaps :
    (F : Type 0) (expected : Option String) (t : OAuthToken) (s : Option OAuthToken)
    → IsSwapped (memory_store F) expected t s (memory_swap expected t s)
unfolding memory_swap
memory_swaps F expected t s = go (eqb_option (refresh_of s) expected) refl
  where
    go :
        (b : Bool)
        → eqb_option (refresh_of s) expected ≡ b
        → IsSwapped (memory_store F) expected t s (if b then (ok true, some t) else (ok false, s))
    go true e = (s, refl, eqb_option_sound (refresh_of s) expected e, refl)
    go false e = (s, refl, eqb_option_ne (refresh_of s) expected e, refl)

-- A store in memory keeps the promises of a token store.
pub memory_store-IsTokenStore : (F : Type 0) → IsTokenStore (memory_store F)
memory_store-IsTokenStore F = record { saves = λ t s. refl; swaps = memory_swaps F }
