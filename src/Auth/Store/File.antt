-- ===== src/Auth/Store/File.antt =====
-- The token store in a file (auth.py: `FileTokenStore`). The lock's acquisition and the write of the
-- file may fail, the release of the lock does not; under the lock a method is one step. The codec is
-- an argument, of which a client relies on the round trip.
use ts_api_wrapper.Base.{
  ℕ, ◌+◌, String, ◌≡◌, refl, Bool, true, false, Option, none, some, ap, if◌then◌else◌,
}
use ts_api_wrapper.Base.Result.{Result, ok, err}
use ts_api_wrapper.Errors.{Failure}
use ts_api_wrapper.Auth.{OAuthToken}
use ts_api_wrapper.Auth.Store.{
  refresh_of, eqb_option, eqb_option_sound, eqb_option_ne, TokenStore, IsSaved, IsSwapped,
  IsTokenStore,
}

-- `B` is the type of bytes that the codec makes and reads.
pub record FileEnv (F B : Type 0) : Type 0 where
  pub encode : OAuthToken → B
  pub decode : B → Result (Failure F) OAuthToken
  -- the n-th acquisition of the lock, and the n-th write of the temporary file and `os.replace`
  pub acquire : ℕ → Result (Failure F) (Unit {0})
  pub replace : ℕ → Result (Failure F) (Unit {0})

pub record FileState (B : Type 0) : Type 0 where
  -- the file at the path, if it exists
  pub file : Option B
  pub acquisitions : ℕ
  pub writes : ℕ

module _ {F B : Type 0} (env : FileEnv F B) where
  abbrev token_of : Result (Failure F) OAuthToken → Result (Failure F) (Option OAuthToken)
  token_of (ok t) = ok (some t)
  token_of (err e) = err e

  unfoldable pub load_unlocked : FileState B → Result (Failure F) (Option OAuthToken)
  load_unlocked s = elim s.file [ none ↦ ok none | some bytes ↦ token_of (env.decode bytes) ]

  abbrev pub acquired : FileState B → FileState B
  acquired s = record s { acquisitions = s.acquisitions + 1 }

  abbrev written : Result (Failure F) (Unit {0}) → OAuthToken → FileState B → FileState B
  written (ok _) t s = record s { file = some (env.encode t); writes = s.writes + 1 }
  written (err _) t s = record s { writes = s.writes + 1 }

  -- `os.replace` puts the whole new file in place, or raises and leaves the old one.
  unfoldable pub save_unlocked :
      OAuthToken → FileState B → Result (Failure F) (Unit {0}) × FileState B
  save_unlocked t s = (env.replace s.writes, written (env.replace s.writes) t s)

  abbrev save_with :
      Result (Failure F) (Unit {0})
      → OAuthToken
      → FileState B
      → Result (Failure F) (Unit {0}) × FileState B
  save_with (err e) t s = (err e, s)
  save_with (ok _) t s = save_unlocked t s

  unfoldable pub save_file : OAuthToken → FileState B → Result (Failure F) (Unit {0}) × FileState B
  unfolding save_unlocked
  save_file t s = save_with (env.acquire s.acquisitions) t (acquired s)

  abbrev swapped :
      Result (Failure F) (Unit {0}) × FileState B → Result (Failure F) Bool × FileState B
  swapped (ok _, s) = (ok true, s)
  swapped (err e, s) = (err e, s)

  abbrev swap_loaded :
      Option String
      → OAuthToken
      → FileState B
      → Result (Failure F) (Option OAuthToken)
      → Result (Failure F) Bool × FileState B
  swap_loaded expected t s (err e) = (err e, s)
  swap_loaded expected t s (ok current) =
      if eqb_option (refresh_of current) expected
      then swapped (save_unlocked t s)
      else (ok false, s)

  abbrev swap_with :
      Result (Failure F) (Unit {0})
      → Option String
      → OAuthToken
      → FileState B
      → Result (Failure F) Bool × FileState B
  swap_with (err e) expected t s = (err e, s)
  swap_with (ok _) expected t s = swap_loaded expected t s (load_unlocked s)

  unfoldable pub swap_file :
      Option String → OAuthToken → FileState B → Result (Failure F) Bool × FileState B
  unfolding save_unlocked load_unlocked
  swap_file expected t s = swap_with (env.acquire s.acquisitions) expected t (acquired s)

  abbrev pub file_store : TokenStore F (FileState B)
  file_store = record {
    load = λ s. load_unlocked s;
    save = λ t s. save_file t s;
    compare_and_swap_refresh_token = λ expected t s. swap_file expected t s;
  }

  module _ (round_trip : (t : OAuthToken) → env.decode (env.encode t) ≡ ok t) where
    save_unlocked-IsSaved :
        (t : OAuthToken) (s : FileState B) → IsSaved file_store t s (save_unlocked t s)
    unfolding save_unlocked load_unlocked
    save_unlocked-IsSaved t s = go (env.replace s.writes)
      where
        go : (r : Result (Failure F) (Unit {0})) → IsSaved file_store t s (r, written r t s)
        go (ok _) = ap token_of (round_trip t)
        go (err e) = refl

    save_file-IsSaved : (t : OAuthToken) (s : FileState B) → IsSaved file_store t s (save_file t s)
    unfolding save_file load_unlocked
    save_file-IsSaved t s = go (env.acquire s.acquisitions)
      where
        go :
            (r : Result (Failure F) (Unit {0}))
            → IsSaved file_store t s (save_with r t (acquired s))
        go (ok _) = save_unlocked-IsSaved t (acquired s)
        go (err e) = refl

    swap_file-IsSwapped :
        (expected : Option String) (t : OAuthToken) (s : FileState B)
        → IsSwapped file_store expected t s (swap_file expected t s)
    unfolding swap_file load_unlocked
    swap_file-IsSwapped expected t s = go (env.acquire s.acquisitions)
      where
        stored :
            (r : Result (Failure F) (Unit {0}) × FileState B) (c : Option OAuthToken)
            → load_unlocked s ≡ ok c
            → refresh_of c ≡ expected
            → IsSaved file_store t s r
            → IsSwapped file_store expected t s (swapped r)
        stored (ok _, s') c e m h = (c, e, m, h)
        stored (err x, s') c e m h = h

        compared :
            (c : Option OAuthToken) (b : Bool)
            → load_unlocked s ≡ ok c
            → eqb_option (refresh_of c) expected ≡ b
            → IsSwapped file_store expected t s
                (if b then swapped (save_unlocked t (acquired s)) else (ok false, acquired s))
        compared c true e m =
            stored (save_unlocked t (acquired s)) c e (eqb_option_sound (refresh_of c) expected m)
              (save_unlocked-IsSaved t (acquired s))
        compared c false e m = (c, e, eqb_option_ne (refresh_of c) expected m, refl)

        loaded :
            (r : Result (Failure F) (Option OAuthToken))
            → load_unlocked s ≡ r
            → IsSwapped file_store expected t s (swap_loaded expected t (acquired s) r)
        loaded (err x) e = refl
        loaded (ok c) e = compared c (eqb_option (refresh_of c) expected) e refl

        go :
            (r : Result (Failure F) (Unit {0}))
            → IsSwapped file_store expected t s (swap_with r expected t (acquired s))
        go (err x) = refl
        go (ok _) = loaded (load_unlocked s) refl

-- A store in a file keeps the promises of a token store, whichever acquisitions of the lock and
-- whichever writes fail, if its codec decodes what it encodes: each method does to the file what the
-- promises say, or it raises and the file holds the same token as before.
pub file_store-IsTokenStore :
    {F B : Type 0} (env : FileEnv F B)
    → ((t : OAuthToken) → env.decode (env.encode t) ≡ ok t)
    → IsTokenStore (file_store env)
file_store-IsTokenStore env round_trip = record {
  saves = save_file-IsSaved env round_trip;
  swaps = swap_file-IsSwapped env round_trip;
}
