-- ===== src/Rest/Run.antt =====
-- Code that may use the network: from a trace, the result and the trace after it. `none` stands for
-- a loop that ran out of fuel, as in `request_loop`.
use ts_api_wrapper.Base.{Option, none, some}
use ts_api_wrapper.Base.Floats.{Floats}
use ts_api_wrapper.Base.Result.{Result, ok, err}
use ts_api_wrapper.Errors.{Error, Failure, lift}
use ts_api_wrapper.Rest.{Trace}

abbrev pub Run : Floats → Type 0 → Type 0
Run fl A = Trace fl → Option (Result (Failure fl.F) A) × Trace fl

module _ {fl : Floats} {A B : Type 0} where
  unfoldable pub continue :
      (A → Run fl B)
      → Option (Result (Failure fl.F) A) × Trace fl
      → Option (Result (Failure fl.F) B) × Trace fl
  continue k (some (ok a), s) = k a s
  continue k (some (err e), s) = (some (err e), s)
  continue k (none, s) = (none, s)

  infixl 5 ◌>>=◌
  unfoldable pub ◌>>=◌ : Run fl A → (A → Run fl B) → Run fl B
  unfolding continue
  (m >>= k) s = continue k (m s)

module _ {fl : Floats} {B : Type 0} where
  infixl 5 ◌>>◌
  unfoldable pub ◌>>◌ : Run fl (Unit {0}) → Run fl B → Run fl B
  unfolding ◌>>=◌
  m >> k = m >>= λ _. k

module _ {fl : Floats} {A : Type 0} where
  abbrev pub pure : A → Run fl A
  pure a s = (some (ok a), s)

  -- a step that uses no network
  abbrev pub locally : Result Error A → Run fl A
  locally r s = (some (lift r), s)
