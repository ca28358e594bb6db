-- ===== src/Base/Floats.antt =====
-- Python's floats, as an interface: the operations that the program uses on seconds, and the laws of
-- its comparison (which hold of every float, NaN included). `uniform n lo hi` is the n-th draw of
-- `random.uniform(lo, hi)`; `seconds_until` reads an HTTP date and subtracts the current time.
use Prim.Native.Nat.{ℕ}
use Prim.Native.String.{String}
use mathlib.Core.Path.{◌≡◌}
use mathlib.Core.Bool.{Bool, true, false}
use mathlib.Core.Option.{Option}
use ts_api_wrapper.Base.Tests.{if◌then◌else◌}

pub record Floats : Type 1 where
  pub F : Type 0
  pub nought : F
  pub lt : F → F → Bool
  pub le : F → F → Bool
  pub plus : F → F → F
  pub times : F → F → F
  pub minus : F → F
  -- `x * 2 ** n`, short of the `n` (about 1024) from which Python raises `OverflowError`
  pub scale : F → ℕ → F
  pub uniform : ℕ → F → F → F
  pub is_finite : F → Bool
  -- `float(text)`, or `ValueError`
  pub parse_float : String → Option F
  pub seconds_until : String → Option F
  pub lt_irrefl : (a : F) → lt a a ≡ false
  pub lt_asymm : (a b : F) → lt a b ≡ true → lt b a ≡ false

module _ (fl : Floats) where
  open fl use {F, lt}

  -- Python's `min` and `max` of two: the first, unless the second is smaller, larger.
  abbrev pub min : F → F → F
  min a b = if lt b a then b else a

  abbrev pub max : F → F → F
  max a b = if lt a b then b else a
