-- ===== src/Base/DateTime.antt =====
-- Python's `datetime`: a naive value is a reading of a clock with no zone, an aware one is an instant.
-- Both count microseconds from a fixed moment.
use mathlib.Core.Bool.{Bool, true, false}
use ts_api_wrapper.Base.Int.{ℤ}

pub data DateTime : Type 0 where
  naive aware : ℤ → DateTime

-- `value.tzinfo is not None and value.utcoffset() is not None`
abbrev pub is_aware : DateTime → Bool
is_aware (naive _) = false
is_aware (aware _) = true
