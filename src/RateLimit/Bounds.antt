-- ===== src/RateLimit/Bounds.antt =====
-- Every delay is bounded (rate_limit.py, stream.py).
use ts_api_wrapper.Base.{
  ℕ, String, ◌≡◌, refl, true, false, Option, none, some, arith, Bool-cases, inl, inr, Option-cases,
  ◌⊎◌,
}
use ts_api_wrapper.Base.Floats.{Floats, min, max}
use ts_api_wrapper.RateLimit.{
  RetryPolicy, parse_retry_after_seconds, delay_for_attempt, StreamReconnectPolicy,
  delay_for_reconnect,
}

module _ (fl : Floats) where
  open fl use {F, nought, lt, le, lt_irrefl, lt_asymm}

  min_le_right : (a b : F) → lt b (min fl a b) ≡ false
  min_le_right a b = elim (Bool-cases (lt b a)) [ inl e ↦ rw e (lt_irrefl b) | inr e ↦ rw e e ]

  min-cases :
      (a b : F) → ((lt b a ≡ false) × (min fl a b ≡ a)) ⊎ ((lt b a ≡ true) × (min fl a b ≡ b))
  min-cases a b = elim (Bool-cases (lt b a)) [
    | inl e ↦ inr (e, rw e refl)
    | inr e ↦ inl (e, rw e refl)
  ]

  max_nonneg : (a : F) → lt (max fl nought a) nought ≡ false
  max_nonneg a = elim (Bool-cases (lt nought a)) [
    | inl e ↦ rw e (lt_asymm nought a e)
    | inr e ↦ rw e (lt_irrefl nought)
  ]

  min_nonneg :
      (a b : F) → lt a nought ≡ false → lt b nought ≡ false → lt (min fl a b) nought ≡ false
  min_nonneg a b p q = elim (Bool-cases (lt b a)) [ inl e ↦ rw e q | inr e ↦ rw e p ]

  -- What is parsed is cut off at zero.
  parsed_nonneg :
      (value : Option String) (d : F)
      → parse_retry_after_seconds fl value ≡ some d
      → lt d nought ≡ false
  unfolding parse_retry_after_seconds
  parsed_nonneg none d h = cc
  parsed_nonneg (some v) d h = elim (Option-cases (fl.parse_float v)) [
    | inl e ↦ elim (Option-cases (fl.seconds_until v)) [
      | inl n ↦ absurd (ground arith)
      | inr (s, q) ↦ ground (arith, max_nonneg s)
    ]
    | inr (x, e) ↦ ground (arith, max_nonneg x)
  ]

-- The delay is the one that the server asks for, or, if the ceiling is below that one, the ceiling. It
-- is not above the ceiling, and it is not negative if the ceiling is not.
pub server_delay_bounds :
    (fl : Floats) (p : RetryPolicy fl) (draw attempt : ℕ) (retry_after : Option String) (s : fl.F)
    → parse_retry_after_seconds fl retry_after ≡ some s
    → fl.lt p.retry_after_ceiling_seconds fl.nought ≡ false
    → let d = delay_for_attempt fl p draw attempt retry_after in
      (((fl.lt p.retry_after_ceiling_seconds s ≡ false) × (d ≡ s))
        ⊎ ((fl.lt p.retry_after_ceiling_seconds s ≡ true) × (d ≡ p.retry_after_ceiling_seconds)))
      × (fl.lt p.retry_after_ceiling_seconds d ≡ false)
      × (fl.lt d fl.nought ≡ false)
unfolding delay_for_attempt
server_delay_bounds fl p draw attempt retry_after s h q =
    rw (h, delay_for_attempt)
      (
        min-cases fl s p.retry_after_ceiling_seconds,
        min_le_right fl s p.retry_after_ceiling_seconds,
        min_nonneg fl s p.retry_after_ceiling_seconds (parsed_nonneg fl retry_after s h) q,
      )

-- A delay that the server does not ask for is, without jitter, not above the maximum, and with
-- jitter not negative.
pub backoff_delay_bounds :
    (fl : Floats) (p : RetryPolicy fl) (draw attempt : ℕ) (retry_after : Option String)
    → parse_retry_after_seconds fl retry_after ≡ none
    → let d = delay_for_attempt fl p draw attempt retry_after in
      ((fl.le p.jitter_ratio fl.nought ≡ true) × (fl.lt p.max_delay_seconds d ≡ false))
      ⊎ ((fl.le p.jitter_ratio fl.nought ≡ false) × (fl.lt d fl.nought ≡ false))
unfolding delay_for_attempt
backoff_delay_bounds fl p draw attempt retry_after h =
    elim (Bool-cases (fl.le p.jitter_ratio fl.nought)) [
      | inl e ↦ inl (e, rw (h, e, delay_for_attempt) (min_le_right fl _ p.max_delay_seconds))
      | inr e ↦ inr (e, rw (h, e, delay_for_attempt) (max_nonneg fl _))
    ]

-- The delay before a stream reconnects is not above the ceiling if the server asked for one, and not
-- negative if the ceiling is not.
pub delay_for_reconnect_bounds :
    (fl : Floats) (p : StreamReconnectPolicy fl) (number : ℕ) (asked : Option fl.F)
    → fl.lt p.retry_after_ceiling fl.nought ≡ false
    → let d = delay_for_reconnect fl p number asked in
      (fl.lt d fl.nought ≡ false) × ((asked ≡ none) ⊎ (fl.lt p.retry_after_ceiling d ≡ false))
unfolding delay_for_reconnect
delay_for_reconnect_bounds fl p number none q = (max_nonneg fl _, inl refl)
delay_for_reconnect_bounds fl p number (some s) q = (
  min_nonneg fl _ p.retry_after_ceiling (max_nonneg fl s) q,
  inr (min_le_right fl _ p.retry_after_ceiling),
)
