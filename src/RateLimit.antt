-- ===== src/RateLimit.antt =====
-- Delays between attempts (src/tradestation_api_wrapper/rate_limit.py, and the reconnect delay of
-- stream.py).
pub mod Bounds
use ts_api_wrapper.Base.{ℕ, String, Bool, true, false, not, Option, none, some, ◌-◌, if◌then◌else◌}
use ts_api_wrapper.Base.Floats.{Floats, min, max}

module _ (fl : Floats) where
  open fl use {
    F, nought, le, plus, times, minus, scale, uniform, is_finite, parse_float, seconds_until,
  }

  pub record RetryPolicy : Type 0 where
    pub max_attempts : ℕ
    pub base_delay_seconds : F
    pub max_delay_seconds : F
    pub jitter_ratio : F
    pub retry_after_ceiling_seconds : F

  unfoldable pub parse_retry_after_seconds : Option String → Option F
  parse_retry_after_seconds none = none
  parse_retry_after_seconds (some value) = elim (parse_float value) [
    | some numeric ↦ if is_finite numeric then some (max fl nought numeric) else none
    | none ↦ elim (seconds_until value) [
      | some seconds ↦ some (max fl nought seconds)
      | none ↦ none
    ]
  ]

  -- `draw` counts the delays drawn so far. From about attempt 1025 on, Python raises `OverflowError`
  -- where `scale` is computed.
  unfoldable pub delay_for_attempt : RetryPolicy → ℕ → ℕ → Option String → F
  delay_for_attempt p draw attempt_index retry_after =
      elim (parse_retry_after_seconds retry_after) [
        | some parsed ↦ min fl parsed p.retry_after_ceiling_seconds
        | none ↦
            let delay =
              min fl (scale p.base_delay_seconds (attempt_index - 1)) p.max_delay_seconds in
            let spread = times delay p.jitter_ratio in
            if le p.jitter_ratio nought
            then delay
            else max fl nought (plus delay (uniform draw (minus spread) spread))
      ]

  -- `StreamReconnectPolicy`, but for its `sleeper`
  pub record StreamReconnectPolicy : Type 0 where
    pub max_reconnects : ℕ
    pub base_delay : F
    pub max_delay : F
    pub retry_after_ceiling : F

  -- From about reconnect 1025 on, Python raises `OverflowError` where `scale` is computed.
  unfoldable pub delay_for_reconnect : StreamReconnectPolicy → ℕ → Option F → F
  delay_for_reconnect p reconnect_number (some seconds) =
      min fl (max fl nought seconds) p.retry_after_ceiling
  delay_for_reconnect p reconnect_number none =
      max fl nought (min fl (scale p.base_delay (reconnect_number - 1)) p.max_delay)
