-- ===== src/Tests/Rates.antt =====
-- The theorems on delays, applied to values.
use ts_api_wrapper.Base.{ℕ, ◌≡◌, refl, ◌⊎◌, false, true, Option, none, some}
use ts_api_wrapper.RateLimit.{
  delay_for_attempt, delay_for_reconnect, parse_retry_after_seconds, StreamReconnectPolicy,
}
use ts_api_wrapper.RateLimit.Bounds.{
  server_delay_bounds, backoff_delay_bounds, delay_for_reconnect_bounds,
}
use ts_api_wrapper.Tests.{seconds, policy}

-- The server asks for 7 seconds, the ceiling is 5.
server_delay_bounds_example :
    let d = delay_for_attempt seconds policy 0 1 (some "7") in
    (((seconds.lt 5 7 ≡ false) × (d ≡ 7)) ⊎ ((seconds.lt 5 7 ≡ true) × (d ≡ 5)))
    × (seconds.lt 5 d ≡ false)
    × (seconds.lt d 0 ≡ false)
unfolding parse_retry_after_seconds
server_delay_bounds_example = server_delay_bounds seconds policy 0 1 (some "7") 7 refl refl

backoff_delay_bounds_example :
    let d = delay_for_attempt seconds policy 0 3 none in
    ((seconds.le 0 0 ≡ true) × (seconds.lt 30 d ≡ false))
    ⊎ ((seconds.le 0 0 ≡ false) × (seconds.lt d 0 ≡ false))
unfolding parse_retry_after_seconds
backoff_delay_bounds_example = backoff_delay_bounds seconds policy 0 3 none refl

abbrev reconnects : StreamReconnectPolicy seconds
reconnects = record { max_reconnects = 3; base_delay = 1; max_delay = 30; retry_after_ceiling = 5 }

delay_for_reconnect_bounds_example :
    let d = delay_for_reconnect seconds reconnects 1 (some 9) in
    (seconds.lt d 0 ≡ false) × ((◌≡◌ {A = Option ℕ} (some 9) none) ⊎ (seconds.lt 5 d ≡ false))
delay_for_reconnect_bounds_example = delay_for_reconnect_bounds seconds reconnects 1 (some 9) refl
