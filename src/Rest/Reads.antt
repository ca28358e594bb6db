-- ===== src/Rest/Reads.antt =====
-- A read over a failing network (rest.py: `request_json` with `retry_safe=True`).
use ts_api_wrapper.Base.{
  ℕ, zero, suc, ◌+◌, ◌-◌, ◌≤◌, ◌<◌, ◌≡◌, refl, ap, sym, subst, ◌∙◌, Bool, true, false, Option, none,
  some, length, leb, String, arith, if◌then◌else◌,
}
use ts_api_wrapper.Base.Floats.{Floats}
use ts_api_wrapper.Base.Result.{Result, ok, err}
use ts_api_wrapper.Errors.{Failure, retry_exhausted}
use ts_api_wrapper.Json.{Fields}
use ts_api_wrapper.Transport.{HttpRequest, failed}
use ts_api_wrapper.Rest.{
  Env, Trace, Call, done, retry, after_reply, after_transport_error, redacted_message, http_request,
  asked_token, did_send, did_sleep, continue_with, attempt_with, request_loop, request_json,
}

module _ {fl : Floats} (env : Env fl) (call : Call) (m : String) where
  open fl use {F}

  -- The last attempt raises, an earlier one is repeated after a sleep.
  after_reply-failed :
      (attempt : ℕ) (refreshed : Bool)
      → call.retry_safe ≡ true
      → after_reply env call attempt refreshed (failed m) ≡ (
          if leb env.policy.max_attempts attempt
          then done (err (retry_exhausted (redacted_message env m)))
          else retry none)
  unfolding after_reply after_transport_error
  after_reply-failed attempt refreshed safe = rw (safe)

  abbrev after_send : ℕ → String → Trace fl → Trace fl
  after_send attempt token s =
      did_send env call (http_request env call token) (asked_token env call s)

  -- The loop after a failed attempt.
  request_loop-failed :
      (fuel attempt : ℕ) (refreshed : Bool) (s : Trace fl) (token : String) (last : Bool)
      → leb env.policy.max_attempts attempt ≡ last
      → call.retry_safe ≡ true
      → env.token s.tokens ≡ ok token
      → ((n : ℕ) (q : HttpRequest) → env.send n q ≡ failed m)
      → request_loop env call (suc fuel) attempt refreshed s
        ≡ continue_with env call
            (request_loop env call fuel)
            attempt
            refreshed
            (after_send attempt token s)
            (if last then done (err (retry_exhausted (redacted_message env m))) else retry none)
  unfolding request_loop attempt_with
  request_loop-failed fuel attempt refreshed s token last e safe t fails =
      let q = http_request env call token in
      ap (attempt_with env call (request_loop env call fuel) attempt refreshed s) t
      ∙ ap
          (λ r.
            continue_with env call (request_loop env call fuel) attempt refreshed
              (after_send attempt token s) (after_reply env call attempt refreshed r))
          (fails (length s.sent) q)
      ∙ ap
          (continue_with env call (request_loop env call fuel) attempt refreshed
            (after_send attempt token s))
          (after_reply-failed attempt refreshed safe
            ∙ ap
                (λ b.
                  if b then done (err (retry_exhausted (redacted_message env m))) else retry none)
                e)

  -- The result, and what was sent and slept for.
  abbrev IsExhausted : ℕ → Trace fl → Option (Result (Failure F) Fields) × Trace fl → Type 0
  IsExhausted left s (r, s') =
      (r ≡ some (err (retry_exhausted (redacted_message env m))))
      × (length s'.sent ≡ length s.sent + suc left)
      × (length s'.slept ≡ length s.slept + left)

  module _ (tok : ℕ → String) (safe : call.retry_safe ≡ true)
      (tokens : (n : ℕ) → env.token n ≡ ok (tok n))
      (fails : (n : ℕ) (q : HttpRequest) → env.send n q ≡ failed m) where
    request_loop-IsExhausted :
        (left fuel attempt : ℕ) (refreshed : Bool) (s : Trace fl)
        → attempt + left ≡ env.policy.max_attempts
        → left < fuel
        → IsExhausted left s (request_loop env call fuel attempt refreshed s)
    unfolding continue_with
    request_loop-IsExhausted left zero attempt refreshed s e p = absurd (omega arith)
    request_loop-IsExhausted zero (suc fuel) attempt refreshed s e p =
        let last : leb env.policy.max_attempts attempt ≡ true = ground arith in
        let round =
          request_loop-failed fuel attempt refreshed s (tok s.tokens) _ last safe (tokens s.tokens)
            fails in
        subst (IsExhausted zero s) (sym round) (refl, omega arith, omega arith)
    request_loop-IsExhausted (suc left) (suc fuel) attempt refreshed s e p =
        let more : leb env.policy.max_attempts attempt ≡ false = ground arith in
        let round =
          request_loop-failed fuel attempt refreshed s (tok s.tokens) _ more safe (tokens s.tokens)
            fails in
        let next = did_sleep env call attempt none (after_send attempt (tok s.tokens) s) in
        let (found, sent, slept) =
          request_loop-IsExhausted left fuel (attempt + 1) refreshed next (omega (arith, e))
            (omega (arith, p)) in
        subst (IsExhausted (suc left) s) (sym round)
          (found, omega (arith, sent), omega (arith, slept))

-- A read with at least one attempt allowed, while tokens can be had and the transport fails every
-- time with the same error that is not a timeout, sends exactly `max_attempts` requests, sleeps once
-- between each two, and raises `RetryExhausted` with the text of that error as the transport gave it,
-- not redacted.
pub read_exhausted :
    {fl : Floats} (env : Env fl) (call : Call) (m : String) (tok : ℕ → String) (s : Trace fl)
    → call.retry_safe ≡ true
    → 1 ≤ env.policy.max_attempts
    → ((n : ℕ) → env.token n ≡ ok (tok n))
    → ((n : ℕ) (q : HttpRequest) → env.send n q ≡ failed m)
    → let (r, s') = request_json env call s in
      (r ≡ some (err (retry_exhausted m)))
      × (length s'.sent ≡ length s.sent + env.policy.max_attempts)
      × (length s'.slept + 1 ≡ length s.slept + env.policy.max_attempts)
unfolding request_json redacted_message
read_exhausted env call m tok s safe some_attempt tokens fails =
    let (found, sent, slept) =
      request_loop-IsExhausted env call m tok safe tokens fails (env.policy.max_attempts - 1)
        (env.policy.max_attempts + 2) 1 false s (omega (arith, some_attempt)) (omega arith) in
    (found, omega (arith, sent, some_attempt), omega (arith, slept, some_attempt))
