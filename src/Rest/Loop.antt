-- ===== src/Rest/Loop.antt =====
-- The request loop ends, and sends a bounded number of requests (rest.py: `request_json`).
use ts_api_wrapper.Base.{
  ℕ, zero, suc, ◌+◌, ◌-◌, ◌≤◌, ◌<◌, ◌≡◌, refl, Bool, true, false, Option, arith, is_some, length,
  String,
}
use ts_api_wrapper.Base.Floats.{Floats}
use ts_api_wrapper.Base.Result.{Result, ok, err}
use ts_api_wrapper.Errors.{Failure}
use ts_api_wrapper.Json.{Fields}
use ts_api_wrapper.Transport.{Reply, responded, timed_out, failed, raised}
use ts_api_wrapper.Rest.{
  Env, Trace, Call, Next, done, retry, renew, Loop, after_reply, http_request, asked_token,
  asked_refresh, did_send, did_sleep, continue_refreshed, continue_with, attempt_with, request_loop,
  request_json,
}

module _ {fl : Floats} (env : Env fl) (call : Call) where
  open fl use {F}

  -- A retry is for a call that is safe to retry and below the last attempt, a renewal the first.
  abbrev IsAllowed : ℕ → Bool → Next fl → Type 0
  IsAllowed attempt refreshed (done r) = Unit
  IsAllowed attempt refreshed (retry h) =
      (call.retry_safe ≡ true) × (attempt < env.policy.max_attempts)
  IsAllowed attempt refreshed renew = refreshed ≡ false

  pub after_reply-IsAllowed :
      (attempt : ℕ) (refreshed : Bool) (reply : Reply F) (n : Next fl)
      → after_reply env call attempt refreshed reply ≡ n
      → IsAllowed attempt refreshed n
  unfolding after_reply
  after_reply-IsAllowed attempt refreshed reply (done r) e = tt
  after_reply-IsAllowed attempt refreshed (timed_out m) (retry h) e = ground arith
  after_reply-IsAllowed attempt refreshed (failed m) (retry h) e = ground arith
  after_reply-IsAllowed attempt refreshed (raised f) (retry h) e = cc
  after_reply-IsAllowed attempt refreshed (responded r) (retry h) e = ground arith
  after_reply-IsAllowed attempt refreshed (timed_out m) renew e = ground arith
  after_reply-IsAllowed attempt refreshed (failed m) renew e = ground arith
  after_reply-IsAllowed attempt refreshed (raised f) renew e = cc
  after_reply-IsAllowed attempt refreshed (responded r) renew e = ground arith

  -- The rounds that may still follow the present one.
  abbrev renewals : Bool → ℕ
  renewals true = 0
  renewals false = 1

  abbrev rounds : ℕ → Bool → ℕ
  rounds attempt refreshed = (env.policy.max_attempts - attempt) + renewals refreshed

  -- The loop returns, having sent at most `n` requests more than the trace has.
  abbrev Ends : ℕ → ℕ → Option (Result (Failure F) Fields) × Trace fl → Type 0
  Ends before n (r, s) = (is_some r ≡ true) × (length s.sent ≤ before + n)

  abbrev LoopEnds : ℕ → Loop env call → Type 0
  LoopEnds bound loop =
      (attempt : ℕ) (refreshed : Bool) (s : Trace fl)
      → rounds attempt refreshed < bound
      → Ends (length s.sent) (rounds attempt refreshed + 1) (loop attempt refreshed s)

  continue_refreshed-Ends :
      (bound : ℕ) (loop : Loop env call) (k : LoopEnds bound loop) (attempt : ℕ) (s : Trace fl)
      (r : Result (Failure F) String)
      → rounds attempt true < bound
      → Ends
          (length s.sent)
          (rounds attempt true + 1)
          (continue_refreshed env call loop attempt s r)
  unfolding continue_refreshed
  continue_refreshed-Ends bound loop k attempt s (err e) h = (refl, omega arith)
  continue_refreshed-Ends bound loop k attempt s (ok t) h = k attempt true s h

  continue_with-Ends :
      (bound : ℕ) (loop : Loop env call) (k : LoopEnds bound loop) (attempt : ℕ) (refreshed : Bool)
      (s : Trace fl) (n : Next fl)
      → IsAllowed attempt refreshed n
      → rounds attempt refreshed < suc bound
      → Ends
          (length s.sent)
          (rounds attempt refreshed)
          (continue_with env call loop attempt refreshed s n)
  unfolding continue_with
  continue_with-Ends bound loop k attempt refreshed s (done r) a h = (refl, omega arith)
  continue_with-Ends bound loop k attempt refreshed s (retry x) a h =
      let (some_result, few) =
        k (attempt + 1) refreshed (did_sleep env call attempt x s) (omega (arith, a.1)) in
      (some_result, omega (arith, few, a.1))
  continue_with-Ends bound loop k attempt false s renew a h =
      let (some_result, few) =
        continue_refreshed-Ends bound loop k attempt (asked_refresh env call s)
          (env.refresh s.refreshes) (omega arith) in
      (some_result, omega (arith, few))
  continue_with-Ends bound loop k attempt true s renew a h = absurd (cc)

  attempt_with-Ends :
      (bound : ℕ) (loop : Loop env call) (k : LoopEnds bound loop) (attempt : ℕ) (refreshed : Bool)
      (s : Trace fl) (t : Result (Failure F) String)
      → rounds attempt refreshed < suc bound
      → Ends
          (length s.sent)
          (rounds attempt refreshed + 1)
          (attempt_with env call loop attempt refreshed s t)
  unfolding attempt_with
  attempt_with-Ends bound loop k attempt refreshed s (err e) h = (refl, omega arith)
  attempt_with-Ends bound loop k attempt refreshed s (ok token) h =
      let q = http_request env call token in
      let (some_result, few) =
        continue_with-Ends bound loop k attempt refreshed
          (did_send env call q (asked_token env call s)) _
          (after_reply-IsAllowed attempt refreshed (env.send (length s.sent) q) _ refl) h in
      (some_result, omega (arith, few))

  request_loop-Ends : (fuel : ℕ) → LoopEnds fuel (request_loop env call fuel)
  unfolding request_loop
  request_loop-Ends zero attempt refreshed s h = absurd (omega arith)
  request_loop-Ends (suc fuel) attempt refreshed s h =
      attempt_with-Ends fuel (request_loop env call fuel) (request_loop-Ends fuel) attempt refreshed
        s (env.token s.tokens) h

-- Whatever the token provider and the transport answer, a request returns or raises, after at most
-- `max_attempts` requests sent, or one if that is zero, and one more for a refreshed token.
pub request_json_ends :
    {fl : Floats} (env : Env fl) (call : Call) (s : Trace fl)
    → let (r, s') = request_json env call s in
      (is_some r ≡ true) × (length s'.sent ≤ length s.sent + (env.policy.max_attempts - 1) + 2)
unfolding request_json
request_json_ends env call s =
    let (some_result, few) =
      request_loop-Ends env call (env.policy.max_attempts + 2) 1 false s (omega arith) in
    (some_result, omega (arith, few))
