-- ===== src/Rest/Writes.antt =====
-- A write is never repeated blindly (rest.py: `request_json` with `retry_safe=False`).
use ts_api_wrapper.Base.{
  ℕ, suc, ◌+◌, ◌≡◌, refl, ap, ◌∙◌, Bool, true, false, ◌&&◌, ◌||◌, not, Option, some, List, [], ◌∷◌,
  any, arith, length, String, nat_eq, if◌then◌else◌,
}
use ts_api_wrapper.Base.Floats.{Floats}
use ts_api_wrapper.Base.Result.{Result, ok, err}
use ts_api_wrapper.Errors.{Failure, network_timeout, transport_error, is_ambiguous_order_state}
use ts_api_wrapper.Json.{Json, Fields, obj}
use ts_api_wrapper.Transport.{
  HttpRequest, HttpResponse, json, Reply, responded, timed_out, failed, raised,
}
use ts_api_wrapper.Rest.{
  Env, Trace, Call, done, renew, Loop, is_success, is_ambiguous_write_status, api_error_of,
  ambiguous, decode, after_reply, after_transport_error, http_request, asked_token, asked_refresh,
  did_send, continue_refreshed, continue_with, attempt_with, request_loop, request_json,
}

-- `response.status_code == 401`
abbrev pub is_unauthorized : {F : Type 0} → Reply F → Bool
is_unauthorized (responded r) = nat_eq r.status_code 401
is_unauthorized _ = false

-- Is the body a JSON object?
abbrev pub is_object : Option Json → Bool
is_object (some (obj _)) = true
is_object _ = false

module _ {fl : Floats} (env : Env fl) (call : Call) where
  open fl use {F}

  -- What the one reply that counts says of a write.
  pub write_verdict : Reply F → Result (Failure F) Fields
  write_verdict (timed_out m) = err (ambiguous env call (network_timeout m))
  write_verdict (failed m) = err (ambiguous env call (transport_error m))
  write_verdict (raised e) = err e
  write_verdict (responded r) =
      if is_success r.status_code
      then decode env call r
      else if is_ambiguous_write_status r.status_code
      then err (ambiguous env call (api_error_of env r))
      else err (api_error_of env r)

  -- The request that carries the n-th token.
  module _ (tok : ℕ → String) (s : Trace fl) where
    abbrev pub first_request : HttpRequest
    first_request = http_request env call (tok s.tokens)

    abbrev pub second_request : HttpRequest
    second_request = http_request env call (tok (s.tokens + 1))

    abbrev pub first_reply : Reply F
    first_reply = env.send (length s.sent) first_request

    abbrev pub second_reply : Reply F
    second_reply = env.send (suc (length s.sent)) second_request

    -- The trace after one request, and after a refresh and a second one.
    abbrev pub sent_once : Trace fl
    sent_once = did_send env call first_request (asked_token env call s)

    abbrev pub sent_twice : Trace fl
    sent_twice =
        did_send env call second_request (asked_token env call (asked_refresh env call sent_once))

  after_reply_write :
      (attempt : ℕ) (refreshed : Bool) (reply : Reply F)
      → call.retry_safe ≡ false
      → after_reply env call attempt refreshed reply
        ≡ (if is_unauthorized reply && not refreshed then renew else done (write_verdict reply))
  unfolding after_reply write_verdict
  after_reply_write attempt refreshed (timed_out m) w = rw (w, after_transport_error)
  after_reply_write attempt refreshed (failed m) w = rw (w, after_transport_error)
  after_reply_write attempt refreshed (raised e) w = refl
  after_reply_write attempt refreshed (responded r) w = ground arith

  -- Is the result the error that tells the caller to reconcile?
  abbrev pub is_ambiguous : Result (Failure F) Fields → Bool
  is_ambiguous (ok _) = false
  is_ambiguous (err e) = is_ambiguous_order_state e

  -- The statuses of an answer after which the write may have taken effect all the same.
  abbrev unknown_statuses : List ℕ
  unknown_statuses = 408 ∷ 500 ∷ 502 ∷ 503 ∷ 504 ∷ []

  -- A reply after which the caller cannot know whether the write took effect.
  abbrev pub is_unknown : Reply F → Bool
  is_unknown (timed_out m) = true
  is_unknown (failed m) = true
  is_unknown (raised e) = is_ambiguous_order_state e
  is_unknown (responded r) =
      is_success r.status_code && not (is_object (json env.loads r))
      || any (nat_eq r.status_code) unknown_statuses

  api_error_of-is_ambiguous :
      (r : HttpResponse) → is_ambiguous_order_state (api_error_of env r) ≡ false
  unfolding api_error_of
  api_error_of-is_ambiguous r = ground arith

  decode-is_ambiguous :
      (r : HttpResponse)
      → call.retry_safe ≡ false
      → is_ambiguous (decode env call r) ≡ not (is_object (json env.loads r))
  unfolding decode ambiguous
  decode-is_ambiguous r w = ground arith

  pub write_verdict_ambiguous :
      (reply : Reply F)
      → call.retry_safe ≡ false
      → is_ambiguous (write_verdict reply) ≡ is_unknown reply
  unfolding write_verdict ambiguous
  write_verdict_ambiguous (timed_out m) w = refl
  write_verdict_ambiguous (failed m) w = refl
  write_verdict_ambiguous (raised e) w = refl
  write_verdict_ambiguous (responded r) w =
      let known = api_error_of-is_ambiguous r in
      let decoded = decode-is_ambiguous r w in ground (arith, known, decoded)

  continue_with-write :
      (loop : Loop env call) (refreshed : Bool) (s : Trace fl) (renewal : Bool)
      (r : Result (Failure F) Fields) (token : String)
      → env.refresh s.refreshes ≡ ok token
      → continue_with env call loop 1 refreshed s (if renewal then renew else done r)
        ≡ (if renewal then loop 1 true (asked_refresh env call s) else (some r, s))
  unfolding continue_with continue_refreshed
  continue_with-write loop refreshed s true r token fresh = rw (fresh)
  continue_with-write loop refreshed s false r token fresh = refl

  -- One round of a write: it ends, or it is answered 401 for the first time.
  attempt_with-write :
      (loop : Loop env call) (refreshed : Bool) (s : Trace fl) (token renewed : String)
      → call.retry_safe ≡ false
      → env.refresh s.refreshes ≡ ok renewed
      → let q = http_request env call token in
        let after = did_send env call q (asked_token env call s) in
        let reply = env.send (length s.sent) q in
        attempt_with env call loop 1 refreshed s (ok token) ≡ (
          if is_unauthorized reply && not refreshed
          then loop 1 true (asked_refresh env call after)
          else (some (write_verdict reply), after))
  unfolding attempt_with
  attempt_with-write loop refreshed s token renewed w fresh =
      let q = http_request env call token in
      ap (continue_with env call loop 1 refreshed (did_send env call q (asked_token env call s)))
        (after_reply_write 1 refreshed (env.send (length s.sent) q) w)
      ∙ continue_with-write loop refreshed (did_send env call q (asked_token env call s)) _ _
          renewed fresh

  request_loop-write :
      (fuel : ℕ) (refreshed : Bool) (s : Trace fl) (token renewed : String)
      → call.retry_safe ≡ false
      → env.token s.tokens ≡ ok token
      → env.refresh s.refreshes ≡ ok renewed
      → let q = http_request env call token in
        let after = did_send env call q (asked_token env call s) in
        let reply = env.send (length s.sent) q in
        request_loop env call (suc fuel) 1 refreshed s ≡ (
          if is_unauthorized reply && not refreshed
          then request_loop env call fuel 1 true (asked_refresh env call after)
          else (some (write_verdict reply), after))
  unfolding request_loop
  request_loop-write fuel refreshed s token renewed w t fresh =
      ap (attempt_with env call (request_loop env call fuel) 1 refreshed s) t
      ∙ attempt_with-write (request_loop env call fuel) refreshed s token renewed w fresh

if_outcome {ℓ} :
    {A : Type ℓ} (b c : Bool) (x x' y z : A)
    → x ≡ (if c && false then z else x')
    → (if b && true then x else y) ≡ (if b then x' else y)
if_outcome true true x x' y z e = e
if_outcome true false x x' y z e = e
if_outcome false c x x' y z e = refl

-- A write (`retry_safe=False`), while tokens can be had, sends one request and returns or raises
-- what its reply says of it; only if that reply is 401 does it refresh the token and send a second
-- request, whose reply counts. It never sleeps.
pub write_outcome :
    {fl : Floats} (env : Env fl) (call : Call) (tok renewed : ℕ → String) (s : Trace fl)
    → call.retry_safe ≡ false
    → ((n : ℕ) → env.token n ≡ ok (tok n))
    → ((n : ℕ) → env.refresh n ≡ ok (renewed n))
    → request_json env call s ≡ (
        if is_unauthorized (first_reply env call tok s)
        then (
          some (write_verdict env call (second_reply env call tok s)),
          sent_twice env call tok s,
        )
        else (some (write_verdict env call (first_reply env call tok s)), sent_once env call tok s))
unfolding request_json
write_outcome env call tok renewed s w tokens fresh =
    let once = sent_once env call tok s in
    let again = asked_refresh env call once in
    let max = env.policy.max_attempts in
    let enough : max + 2 ≡ suc (suc max) = omega arith in
    ap (λ n. request_loop env call n 1 false s) enough
    ∙ request_loop-write env call (suc max) false s (tok s.tokens) (renewed s.refreshes) w
        (tokens s.tokens) (fresh s.refreshes)
    ∙ if_outcome (is_unauthorized (first_reply env call tok s))
        (is_unauthorized (second_reply env call tok s)) _ _ _ _
        (request_loop-write env call max true again (tok (s.tokens + 1)) (renewed again.refreshes) w
          (tokens again.tokens) (fresh again.refreshes))
