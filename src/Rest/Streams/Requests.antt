-- ===== src/Rest/Streams/Requests.antt =====
-- How many requests a stream sends (rest.py: `_stream_chunks`, `stream_events`).
use ts_api_wrapper.Base.{
  ℕ, zero, suc, ◌+◌, ◌-◌, ◌*◌, ◌≤◌, ◌≡◌, refl, sym, subst, ◌⊎◌, String, Bool, true, false, ◌&&◌,
  not, Option, List, ◌∷◌, nat_eq, length, is_some, arith, if◌then◌else◌,
}
use ts_api_wrapper.Base.Floats.{Floats}
use ts_api_wrapper.Base.Result.{Result, ok, err}
use ts_api_wrapper.Errors.{Failure}
use ts_api_wrapper.Json.{Json}
use ts_api_wrapper.Transport.{HttpRequest}
use ts_api_wrapper.Rest.{Env, Trace, api_error_of}
use ts_api_wrapper.Stream.Events.{Connection}
use ts_api_wrapper.Stream.Fuel.{IsDecoder}
use ts_api_wrapper.Stream.Events.Counted.{delivered}
use ts_api_wrapper.Stream.Events.Reconnects.{reconnects_bounded}
use ts_api_wrapper.Rest.Streams.{
  StreamReply, served, refused, Opened, connected, renewing, broken, after_stream_reply,
  stream_reconnect_policy, stream_request, Opening, after_refresh, after_opened, open_with,
  open_loop, stream_chunks, trace_after, source_of, stream_events,
}

-- Once the token is refreshed, a reply ends the loop.
after_stream_reply-connected :
    {fl : Floats} (env : Env fl) (reply : StreamReply fl.F)
    → (c : Connection fl.F) × (after_stream_reply env true reply ≡ connected c)
unfolding after_stream_reply
after_stream_reply-connected env (served c) = (c, refl)
after_stream_reply-connected {fl} env (refused r) = go (nat_eq r.status_code 401)
  where
    go :
        (b : Bool)
        → (c : Connection fl.F) × ((if b && not true
              then renewing
              else connected (broken (api_error_of env r)))
            ≡ connected c)
    go true = (_, refl)
    go false = (_, refl)

module _ {fl : Floats} (env : Env fl) (open_stream : ℕ → HttpRequest → StreamReply fl.F)
    (path accept : String) where
  open fl use {F}

  -- It is opened or fails, after so many refreshes and requests.
  abbrev IsOpened : ℕ → ℕ → Trace fl → Option (Connection F) × Trace fl → Type 0
  IsOpened renewals requests s (o, s') =
      (is_some o ≡ true)
      × (s'.refreshes ≤ s.refreshes + renewals)
      × (length s'.sent ≤ length s.sent + requests)

  open_with-renewed :
      (loop : Opening env open_stream path accept) (s : Trace fl) (t : Result (Failure F) String)
      → IsOpened 0 1 s (open_with env open_stream path accept loop true s t)
  open_with-renewed loop s (err e) = (refl, omega arith, omega arith)
  open_with-renewed loop s (ok token) =
      let q = stream_request env open_stream path accept token in
      let s' : Trace fl = record s { sent = q ∷ s.sent } in
      let (c, e) = after_stream_reply-connected env (open_stream (length s.sent) q) in
      subst (λ o. IsOpened 0 1 s (after_opened env open_stream path accept loop s' o)) (sym e)
        (refl, omega arith, omega arith)

  after_opened-IsOpened :
      (loop : Opening env open_stream path accept) (s : Trace fl) (o : Opened F)
      → ((t : Trace fl) → IsOpened 0 1 t (loop true t))
      → IsOpened 1 1 s (after_opened env open_stream path accept loop s o)
  after_opened-IsOpened loop s (connected c) k = (refl, omega arith, omega arith)
  after_opened-IsOpened loop s renewing k = go (env.refresh s.refreshes)
    where
      renewed : Trace fl
      renewed = record s { refreshes = s.refreshes + 1 }

      go :
          (r : Result (Failure F) String)
          → IsOpened 1 1 s (after_refresh env open_stream path accept loop renewed r)
      go (err e) = (refl, omega arith, omega arith)
      go (ok _) = let (o, a, b) = k renewed in (o, omega (arith, a), omega (arith, b))

  open_with-IsOpened :
      (loop : Opening env open_stream path accept) (s : Trace fl) (t : Result (Failure F) String)
      → ((t : Trace fl) → IsOpened 0 1 t (loop true t))
      → IsOpened 1 2 s (open_with env open_stream path accept loop false s t)
  open_with-IsOpened loop s (err e) k = (refl, omega arith, omega arith)
  open_with-IsOpened loop s (ok token) k =
      let q = stream_request env open_stream path accept token in
      let (o, a, b) =
        after_opened-IsOpened loop (record s { sent = q ∷ s.sent })
          (after_stream_reply env false (open_stream (length s.sent) q)) k in
      (o, omega (arith, a), omega (arith, b))

  stream_chunks-IsOpened :
      (s : Trace fl) → IsOpened 1 2 s (stream_chunks env open_stream path accept s)
  unfolding stream_chunks
  stream_chunks-IsOpened s =
      let (o, a, b) =
        open_with-IsOpened (λ b t. open_loop env open_stream path accept 1 b t)
          (record s { tokens = s.tokens + 1 }) (env.token s.tokens)
          (λ t.
            let (o, a, b) =
              open_with-renewed (λ c u. open_loop env open_stream path accept 0 c u)
                (record t { tokens = t.tokens + 1 }) (env.token t.tokens) in
            (o, omega (arith, a), omega (arith, b))) in
      (o, omega (arith, a), omega (arith, b))

  trace_after-bounds :
      (s : Trace fl) (n : ℕ)
      → let s' = trace_after env open_stream path accept s n in
        (s'.refreshes ≤ s.refreshes + n) × (length s'.sent ≤ length s.sent + 2 * n)
  unfolding trace_after
  trace_after-bounds s zero = (omega arith, omega arith)
  trace_after-bounds s (suc n) =
      let (a, b) = trace_after-bounds s n in
      let (_, c, d) = stream_chunks-IsOpened (trace_after env open_stream path accept s n) in
      (omega (arith, a, c), omega (arith, b, d))

-- A stream over the REST client ends, or goes on while it has fuel for connections; its n-th
-- connection is had or fails, for every n. With `most` for `max_attempts` less one, times one more than
-- the events that it has yielded that are no GO_AWAY, and one: it has refreshed the token at most
-- `most` times, and sent at most twice as many requests.
pub stream_requests_bounded :
    {fl : Floats} (env : Env fl) (open_stream : ℕ → HttpRequest → StreamReply fl.F)
    (path accept : String) (raw_decode : List ℕ → Option (Json × List ℕ))
    (law : IsDecoder raw_decode) (raise_on_error : Bool) (s : Trace fl) (fuel n : ℕ)
    → let (r, w) = stream_events env open_stream path accept raw_decode raise_on_error s fuel in
      let s' = trace_after env open_stream path accept s w.opened in
      let connections = (env.policy.max_attempts - 1) * (delivered w.events + 1) + 1 in
      ((is_some r ≡ true) ⊎ (w.opened ≡ fuel))
      × (is_some
            (stream_chunks env open_stream path accept
              (trace_after env open_stream path accept s n)).0
          ≡ true)
      × (s'.refreshes ≤ s.refreshes + connections)
      × (length s'.sent ≤ length s.sent + 2 * connections)
unfolding stream_events stream_reconnect_policy
stream_requests_bounded env open_stream path accept raw_decode law raise_on_error s fuel n =
    let (few, ends) =
      reconnects_bounded raw_decode law (stream_reconnect_policy env) raise_on_error
        (source_of env open_stream path accept s) fuel in
    let w = (stream_events env open_stream path accept raw_decode raise_on_error s fuel).1 in
    let (a, b) = trace_after-bounds env open_stream path accept s w.opened in
    let (had, _, _) =
      stream_chunks-IsOpened env open_stream path accept
        (trace_after env open_stream path accept s n) in
    (ends, had, omega (arith, a, few), omega (arith, b, few))
