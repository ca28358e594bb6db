-- ===== src/Stream/Events/Reconnects.antt =====
-- How often a stream connects again (stream.py: `TradeStationStream.events`).
use ts_api_wrapper.Base.{
  ℕ, zero, suc, ◌+◌, ◌*◌, ◌≤◌, ◌≡◌, refl, sym, subst, ◌⊎◌, inl, inr, Bool, true, false, Option,
  none, some, List, [], is_some, leb, arith,
}
use ts_api_wrapper.Base.Floats.{Floats}
use ts_api_wrapper.Base.Result.{Result, ok, err}
use ts_api_wrapper.Errors.{Failure}
use ts_api_wrapper.Json.{Json}
use ts_api_wrapper.RateLimit.{StreamReconnectPolicy}
use ts_api_wrapper.Stream.Fuel.{IsDecoder}
use ts_api_wrapper.Stream.Events.{
  Stop, went_on, went_away, raised, Progress, Connection, Handling, raise_again, connect_again,
  handling_of, Watch, unwatched, Ended, Loop, unless_spent, reconnect, handle, after_connection,
  observed, with_progress, events_loop, events,
}
use ts_api_wrapper.Stream.Events.Counted.{
  delivered, delivered-append, IsCountedProgress, read_chunks-IsRead,
}

module _ (raw_decode : List ℕ → Option (Json × List ℕ)) (law : IsDecoder raw_decode) {fl : Floats}
    (policy : StreamReconnectPolicy fl) (raise_on_error : Bool) (source : ℕ → Connection fl.F) where
  open fl use {F}

  -- The bound on the connections opened, and an end unless the fuel went into connections.
  abbrev IsBounded : ℕ → Ended raw_decode policy raise_on_error source × Watch F → Type 0
  IsBounded fuel (r, w) =
      (w.opened ≤ policy.max_reconnects * (delivered w.events + 1) + 1)
      × ((is_some r ≡ true) ⊎ (w.opened ≡ fuel))

  -- Where the loop begins a round.
  abbrev IsBudgeted : ℕ → Watch F → Type 0
  IsBudgeted r w =
      (r ≤ policy.max_reconnects) × (w.opened ≤ policy.max_reconnects * delivered w.events + r)

  abbrev KeepsBound : ℕ → Loop raw_decode policy raise_on_error source → Type 0
  KeepsBound fuel loop =
      (r : ℕ) (w : Watch F) → IsBudgeted r w → IsBounded (w.opened + fuel) (loop r w)

  reconnect-IsBounded :
      (fuel : ℕ) (loop : Loop raw_decode policy raise_on_error source) (r : ℕ) (ra : Option F)
      (final : Result (Failure F) (Unit {0})) (w : Watch F)
      → KeepsBound fuel loop
      → r ≤ policy.max_reconnects
      → w.opened ≤ policy.max_reconnects * delivered w.events + r + 1
      → IsBounded
          (w.opened + fuel)
          (reconnect raw_decode policy raise_on_error source loop r ra final w)
  reconnect-IsBounded fuel loop r ra final w k p q = go (leb policy.max_reconnects r) refl
    where
      go :
          (b : Bool)
          → leb policy.max_reconnects r ≡ b
          → IsBounded
              (w.opened + fuel)
              (unless_spent raw_decode policy raise_on_error source loop r ra final w b)
      go true e = (omega (arith, p, q), inl refl)
      go false e = k (r + 1) _ (ground arith, omega (arith, q))

  -- After a round, one more connection is paid for by the reconnect that it counts, or by an event.
  paid : (a m d d' r n : ℕ) → a ≤ m * d + r → r ≤ m → (n ≡ r) ⊎ (1 ≤ d') → a ≤ m * (d + d') + n
  paid a m d zero r n p q (inl e) = omega (arith, p, q, e)
  paid a m d zero r n p q (inr e) = absurd (omega (arith, e))
  paid a m d (suc d') r n p q (inl e) = omega (arith, p, q, e)
  paid a m d (suc d') r n p q (inr e) = omega (arith, p, q)

  handle-IsBounded :
      (fuel : ℕ) (loop : Loop raw_decode policy raise_on_error source) (r : ℕ) (e : Failure F)
      (w : Watch F) (h : Handling F)
      → KeepsBound fuel loop
      → r ≤ policy.max_reconnects
      → w.opened ≤ policy.max_reconnects * delivered w.events + r + 1
      → IsBounded (w.opened + fuel) (handle raw_decode policy raise_on_error source loop r e w h)
  handle-IsBounded fuel loop r e w raise_again k p q = (omega (arith, p, q), inl refl)
  handle-IsBounded fuel loop r e w (connect_again ra) k p q =
      reconnect-IsBounded fuel loop r ra (err e) w k p q

  after_connection-IsBounded :
      (fuel : ℕ) (loop : Loop raw_decode policy raise_on_error source) (r : ℕ) (stop : Stop F)
      (w : Watch F)
      → KeepsBound fuel loop
      → r ≤ policy.max_reconnects
      → w.opened ≤ policy.max_reconnects * delivered w.events + r + 1
      → IsBounded
          (w.opened + fuel)
          (after_connection raw_decode policy raise_on_error source loop r stop w)
  after_connection-IsBounded fuel loop r went_on w k p q = (omega (arith, p, q), inl refl)
  after_connection-IsBounded fuel loop r went_away w k p q =
      reconnect-IsBounded fuel loop r none (ok tt) w k p q
  after_connection-IsBounded fuel loop r (raised e) w k p q =
      handle-IsBounded fuel loop r e w (handling_of e) k p q

  with_progress-IsBounded :
      (fuel : ℕ) (loop : Loop raw_decode policy raise_on_error source) (r : ℕ) (w : Watch F)
      (o : Option (Progress F))
      → KeepsBound fuel loop
      → IsBudgeted r w
      → is_some o ≡ true
      → IsCountedProgress r o
      → IsBounded
          (w.opened + suc fuel)
          (with_progress raw_decode policy raise_on_error source loop w o)
  with_progress-IsBounded fuel loop r w none k b e c = absurd (cc)
  with_progress-IsBounded fuel loop r w (some p) k (few, within) e (less, reset) =
      subst
        (λ n. IsBounded n (with_progress raw_decode policy raise_on_error source loop w (some p)))
        (omega arith)
        (after_connection-IsBounded fuel loop p.reconnects p.stop
          (observed raw_decode policy raise_on_error source w p) k (omega (arith, few, less))
          (omega (
            arith,
            subst (λ d. w.opened ≤ policy.max_reconnects * d + p.reconnects)
                (sym (delivered-append w.events p.events))
                (paid w.opened policy.max_reconnects (delivered w.events) (delivered p.events) r
                  p.reconnects within few reset),
          )))

  events_loop-KeepsBound :
      (fuel : ℕ) → KeepsBound fuel (events_loop raw_decode policy raise_on_error source fuel)
  unfolding events_loop
  events_loop-KeepsBound zero r w b = (omega (arith, b), inr (omega arith))
  events_loop-KeepsBound (suc fuel) r w b =
      let c = source w.opened in
      let read = read_chunks-IsRead raw_decode law raise_on_error c.chunks c.failure [] r in
      with_progress-IsBounded fuel
        (λ n v. events_loop raw_decode policy raise_on_error source fuel n v) r w _
        (events_loop-KeepsBound fuel) b read.0 read.1

-- Whatever the connections yield, a stream opens at most `max_reconnects` connections, times one more
-- than the events it has yielded that are no GO_AWAY, and one. It ends, unless it has opened as many
-- connections as it was given fuel for: while no more such events come, it reconnects only so often
-- and then ends.
pub reconnects_bounded :
    (raw_decode : List ℕ → Option (Json × List ℕ)) (law : IsDecoder raw_decode) {fl : Floats}
    (policy : StreamReconnectPolicy fl) (raise_on_error : Bool) (source : ℕ → Connection fl.F)
    (fuel : ℕ)
    → let (r, w) = events raw_decode policy raise_on_error source fuel in
      (w.opened ≤ policy.max_reconnects * (delivered w.events + 1) + 1)
      × ((is_some r ≡ true) ⊎ (w.opened ≡ fuel))
unfolding events delivered
reconnects_bounded raw_decode law policy raise_on_error source fuel =
    let (few, ends) =
      events_loop-KeepsBound raw_decode law policy raise_on_error source fuel 0 unwatched
        (omega arith, omega arith) in
    (few, ground (arith, ends))
