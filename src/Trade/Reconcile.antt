-- ===== src/Trade/Reconcile.antt =====
-- What the updates of a trade leave to be reconciled (trade.py).
use ts_api_wrapper.Base.{
  String, ◌≡◌, refl, ◌⊎◌, inl, inr, Bool, true, false, Bool-cases, ◌||◌, ◌&&◌, Option, some, List,
  [], ◌∷◌, any, arith, is_none, is_some, if◌then◌else◌,
}
use ts_api_wrapper.Json.{Fields}
use ts_api_wrapper.Models.Snapshots.{OrderSnapshot}
use ts_api_wrapper.Trade.{
  TradeStationTrade, has_errors, order_id, is_ambiguous, reconcile_required, with_order_snapshot,
  with_event,
}

-- What a caller learns of an order after it wrote it.
pub data Update : Type 0 where
  snapshot : OrderSnapshot → Update
  event : Fields → Update

abbrev pub is_snapshot : Update → Bool
is_snapshot (snapshot _) = true
is_snapshot (event _) = false

-- The order ID that the last snapshot names, or else the one from before.
abbrev pub last_named : Option String → List Update → Option String
last_named before [] = before
last_named before (snapshot o ∷ us) = last_named (some o.order_id) us
last_named before (event _ ∷ us) = last_named before us

last_named-some : (id : String) (us : List Update) → is_none (last_named (some id) us) ≡ false
last_named-some id [] = refl
last_named-some id (snapshot o ∷ us) = last_named-some o.order_id us
last_named-some id (event e ∷ us) = last_named-some id us

last_named-any :
    (before : Option String) (us : List Update)
    → any is_snapshot us ≡ true
    → is_none (last_named before us) ≡ false
last_named-any before [] h = absurd (cc)
last_named-any before (snapshot o ∷ us) h = last_named-some o.order_id us
last_named-any before (event e ∷ us) h = last_named-any before us h

last_named-events :
    (before : Option String) (us : List Update)
    → any is_snapshot us ≡ false
    → last_named before us ≡ before
last_named-events before [] h = refl
last_named-events before (snapshot o ∷ us) h = absurd (cc)
last_named-events before (event e ∷ us) h = last_named-events before us h

module _ {F : Type 0} where
  abbrev pub updated : TradeStationTrade F → List Update → TradeStationTrade F
  updated t [] = t
  updated t (snapshot o ∷ us) = updated (with_order_snapshot t o) us
  updated t (event e ∷ us) = updated (with_event t e) us

  -- What the broker answered the write with stays as it is.
  updated-ack :
      (t : TradeStationTrade F) (us : List Update)
      → ((updated t us).ack ≡ t.ack) × ((updated t us).ambiguous_error ≡ t.ambiguous_error)
  unfolding with_order_snapshot with_event
  updated-ack t [] = (refl, refl)
  updated-ack t (snapshot o ∷ us) = updated-ack (with_order_snapshot t o) us
  updated-ack t (event e ∷ us) = updated-ack (with_event t e) us

  order_id-updated :
      (t : TradeStationTrade F) (us : List Update)
      → order_id (updated t us) ≡ last_named (order_id t) us
  unfolding with_order_snapshot with_event order_id
  order_id-updated t [] = refl
  order_id-updated t (snapshot o ∷ us) = order_id-updated (with_order_snapshot t o) us
  order_id-updated t (event e ∷ us) = order_id-updated (with_event t e) us

-- Whatever snapshots and events a trade is updated with, it names the order of the last snapshot, or
-- without one the order that it named before. A trade whose write was ambiguous, or was acknowledged
-- with errors, must still be reconciled. Any other trade need not be once it got a snapshot, and
-- before that it must exactly if the broker acknowledged it and it names no order.
pub reconcile_required-updated :
    {F : Type 0} (t : TradeStationTrade F) (us : List Update)
    → (order_id (updated t us) ≡ last_named (order_id t) us)
      × (((is_ambiguous t || has_errors t.ack ≡ true) × (reconcile_required (updated t us) ≡ true))
          ⊎ ((is_ambiguous t || has_errors t.ack ≡ false)
              × (reconcile_required (updated t us)
                  ≡ (if any is_snapshot us then false else is_some t.ack && is_none (order_id t)))))
unfolding reconcile_required is_ambiguous
reconcile_required-updated t us =
    let (ack, error) = updated-ack t us in
    let named = order_id-updated t us in
    (
      named,
      elim (Bool-cases (is_ambiguous t || has_errors t.ack)) [
        | inl e ↦ inl (e, rw (ack, error) (ground (arith, e)))
        | inr e ↦ inr (
          e,
          elim (Bool-cases (any is_snapshot us)) [
            | inl some_snapshot ↦
                let known = last_named-any (order_id t) us some_snapshot in
                rw (ack, error, named, known, some_snapshot) (ground (arith, e))
            | inr events ↦
                let same = last_named-events (order_id t) us events in
                rw (ack, error, named, same, events) (ground (arith, e))
          ],
        )
      ],
    )
