-- ===== src/OrderStatus/Laws.antt =====
-- The sets of statuses, and the normalisation of a status text (order_status.py).
use ts_api_wrapper.Base.{String, ◌≡◌, refl, false, ◌&&◌, ◌||◌, not, some, [], ◌∷◌}
use ts_api_wrapper.Base.Text.{strip, is_blank, codes, upper}
use ts_api_wrapper.OrderStatus.{
  OrderStatus, received, value, member, find_status, statuses, normalize_order_status,
  order_status_is_done, order_status_is_active, order_status_can_cancel, order_status_can_replace,
  cancel_pending_statuses, replace_pending_statuses, non_cancelable_working_statuses, other,
  status_message, unknown,
}

-- Done, active, and the rest.
done_or_active :
    (s : OrderStatus)
    → (order_status_is_done (some s) && order_status_is_active (some s) ≡ false)
      × ((order_status_is_done (some s) || order_status_is_active (some s))
          ≡ not (member s (other ∷ status_message ∷ unknown ∷ [])))
unfolding order_status_is_done order_status_is_active member
done_or_active received = (refl, refl)
done_or_active _ = (refl, refl)

-- What can be canceled, and what replaced.
can_cancel_and_replace :
    (s : OrderStatus)
    → (order_status_can_cancel (some s) ≡ (
        order_status_is_active (some s)
        && not (member s cancel_pending_statuses)
        && not (member s non_cancelable_working_statuses)))
      × (order_status_can_replace (some s)
          ≡ (order_status_can_cancel (some s) && not (member s replace_pending_statuses)))
unfolding order_status_can_cancel order_status_can_replace order_status_is_active member
can_cancel_and_replace received = (refl, refl)
can_cancel_and_replace _ = (refl, refl)

-- Every status is done, active, or one of the three that say nothing: other, status message and
-- unknown; and none is two of these. An order can be canceled exactly while it is active, with no
-- cancel pending and no cancel refused or too late; it can be replaced exactly while, besides, no
-- replace is pending.
pub status_classes :
    (s : OrderStatus)
    → (order_status_is_done (some s) && order_status_is_active (some s) ≡ false)
      × ((order_status_is_done (some s) || order_status_is_active (some s))
          ≡ not (member s (other ∷ status_message ∷ unknown ∷ [])))
      × (order_status_can_cancel (some s) ≡ (
          order_status_is_active (some s)
          && not (member s cancel_pending_statuses)
          && not (member s non_cancelable_working_statuses)))
      × (order_status_can_replace (some s)
          ≡ (order_status_can_cancel (some s) && not (member s replace_pending_statuses)))
status_classes s =
    let (apart, covered) = done_or_active s in
    let (cancel, replace) = can_cancel_and_replace s in (apart, covered, cancel, replace)

find_status-value : (s : OrderStatus) → find_status statuses (codes (value s)) ≡ s
unfolding find_status value
find_status-value received = refl
find_status-value _ = refl

-- No code is the empty text.
blank-value :
    (s : OrderStatus) (t : String) → upper (codes t) ≡ codes (value s) → is_blank t ≡ false
unfolding value upper
blank-value received String.[] h = cc
blank-value _ String.[] h = cc
blank-value received (String.◌∷◌ c t) h = refl
blank-value _ (String.◌∷◌ c t) h = refl

-- A status text that is some status's code, up to the spaces around it and to upper case, is
-- normalised to that status.
pub normalize_order_status-value :
    (s : OrderStatus) (t : String)
    → upper (codes (strip t)) ≡ codes (value s)
    → normalize_order_status (some t) ≡ some s
unfolding normalize_order_status
normalize_order_status-value s t h = rw (blank-value s (strip t) h, h, find_status-value s)
