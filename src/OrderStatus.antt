-- ===== src/OrderStatus.antt =====
-- Order statuses (src/tradestation_api_wrapper/order_status.py): the broker's codes, their sets, and
-- the normalisation of a status text.
pub mod Laws
use ts_api_wrapper.Base.{
  ℕ, String, Bool, true, false, ◌&&◌, ◌||◌, not, Option, none, some, List, [], ◌∷◌, ◌++◌, ◌==◌, any,
  keep, if◌then◌else◌,
}
use ts_api_wrapper.Base.Text.{strip, is_blank, codes, eqb_codes, upper}

-- `TradeStationOrderStatus`
pub data OrderStatus : Type 0 where
  received option_assignment bracket_canceled bracket_filled broken canceled change condition_met
        fill_corrected cancel_sent_deprecated dispatched dead queued expiration_cancel_request
        expired option_exercise filled partial_fill_done partial_fill_alive too_late_to_cancel sent
        oso_order other ur_out sending big_brother_recall_request rejected cancel_rejected
        change_request_rejected replace_pending replace_sent big_brother_recall stop_hit
        status_message suspended trade_server_canceled replaced cancel_sent unknown :
      OrderStatus

unfoldable pub value : OrderStatus → String
value received = "ACK"
value option_assignment = "ASS"
value bracket_canceled = "BRC"
value bracket_filled = "BRF"
value broken = "BRO"
value canceled = "CAN"
value change = "CHG"
value condition_met = "CND"
value fill_corrected = "COR"
value cancel_sent_deprecated = "CSN"
value dispatched = "DIS"
value dead = "DOA"
value queued = "DON"
value expiration_cancel_request = "ECN"
value expired = "EXP"
value option_exercise = "EXE"
value filled = "FLL"
value partial_fill_done = "FLP"
value partial_fill_alive = "FPR"
value too_late_to_cancel = "LAT"
value sent = "OPN"
value oso_order = "OSO"
value other = "OTHER"
value ur_out = "OUT"
value sending = "PLA"
value big_brother_recall_request = "REC"
value rejected = "REJ"
value cancel_rejected = "RJC"
value change_request_rejected = "RJR"
value replace_pending = "RPD"
value replace_sent = "RSN"
value big_brother_recall = "SCN"
value stop_hit = "STP"
value status_message = "STT"
value suspended = "SUS"
value trade_server_canceled = "TSC"
value replaced = "UCH"
value cancel_sent = "UCN"
value unknown = "UNKNOWN"

abbrev pub statuses : List OrderStatus
statuses =
    received ∷ option_assignment ∷ bracket_canceled ∷ bracket_filled ∷ broken ∷ canceled ∷ change
    ∷ condition_met ∷ fill_corrected ∷ cancel_sent_deprecated ∷ dispatched ∷ dead ∷ queued
    ∷ expiration_cancel_request ∷ expired ∷ option_exercise ∷ filled ∷ partial_fill_done
    ∷ partial_fill_alive ∷ too_late_to_cancel ∷ sent ∷ oso_order ∷ other ∷ ur_out ∷ sending
    ∷ big_brother_recall_request ∷ rejected ∷ cancel_rejected ∷ change_request_rejected
    ∷ replace_pending ∷ replace_sent ∷ big_brother_recall ∷ stop_hit ∷ status_message ∷ suspended
    ∷ trade_server_canceled ∷ replaced ∷ cancel_sent ∷ unknown ∷ []

-- The members are texts, so a set compares them by value.
unfoldable pub member : OrderStatus → List OrderStatus → Bool
unfolding value
member s set = any (λ t. value t == value s) set

abbrev pub done_statuses : List OrderStatus
done_statuses =
    broken ∷ bracket_canceled ∷ bracket_filled ∷ canceled ∷ change_request_rejected ∷ dead ∷ expired
    ∷ filled ∷ fill_corrected ∷ option_assignment ∷ option_exercise ∷ partial_fill_done ∷ rejected
    ∷ replaced ∷ big_brother_recall ∷ trade_server_canceled ∷ ur_out ∷ []

abbrev pub cancel_pending_statuses : List OrderStatus
cancel_pending_statuses =
    cancel_sent ∷ cancel_sent_deprecated ∷ expiration_cancel_request ∷ big_brother_recall_request
    ∷ []

abbrev pub replace_pending_statuses : List OrderStatus
replace_pending_statuses = replace_pending ∷ replace_sent ∷ []

abbrev pub waiting_statuses : List OrderStatus
waiting_statuses = received ∷ condition_met ∷ queued ∷ oso_order ∷ []

abbrev pub working_statuses : List OrderStatus
working_statuses =
    change ∷ dispatched ∷ sent ∷ partial_fill_alive ∷ too_late_to_cancel ∷ cancel_rejected ∷ sending
    ∷ stop_hit ∷ suspended ∷ []

abbrev pub active_statuses : List OrderStatus
active_statuses =
    waiting_statuses ++ (working_statuses ++ (cancel_pending_statuses ++ replace_pending_statuses))

abbrev pub non_cancelable_working_statuses : List OrderStatus
non_cancelable_working_statuses = cancel_rejected ∷ too_late_to_cancel ∷ []

-- `A - B` on sets of statuses
unfoldable pub difference : List OrderStatus → List OrderStatus → List OrderStatus
unfolding member
difference a b = keep (λ s. not (member s b)) a

abbrev pub cancelable_statuses : List OrderStatus
cancelable_statuses =
    waiting_statuses
    ++ (difference working_statuses non_cancelable_working_statuses ++ replace_pending_statuses)

abbrev pub replaceable_statuses : List OrderStatus
replaceable_statuses =
    waiting_statuses ++ difference working_statuses non_cancelable_working_statuses

-- `TradeStationOrderStatus(normalized)`, with its `ValueError` turned into `UNKNOWN`
pub find_status : List OrderStatus → List ℕ → OrderStatus
unfolding value
find_status [] text = unknown
find_status (s ∷ rest) text = if eqb_codes (codes (value s)) text then s else find_status rest text

unfoldable pub normalize_order_status : Option String → Option OrderStatus
unfolding find_status strip upper
normalize_order_status none = none
normalize_order_status (some status) =
    if is_blank (strip status)
    then none
    else some (find_status statuses (upper (codes (strip status))))

abbrev is_in : Option OrderStatus → List OrderStatus → Bool
unfolding member
is_in none set = false
is_in (some s) set = member s set

unfoldable pub order_status_is_done : Option OrderStatus → Bool
unfolding member
order_status_is_done status = is_in status done_statuses

unfoldable pub order_status_is_active : Option OrderStatus → Bool
unfolding member
order_status_is_active status = is_in status active_statuses

unfoldable pub order_status_is_working : Option OrderStatus → Bool
unfolding member
order_status_is_working status = is_in status working_statuses

unfoldable pub order_status_can_cancel : Option OrderStatus → Bool
unfolding member difference
order_status_can_cancel status = is_in status cancelable_statuses

unfoldable pub order_status_can_replace : Option OrderStatus → Bool
unfolding member difference
order_status_can_replace status = is_in status replaceable_statuses
