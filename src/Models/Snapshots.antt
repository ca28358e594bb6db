-- ===== src/Models/Snapshots.antt =====
-- Snapshots that the broker returns, and their derived properties (models.py). Reading one from JSON
-- is pydantic's work, an argument of the client's functions; fields that no code here reads are left
-- out.
use ts_api_wrapper.Base.{
  String, Bool, true, false, ◌&&◌, not, Option, none, some, List, [], ◌∷◌, is_none, any, keep,
  nat_eq, if◌then◌else◌,
}
use ts_api_wrapper.Base.Text.{strip, is_blank}
use ts_api_wrapper.Base.DateTime.{DateTime, is_aware}
use ts_api_wrapper.Base.Decimal.{Decimal, whole, add_Decimal, is_truthy, is_positive}
use ts_api_wrapper.Base.Result.{Result, ok, ◌>>◌, raise_if}
use ts_api_wrapper.Errors.{Error, value_error}
use ts_api_wrapper.Base.Int.{pos, eqb_ℤ}
use ts_api_wrapper.Json.{Json, Items, Fields, get}
use ts_api_wrapper.OrderStatus.{
  OrderStatus, normalize_order_status, order_status_is_active, order_status_is_done,
  order_status_is_working, order_status_can_cancel, order_status_can_replace,
}
use ts_api_wrapper.Models.Accounts.{AccountSnapshot, BalanceSnapshot}
use ts_api_wrapper.Models.Enums.{OrderType, TradeAction}

pub record PositionSnapshot : Type 0 where
  pub account_id : String
  pub symbol : String
  pub quantity : Decimal

unfoldable pub is_long : PositionSnapshot → Bool
is_long p = is_positive p.quantity

unfoldable pub is_short : PositionSnapshot → Bool
is_short p = p.quantity.negative && not (nat_eq p.quantity.coefficient 0)

unfoldable pub is_flat : PositionSnapshot → Bool
is_flat p = nat_eq p.quantity.coefficient 0

pub record OrderLegSnapshot : Type 0 where
  pub symbol : Option String
  pub buy_or_sell : Option String
  pub quantity_ordered : Option Decimal
  pub quantity_remaining : Option Decimal
  pub exec_quantity : Option Decimal
  pub execution_price : Option Decimal

-- `self.exec_quantity or Decimal("0")`
unfoldable pub leg_filled_quantity : OrderLegSnapshot → Decimal
leg_filled_quantity leg = elim leg.exec_quantity [
  | none ↦ whole 0
  | some q ↦ if is_truthy q then q else whole 0
]

pub record OrderSnapshot : Type 0 where
  pub account_id : Option String
  pub order_id : String
  pub status : Option String
  pub symbol : Option String
  pub order_type : Option OrderType
  pub limit_price : Option Decimal
  pub stop_price : Option Decimal
  pub opened_at : Option DateTime
  pub legs : List OrderLegSnapshot

unfoldable pub status_value : OrderSnapshot → Option OrderStatus
unfolding normalize_order_status
status_value s = normalize_order_status s.status

unfoldable pub is_active : OrderSnapshot → Bool
unfolding status_value order_status_is_active
is_active s = order_status_is_active (status_value s)

unfoldable pub is_done : OrderSnapshot → Bool
unfolding status_value order_status_is_done
is_done s = order_status_is_done (status_value s)

unfoldable pub is_working : OrderSnapshot → Bool
unfolding status_value order_status_is_working
is_working s = order_status_is_working (status_value s)

unfoldable pub can_cancel : OrderSnapshot → Bool
unfolding status_value order_status_can_cancel
can_cancel s = order_status_can_cancel (status_value s)

unfoldable pub can_replace : OrderSnapshot → Bool
unfolding status_value order_status_can_replace
can_replace s = order_status_can_replace (status_value s)

-- a field of the first leg
abbrev first_leg {ℓ} :
    {A : Type ℓ} → (OrderLegSnapshot → Option A) → List OrderLegSnapshot → Option A
first_leg f [] = none
first_leg f (leg ∷ _) = f leg

unfoldable pub primary_symbol : OrderSnapshot → Option String
primary_symbol s = elim s.symbol [
  | none ↦ first_leg (λ leg. leg.symbol) s.legs
  | some t ↦ if is_blank t then first_leg (λ leg. leg.symbol) s.legs else some t
]

unfoldable pub primary_quantity : OrderSnapshot → Option Decimal
primary_quantity s = first_leg (λ leg. leg.quantity_ordered) s.legs

unfoldable pub primary_action : OrderSnapshot → Option String
primary_action s = first_leg (λ leg. leg.buy_or_sell) s.legs

-- `sum(values, Decimal("0"))` adds from the left.
unfoldable pub sum_from : Decimal → List Decimal → Decimal
sum_from acc [] = acc
sum_from acc (d ∷ ds) = sum_from (add_Decimal acc d) ds

abbrev pub filled_quantities : List OrderLegSnapshot → List Decimal
filled_quantities [] = []
filled_quantities (leg ∷ legs) = leg_filled_quantity leg ∷ filled_quantities legs

unfoldable pub filled_quantity : OrderSnapshot → Decimal
unfolding sum_from leg_filled_quantity
filled_quantity s = sum_from (whole 0) (filled_quantities s.legs)

abbrev pub remaining_quantities : List OrderLegSnapshot → List (Option Decimal)
remaining_quantities [] = []
remaining_quantities (leg ∷ legs) = leg.quantity_remaining ∷ remaining_quantities legs

-- the values of the list that are given
abbrev pub given : List (Option Decimal) → List Decimal
given [] = []
given (none ∷ qs) = given qs
given (some q ∷ qs) = q ∷ given qs

abbrev no_legs : List OrderLegSnapshot → Bool
no_legs [] = true
no_legs (_ ∷ _) = false

unfoldable pub remaining_quantity : OrderSnapshot → Option Decimal
unfolding sum_from
remaining_quantity s =
    if no_legs s.legs
    then none
    else if any is_none (remaining_quantities s.legs)
    then none
    else some (sum_from (whole 0) (given (remaining_quantities s.legs)))

pub record OrderAck : Type 0 where
  pub order_id : Option String
  pub orders : List Fields
  pub errors : List Fields

-- `a or b` on values of a dict: what is missing, null, false, zero, or empty is passed over.
abbrev pub is_truthy_json : Option Json → Bool
is_truthy_json none = false
is_truthy_json (some Json.null) = false
is_truthy_json (some (Json.bool b)) = b
is_truthy_json (some (Json.int n)) = not (eqb_ℤ n (pos 0))
is_truthy_json (some (Json.float b _)) = b
is_truthy_json (some (Json.str t)) = not (is_blank t)
is_truthy_json (some (Json.arr Items.nil)) = false
is_truthy_json (some (Json.arr (Items.cons _ _))) = true
is_truthy_json (some (Json.obj Fields.end)) = false
is_truthy_json (some (Json.obj (Fields.field _ _ _))) = true

abbrev pub either : Option Json → Option Json → Option Json
either a b = if is_truthy_json a then a else b

-- the identifier of one entry of `Orders`, stripped, if it is a text that is not blank
unfoldable pub entry_order_id : Fields → Option String
unfolding get
entry_order_id entry =
    elim (either (either (get entry "OrderID") (get entry "OrderId")) (get entry "order_id")) [
      | some (Json.str t) ↦ if is_blank (strip t) then none else some (strip t)
      | _ ↦ none
    ]

unfoldable pub first_listed_id : List Fields → Option String
unfolding entry_order_id
first_listed_id [] = none
first_listed_id (entry ∷ rest) = elim (entry_order_id entry) [
  | none ↦ first_listed_id rest
  | some t ↦ some t
]

unfoldable pub first_order_id : OrderAck → Option String
unfolding first_listed_id
first_order_id ack = elim ack.order_id [
  | none ↦ first_listed_id ack.orders
  | some t ↦ if is_blank t then first_listed_id ack.orders else some t
]

pub record UnknownOrderFingerprint : Type 0 where
  pub account_id : String
  pub symbol : String
  pub trade_action : TradeAction
  pub order_type : OrderType
  pub quantity : Decimal
  pub submitted_at : DateTime
  pub limit_price : Option Decimal
  pub stop_price : Option Decimal
  pub payload_hash : String

unfoldable pub unknown_order_fingerprint :
    UnknownOrderFingerprint → Result Error UnknownOrderFingerprint
unknown_order_fingerprint f = do
  raise_if (not (is_aware f.submitted_at)) (value_error "submitted_at must be timezone-aware")
  ok f

pub record AccountStateSnapshot : Type 0 where
  pub accounts : List AccountSnapshot
  pub balances : List BalanceSnapshot
  pub positions : List PositionSnapshot
  pub orders : List OrderSnapshot

unfoldable pub open_orders : AccountStateSnapshot → List OrderSnapshot
unfolding is_active
open_orders s = keep is_active s.orders

unfoldable pub nonzero_positions : AccountStateSnapshot → List PositionSnapshot
unfolding is_flat
nonzero_positions s = keep (λ p. not (is_flat p)) s.positions
