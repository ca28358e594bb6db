-- ===== src/Models/Confirmations.antt =====
-- Order confirmations (models.py: `OrderConfirmation`). Reading one from JSON is pydantic's work, but
-- for the validator that runs before it.
use ts_api_wrapper.Base.{
  String, ◌||◌, not, Option, none, some, List, [], ◌∷◌, ◌++◌, ◌==◌, if◌then◌else◌,
}
use ts_api_wrapper.Base.Decimal.{Decimal}
use ts_api_wrapper.Json.{Json, Items, Fields, obj, end, field, get, has}

pub record OrderConfirmationDetail : Type 0 where
  pub order_confirm_id : Option String
  pub estimated_cost : Option Decimal
  pub buying_power_effect : Option Decimal
  pub warnings : List Fields

pub record OrderConfirmation : Type 0 where
  pub confirmations : List OrderConfirmationDetail
  pub errors : List Fields

-- `{key: item for key, item in value.items() if key != "Errors"}`
unfoldable pub without_errors : Fields → Fields
without_errors end = end
without_errors (field k v fs) =
    let rest = without_errors fs in if k == "Errors" then rest else field k v rest

abbrev errors_or_none : Option Json → Json
errors_or_none none = Json.arr Items.nil
errors_or_none (some v) = v

-- A dict of a confirmation that is not in a list is put into one; every other value is left as it is.
unfoldable pub accept_legacy_flat_confirmation : Json → Json
unfolding without_errors
accept_legacy_flat_confirmation (obj value) =
    if has value "Confirmations"
    then obj value
    else if not (has value "OrderConfirmID" || has value "EstimatedCost")
    then obj value
    else obj (
        field "Confirmations" (Json.arr (Items.cons (obj (without_errors value)) Items.nil))
          (field "Errors" (errors_or_none (get value "Errors")) end))
accept_legacy_flat_confirmation value = value

unfoldable pub first_confirmation : OrderConfirmation → Option OrderConfirmationDetail
first_confirmation c = elim c.confirmations [ [] ↦ none | d ∷ _ ↦ some d ]

abbrev of_first {ℓ} :
    {A : Type ℓ} → (OrderConfirmationDetail → Option A) → Option OrderConfirmationDetail → Option A
of_first f none = none
of_first f (some d) = f d

unfoldable pub order_confirm_id : OrderConfirmation → Option String
unfolding first_confirmation
order_confirm_id c = of_first (λ d. d.order_confirm_id) (first_confirmation c)

unfoldable pub estimated_cost : OrderConfirmation → Option Decimal
unfolding first_confirmation
estimated_cost c = of_first (λ d. d.estimated_cost) (first_confirmation c)

unfoldable pub buying_power_effect : OrderConfirmation → Option Decimal
unfolding first_confirmation
buying_power_effect c = of_first (λ d. d.buying_power_effect) (first_confirmation c)

abbrev warnings_of : List OrderConfirmationDetail → List Fields
warnings_of [] = []
warnings_of (d ∷ ds) = d.warnings ++ warnings_of ds

unfoldable pub warnings : OrderConfirmation → List Fields
warnings c = warnings_of c.confirmations
