-- ===== src/Validation/Numbers.antt =====
-- Decimals as JSON numbers (validation.py: `_numeric_decimals`, `option_risk_reward_payload`).
-- `to_float` is `float(str(value))` as a JSON value, and `model_dump` is an argument.
use ts_api_wrapper.Base.{String, ◌*◌, ◌/◌, ◌^◌, if◌then◌else◌}
use ts_api_wrapper.Base.Int.{ℤ, pos, sub_ℕ, pos_part, neg_part}
use ts_api_wrapper.Base.Decimal.{Decimal}
use ts_api_wrapper.Json.{Json, Items, Fields, obj, end, field}
use ts_api_wrapper.Models.Params.{OptionRiskRewardRequest, is_integral}

-- What `model_dump` returns.
mutual
  pub data Dumped : Type 0 where
    decimal : Decimal → Dumped
    dict : DumpedFields → Dumped
    -- a list or a tuple
    sequence : DumpedItems → Dumped
    plain : Json → Dumped

  pub data DumpedFields : Type 0 where
    no_fields : DumpedFields
    dumped_field : String → Dumped → DumpedFields → DumpedFields

  pub data DumpedItems : Type 0 where
    no_items : DumpedItems
    dumped_item : Dumped → DumpedItems → DumpedItems

-- `int(value)` of an integral value
unfoldable pub int_of_decimal : Decimal → ℤ
int_of_decimal d =
    let n = (d.coefficient * 10 ^ pos_part d.exponent) / 10 ^ neg_part d.exponent in
    if d.negative then sub_ℕ 0 n else pos n

module _ (to_float : Decimal → Json) where
  unfoldable mutual
    unfolding int_of_decimal

    pub numeric_decimals : Dumped → Json
    numeric_decimals (decimal d) = if is_integral d then Json.int (int_of_decimal d) else to_float d
    numeric_decimals (dict fs) = obj (numeric_fields fs)
    numeric_decimals (sequence vs) = Json.arr (numeric_items vs)
    numeric_decimals (plain v) = v

    pub numeric_fields : DumpedFields → Fields
    numeric_fields no_fields = end
    numeric_fields (dumped_field k v fs) = field k (numeric_decimals v) (numeric_fields fs)

    pub numeric_items : DumpedItems → Items
    numeric_items no_items = Items.nil
    numeric_items (dumped_item v vs) = Items.cons (numeric_decimals v) (numeric_items vs)

  unfoldable pub option_risk_reward_payload :
      (OptionRiskRewardRequest → Dumped) → OptionRiskRewardRequest → Json
  unfolding numeric_decimals
  option_risk_reward_payload model_dump request = numeric_decimals (model_dump request)
