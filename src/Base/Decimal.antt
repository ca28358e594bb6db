-- ===== src/Base/Decimal.antt =====
-- Python's finite `decimal.Decimal` under the default context: 28 digits, rounding half to even.
-- The exponent limits of that context are not modelled.
use Prim.Native.Nat.{ℕ, zero, suc, ◌+◌, ◌-◌, ◌*◌, ◌/◌, ◌%◌, ◌^◌}
use mathlib.Core.Bool.{Bool, true, false, ◌&&◌, ◌||◌, not}
use ts_api_wrapper.Base.Tests.{ltb, leb, nat_eq, if◌then◌else◌}
use ts_api_wrapper.Base.Int.{ℤ, pos, pos_part, neg_part, sub_ℕ, ◌+ℤ◌, ◌-ℤ◌, abs, leb_ℤ, eqb_ℤ}

-- The value is (-1)^negative * coefficient * 10^exponent.
pub record Decimal : Type 0 where
  pub negative : Bool
  pub coefficient : ℕ
  pub exponent : ℤ

abbrev pub whole : ℕ → Decimal
whole n = record { negative = false; coefficient = n; exponent = pos 0 }

abbrev signed : Bool → ℕ → ℤ
signed true n = sub_ℕ 0 n
signed false n = pos n

-- The coefficient of `a` on the common exponent of `a` and `b`, with its sign.
pub aligned : Decimal → Decimal → ℤ
unfolding ◌-ℤ◌
aligned a b = signed a.negative (a.coefficient * 10 ^ pos_part (a.exponent -ℤ b.exponent))

-- `a <= b` and `a == b`
unfoldable pub leb_Decimal : Decimal → Decimal → Bool
unfolding aligned
leb_Decimal a b = leb_ℤ (aligned a b) (aligned b a)

unfoldable pub eqb_Decimal : Decimal → Decimal → Bool
unfolding aligned
eqb_Decimal a b = eqb_ℤ (aligned a b) (aligned b a)

-- `bool(a)`, and `not a <= 0`
abbrev pub is_truthy : Decimal → Bool
is_truthy a = not (nat_eq a.coefficient 0)

abbrev pub is_positive : Decimal → Bool
is_positive a = not a.negative && not (nat_eq a.coefficient 0)

-- The number of decimal digits, with fuel.
digits : ℕ → ℕ → ℕ
digits zero n = 0
digits (suc f) n = let rest = digits f (n / 10) in if ltb n 10 then 1 else suc rest

abbrev pub precision : ℕ
precision = 28

-- `q` with the rest `r` of `m` rounded half to even.
abbrev half_even : ℕ → ℕ → ℕ → ℕ
half_even q r m = if ltb m (2 * r) || (nat_eq m (2 * r) && nat_eq (q % 2) 1) then q + 1 else q

-- Dropping `k` digits; a carry to 10^28 drops one more.
round_off : Decimal → ℕ → Decimal
round_off a k =
    let q = half_even (a.coefficient / 10 ^ k) (a.coefficient % 10 ^ k) (10 ^ k) in
    if leb (10 ^ precision) q
    then record a { coefficient = q / 10; exponent = a.exponent +ℤ pos (k + 1) }
    else record a { coefficient = q; exponent = a.exponent +ℤ pos k }

unfoldable pub round_to_context : Decimal → Decimal
unfolding digits round_off ◌+ℤ◌
round_to_context a =
    let n = digits (suc a.coefficient) a.coefficient in
    if leb n precision then a else round_off a (n - precision)

unfoldable pub mul_Decimal : Decimal → Decimal → Decimal
unfolding round_to_context ◌+ℤ◌
mul_Decimal a b = round_to_context (record {
  negative = (a.negative && not b.negative) || (not a.negative && b.negative);
  coefficient = a.coefficient * b.coefficient;
  exponent = a.exponent +ℤ b.exponent;
})

unfoldable pub add_Decimal : Decimal → Decimal → Decimal
unfolding round_to_context aligned ◌+ℤ◌
add_Decimal a b =
    let v = aligned a b +ℤ aligned b a in
    round_to_context (record {
      negative = if nat_eq (abs v) 0 then a.negative && b.negative else ltb 0 (neg_part v);
      coefficient = abs v;
      exponent = if leb_ℤ a.exponent b.exponent then a.exponent else b.exponent;
    })
