-- ===== src/Validation/Risk.antt =====
-- What the risk checks of validation.py accept: exactly the orders that the configuration permits,
-- at every depth of the orders that they trigger.
use ts_api_wrapper.Base.{
  String, ◌≡◌, refl, ◌↔◌, ◌⊎◌, inl, inr, Bool, true, false, Option, none, some, arith, contains,
  is_none,
}
use ts_api_wrapper.Base.Decimal.{Decimal, leb_Decimal, mul_Decimal}
use ts_api_wrapper.Base.Result.{ok, >>-eq-ok_iff}
use ts_api_wrapper.Config.{TradeStationConfig, assert_can_submit_orders, is_active_switch}
use ts_api_wrapper.Models.Enums.{
  is_market, is_unknown, is_option, is_future, limit, stop_market, market, stop_limit, OrderType,
}
use ts_api_wrapper.Models.Options.{is_given_non_positive}
use ts_api_wrapper.Models.Orders.{
  OrderFields, OrderRequest, order, Osos, nil, cons, AllOrders, AllOsos,
}
use ts_api_wrapper.Models.Built.{IsBuilt}
use ts_api_wrapper.Validation.{
  is_extended_hours, or_else, estimated_notional, exceeds, validate_single_order_for_config,
  validate_order_for_config, validate_osos_for_config,
}

-- The price by which an order's risk is judged: the estimate if given, else the limit price, else
-- the stop price.
abbrev pub IsRiskPrice : OrderFields → Decimal → Type 0
IsRiskPrice f p =
    (f.estimated_price ≡ some p)
    ⊎ ((f.estimated_price ≡ none) × (f.limit_price ≡ some p))
    ⊎ ((f.estimated_price ≡ none) × (f.limit_price ≡ none) × (f.stop_price ≡ some p))

abbrev pub IsWithinNotional : TradeStationConfig → OrderFields → Type 0
IsWithinNotional c f =
    (p : Decimal) × IsRiskPrice f p
    × (leb_Decimal (mul_Decimal f.quantity p) c.max_order_notional ≡ true)

pub record IsPermitted (c : TradeStationConfig) (f : OrderFields) : Type 0 where
  pub class_known : is_unknown f.asset_class ≡ false
  pub market_allowed : is_market f.order_type ≡ true → c.allow_market_orders ≡ true
  pub options_allowed : is_option f.asset_class ≡ true → c.allow_options ≡ true
  pub futures_allowed : is_future f.asset_class ≡ true → c.allow_futures ≡ true
  pub extended_allowed :
      is_extended_hours f.time_in_force.duration ≡ true → c.allow_extended_hours ≡ true
  pub within_notional : IsWithinNotional c f
  pub estimated : is_market f.order_type ≡ true → is_none f.estimated_price ≡ false

-- A given price that is positive counts as given in `a or b`.
or_else_given :
    (p : Decimal) (b : Option Decimal)
    → is_given_non_positive (some p) ≡ false
    → or_else (some p) b ≡ some p
or_else_given p b h = ground arith

within_sound :
    (c : TradeStationConfig) (f : OrderFields)
    → IsBuilt f
    → (is_market f.order_type ≡ true → is_none f.estimated_price ≡ false)
    → exceeds (estimated_notional f) c.max_order_notional ≡ false
    → IsWithinNotional c f
unfolding estimated_notional
within_sound c f b m h =
    go f.order_type f.estimated_price f.limit_price f.stop_price refl refl refl refl
  where
    go :
        (t : OrderType) (e l s : Option Decimal)
        → f.order_type ≡ t
        → f.estimated_price ≡ e
        → f.limit_price ≡ l
        → f.stop_price ≡ s
        → IsWithinNotional c f
    go t (some p) l s et ee el es = (p, inl ee, ground (arith, b.estimate_positive))
    go t none (some p) s et ee el es = (p, inr (inl (ee, el)), ground (arith, b.limit_positive))
    go t none none (some p) et ee el es =
        (p, inr (inr (ee, el, es)), ground (arith, b.stop_positive))
    go limit none none none et ee el es = absurd (ground (arith, b.prices))
    go stop_market none none none et ee el es = absurd (ground (arith, b.prices))
    go market none none none et ee el es = absurd (ground arith)
    go stop_limit none none none et ee el es = absurd (ground (arith, b.prices))

within_complete :
    (c : TradeStationConfig) (f : OrderFields)
    → IsBuilt f
    → IsWithinNotional c f
    → exceeds (estimated_notional f) c.max_order_notional ≡ false
unfolding estimated_notional
within_complete c f b (p, inl e, le) = ground (arith, b.estimate_positive)
within_complete c f b (p, inr (inl (e, l)), le) = ground (arith, b.limit_positive)
within_complete c f b (p, inr (inr (e, l, s)), le) = ground (arith, b.stop_positive)

single_sound :
    (c : TradeStationConfig) (f : OrderFields)
    → IsBuilt f
    → validate_single_order_for_config f c ≡ ok tt
    → IsPermitted c f
unfolding validate_single_order_for_config
single_sound c f b h =
    let m : is_market f.order_type ≡ true → is_none f.estimated_price ≡ false = λ e. ground arith in
    record {
      class_known = ground arith;
      market_allowed = λ e. ground arith;
      options_allowed = λ e. ground arith;
      futures_allowed = λ e. ground arith;
      extended_allowed = λ e. ground arith;
      within_notional = within_sound c f b m (ground arith);
      estimated = m;
    }

single_complete :
    (c : TradeStationConfig) (f : OrderFields)
    → IsBuilt f
    → IsPermitted c f
    → validate_single_order_for_config f c ≡ ok tt
unfolding validate_single_order_for_config
single_complete c f b p = ground (arith, within_complete c f b p.within_notional)

-- The account is allowlisted and no kill switch is there.
abbrev pub MaySubmit : (String → Bool) → TradeStationConfig → OrderFields → Type 0
MaySubmit exists c f =
    (contains c.account_allowlist f.account_id ≡ true)
    × (is_active_switch exists c.kill_switch_file ≡ false)

module _ (exists : String → Bool) (c : TradeStationConfig) where
  submit_iff :
      (f : OrderFields)
      → (assert_can_submit_orders exists c f.account_id ≡ ok tt) ↔ MaySubmit exists c f
  unfolding assert_can_submit_orders
  submit_iff f = ground arith

  abbrev pub IsAccepted : OrderFields → Type 0
  IsAccepted f = MaySubmit exists c f × IsPermitted c f

  mutual
    unfolding validate_order_for_config

    order_sound :
        (o : OrderRequest)
        → AllOrders IsBuilt o
        → validate_order_for_config exists c o ≡ ok tt
        → AllOrders IsAccepted o
    order_sound (order f os) (b, bs) h =
        let (may, rest) = (>>-eq-ok_iff _ _).0 h in
        let (single, later) = (>>-eq-ok_iff _ _).0 rest in
        (((submit_iff f).0 may, single_sound c f b single), osos_sound os bs later)

    osos_sound :
        (os : Osos)
        → AllOsos IsBuilt os
        → validate_osos_for_config exists c os ≡ ok tt
        → AllOsos IsAccepted os
    osos_sound nil bs h = tt
    osos_sound (cons o os) (b, bs) h =
        let (here, later) = (>>-eq-ok_iff _ _).0 h in (order_sound o b here, osos_sound os bs later)

  mutual
    unfolding validate_order_for_config

    order_complete :
        (o : OrderRequest)
        → AllOrders IsBuilt o
        → AllOrders IsAccepted o
        → validate_order_for_config exists c o ≡ ok tt
    order_complete (order f os) (b, bs) ((may, p), ps) = (>>-eq-ok_iff _ _).1 (
      (submit_iff f).1 may,
      (>>-eq-ok_iff _ _).1 (single_complete c f b p, osos_complete os bs ps),
    )

    osos_complete :
        (os : Osos)
        → AllOsos IsBuilt os
        → AllOsos IsAccepted os
        → validate_osos_for_config exists c os ≡ ok tt
    osos_complete nil bs h = refl
    osos_complete (cons o os) (b, bs) (p, ps) =
        (>>-eq-ok_iff _ _).1 (order_complete o b p, osos_complete os bs ps)

-- For an order tree whose orders were built, the risk checks pass exactly when every order of the
-- tree, the triggered ones included, is on an allowlisted account with no kill switch active, and is
-- permitted by the configuration: a known asset class, its type, class and duration enabled, and the
-- quantity times the risk price at most `max_order_notional`, with an estimate for a market order.
pub validate_order_for_config_iff :
    (exists : String → Bool) (c : TradeStationConfig) (o : OrderRequest)
    → AllOrders IsBuilt o
    → (validate_order_for_config exists c o ≡ ok tt) ↔ AllOrders (IsAccepted exists c) o
validate_order_for_config_iff exists c o b = (order_sound exists c o b, order_complete exists c o b)
