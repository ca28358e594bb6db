-- ===== src/Models/Built.antt =====
-- What every order request that is built satisfies (models.py: the validators of `OrderRequest`).
use ts_api_wrapper.Base.{String, ◌≡◌, refl, sym, ap, true, false, Option, arith, is_none, subst}
use ts_api_wrapper.Base.Text.{strip, strip_idem, is_blank}
use ts_api_wrapper.Base.Decimal.{Decimal, is_positive}
use ts_api_wrapper.Base.Result.{ok, bind_elim, checked, checked_sound, ok-injective}
use ts_api_wrapper.Models.Enums.{OrderType, limit, stop_market, stop_limit, market}
use ts_api_wrapper.Models.Options.{is_given_non_positive}
use ts_api_wrapper.Models.Orders.{
  OrderFields, order, Osos, fields, osos, require_non_blank, require_positive_quantity,
  require_positive_price, validate_price_requirements, order_request,
}

-- The prices that each type of order must have.
abbrev pub HasPrices : OrderType → Option Decimal → Option Decimal → Type 0
HasPrices limit l s = is_none l ≡ false
HasPrices stop_market l s = is_none s ≡ false
HasPrices market l s = Unit
HasPrices stop_limit l s = (is_none l ≡ false) × (is_none s ≡ false)

pub record IsBuilt (f : OrderFields) : Type 0 where
  pub account_stripped : strip f.account_id ≡ f.account_id
  pub account_given : is_blank f.account_id ≡ false
  pub symbol_stripped : strip f.symbol ≡ f.symbol
  pub symbol_given : is_blank f.symbol ≡ false
  pub quantity_positive : is_positive f.quantity ≡ true
  pub limit_positive : is_given_non_positive f.limit_price ≡ false
  pub stop_positive : is_given_non_positive f.stop_price ≡ false
  pub estimate_positive : is_given_non_positive f.estimated_price ≡ false
  pub prices : HasPrices f.order_type f.limit_price f.stop_price

non_blank_sound : (s t : String) → require_non_blank s ≡ ok t → (strip t ≡ t) × (is_blank t ≡ false)
unfolding require_non_blank
non_blank_sound s t h = ground (arith, strip_idem s)

quantity_sound : (d e : Decimal) → require_positive_quantity d ≡ ok e → is_positive e ≡ true
unfolding require_positive_quantity
quantity_sound d e h = ground arith

price_sound :
    (d e : Option Decimal) → require_positive_price d ≡ ok e → is_given_non_positive e ≡ false
unfolding require_positive_price
price_sound d e h = ground arith

prices_by_type :
    (t : OrderType) (f : OrderFields)
    → f.order_type ≡ t
    → validate_price_requirements f ≡ ok tt
    → HasPrices t f.limit_price f.stop_price
unfolding validate_price_requirements
prices_by_type limit f e h = ground arith
prices_by_type stop_market f e h = ground arith
prices_by_type market f e h = tt
prices_by_type stop_limit f e h = (ground arith, ground arith)

-- An order request that is built has a stripped account and symbol that are not blank, a positive
-- quantity, positive prices where prices are given, and the prices that its type requires; the
-- orders that it triggers are those given.
pub order_request-IsBuilt :
    (f g : OrderFields) (os ps : Osos)
    → order_request f os ≡ ok (order g ps)
    → IsBuilt g × (ps ≡ os)
unfolding order_request
order_request-IsBuilt f g os ps h = bind_elim (require_non_blank f.account_id) _ h λ account e1 h1.
    bind_elim (require_non_blank f.symbol) _ h1 λ symbol e2 h2.
      bind_elim (require_positive_quantity f.quantity) _ h2 λ quantity e3 h3.
        bind_elim (require_positive_price f.limit_price) _ h3 λ limit' e4 h4.
          bind_elim (require_positive_price f.stop_price) _ h4 λ stop e5 h5.
            bind_elim (require_positive_price f.estimated_price) _ h5 λ estimated e6 h6.
              bind_elim (checked validate_price_requirements _) _ h6 λ b e7 h7.
                let (valid, built) = checked_sound validate_price_requirements _ b e7 in
                let account_ok = non_blank_sound _ account e1 in
                let symbol_ok = non_blank_sound _ symbol e2 in
                let same : b ≡ g = ap fields (ok-injective h7) in
                let tail : os ≡ ps = ap osos (ok-injective h7) in
                (
                  subst IsBuilt same (
                      subst IsBuilt built (record {
                        account_stripped = account_ok.0;
                        account_given = account_ok.1;
                        symbol_stripped = symbol_ok.0;
                        symbol_given = symbol_ok.1;
                        quantity_positive = quantity_sound _ quantity e3;
                        limit_positive = price_sound _ limit' e4;
                        stop_positive = price_sound _ stop e5;
                        estimate_positive = price_sound _ estimated e6;
                        prices =
                            subst (λ x. HasPrices x.order_type x.limit_price x.stop_price)
                              (sym built) (prices_by_type b.order_type b refl valid);
                      })),
                  sym tail,
                )

-- What the arguments of an order request must satisfy.
pub record IsGiven (f : OrderFields) : Type 0 where
  pub account_given : is_blank (strip f.account_id) ≡ false
  pub symbol_given : is_blank (strip f.symbol) ≡ false
  pub quantity_positive : is_positive f.quantity ≡ true
  pub limit_positive : is_given_non_positive f.limit_price ≡ false
  pub stop_positive : is_given_non_positive f.stop_price ≡ false
  pub estimate_positive : is_given_non_positive f.estimated_price ≡ false
  pub prices : HasPrices f.order_type f.limit_price f.stop_price

abbrev pub stripped : OrderFields → OrderFields
stripped f = record f { account_id = strip f.account_id; symbol = strip f.symbol }

prices_complete :
    (t : OrderType) (f : OrderFields)
    → f.order_type ≡ t
    → HasPrices t f.limit_price f.stop_price
    → validate_price_requirements f ≡ ok tt
unfolding validate_price_requirements
prices_complete limit f e h = ground arith
prices_complete stop_market f e h = ground arith
prices_complete market f e h = ground arith
prices_complete stop_limit f e h = ground arith

non_blank_complete : (s : String) → is_blank (strip s) ≡ false → require_non_blank s ≡ ok (strip s)
unfolding require_non_blank
non_blank_complete s h = rw h

quantity_complete : (d : Decimal) → is_positive d ≡ true → require_positive_quantity d ≡ ok d
unfolding require_positive_quantity
quantity_complete d h = ground arith

price_complete :
    (d : Option Decimal) → is_given_non_positive d ≡ false → require_positive_price d ≡ ok d
unfolding require_positive_price
price_complete d h = ground arith

checked_complete :
    (f : OrderFields)
    → validate_price_requirements f ≡ ok tt
    → checked validate_price_requirements f ≡ ok f
unfolding checked
checked_complete f h = rw h

-- An order request whose account and symbol are not blank, whose quantity and given prices are
-- positive, and which has the prices of its type, is built, with the two texts stripped.
pub order_request_complete :
    (f : OrderFields) (os : Osos) → IsGiven f → order_request f os ≡ ok (order (stripped f) os)
unfolding order_request
order_request_complete f os g =
    rw
      (
        non_blank_complete f.account_id g.account_given,
        non_blank_complete f.symbol g.symbol_given,
        quantity_complete f.quantity g.quantity_positive,
        price_complete f.limit_price g.limit_positive,
        price_complete f.stop_price g.stop_positive,
        price_complete f.estimated_price g.estimate_positive,
        checked_complete (stripped f) (prices_complete f.order_type (stripped f) refl g.prices),
      )
      refl
