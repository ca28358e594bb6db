-- ===== src/Builders/Groups.antt =====
-- What the builders of groups build (builders.py).
use ts_api_wrapper.Base.{ℕ, String, ◌≡◌, refl, true, false, Option, none, some, [], ◌∷◌, eq_refl}
use ts_api_wrapper.Base.Text.{strip, is_blank}
use ts_api_wrapper.Base.Decimal.{Decimal, is_positive}
use ts_api_wrapper.Base.Result.{ok}
use ts_api_wrapper.Models.Enums.{
  TradeAction, buy, sell, sell_short, buy_to_cover, buy_to_open, sell_to_close, sell_to_open,
  buy_to_close, limit, stop_market, Duration, is_dated, oco, bracket,
}
use ts_api_wrapper.Models.Orders.{OrderRequest, order, nil, group_order_request}
use ts_api_wrapper.Models.Built.{order_request_complete}
use ts_api_wrapper.Builders.{
  Common, built_fields, undated, limit_order, stop_market_order, oco_exit_group,
  protective_exit_action, or_duration, bracket_order_group,
}

-- Arguments with which an order can be built.
pub record IsOrderable (c : Common) : Type 0 where
  pub account_given : is_blank (strip c.account_id) ≡ false
  pub symbol_given : is_blank (strip c.symbol) ≡ false
  pub quantity_positive : is_positive c.quantity ≡ true

abbrev pub stripped : Common → Common
stripped c = record c { account_id = strip c.account_id; symbol = strip c.symbol }

-- A limit order, and a stop-market order, as they are built.
abbrev pub limit_at : Common → TradeAction → Decimal → Duration → String → OrderRequest
limit_at c action price duration fresh =
    order
      (built_fields (stripped c) action limit (record { duration = duration; expiration = none })
        (some price) none none fresh)
      nil

abbrev pub stop_at : Common → TradeAction → Decimal → Duration → String → OrderRequest
stop_at c action price duration fresh =
    order
      (built_fields (stripped c) action stop_market
        (record { duration = duration; expiration = none }) none (some price) none fresh)
      nil

module _ (c : Common) (given : IsOrderable c) (action : TradeAction) where
  limit_order_builds :
      (price : Decimal) (duration : Duration) (fresh : String)
      → is_positive price ≡ true
      → is_dated duration ≡ false
      → limit_order c action price duration fresh ≡ ok (limit_at c action price duration fresh)
  unfolding limit_order undated
  limit_order_builds price duration fresh p d = rw d (
      order_request_complete _ nil (record {
        account_given = given.account_given;
        symbol_given = given.symbol_given;
        quantity_positive = given.quantity_positive;
        limit_positive = rw p;
        stop_positive = refl;
        estimate_positive = refl;
        prices = refl;
      }))

  stop_order_builds :
      (price : Decimal) (duration : Duration) (fresh : String)
      → is_positive price ≡ true
      → is_dated duration ≡ false
      → stop_market_order c action price duration fresh ≡ ok (stop_at c action price duration fresh)
  unfolding stop_market_order undated
  stop_order_builds price duration fresh p d = rw d (
      order_request_complete _ nil (record {
        account_given = given.account_given;
        symbol_given = given.symbol_given;
        quantity_positive = given.quantity_positive;
        limit_positive = refl;
        stop_positive = rw p;
        estimate_positive = refl;
        prices = refl;
      }))

-- The action that closes a position which the first action opens.
pub data IsProtective : TradeAction → TradeAction → Type 0 where
  long_stock : IsProtective buy sell
  short_stock : IsProtective sell_short buy_to_cover
  long_option : IsProtective buy_to_open sell_to_close
  short_option : IsProtective sell_to_open buy_to_close

protective_exit_action-IsProtective :
    (entry exit : TradeAction) → IsProtective entry exit → protective_exit_action entry ≡ ok exit
unfolding protective_exit_action
protective_exit_action-IsProtective _ _ long_stock = refl
protective_exit_action-IsProtective _ _ short_stock = refl
protective_exit_action-IsProtective _ _ long_option = refl
protective_exit_action-IsProtective _ _ short_option = refl

-- From orderable arguments, an opening action, positive prices and undated durations, a bracket is
-- built: an entry limit order in the given direction, then a target limit order and a stop-market
-- order in the direction that closes what the entry opens (selling what was bought, covering what was
-- sold short, and closing an option by the opposite side), all of one account, symbol and quantity.
pub bracket_order_group_builds :
    (c : Common) (entry_action exit_action : TradeAction) (entry target stop : Decimal)
    (duration entry_duration : Duration) (exit_duration : Option Duration) (fresh : ℕ → String)
    → IsOrderable c
    → IsProtective entry_action exit_action
    → is_positive entry ≡ true
    → is_positive target ≡ true
    → is_positive stop ≡ true
    → is_dated entry_duration ≡ false
    → is_dated (or_duration exit_duration duration) ≡ false
    → bracket_order_group c entry_action entry target stop duration entry_duration exit_duration
        fresh
      ≡ ok (record {
        type = bracket;
        orders =
            limit_at c entry_action entry entry_duration (fresh 0)
            ∷ limit_at c exit_action target (or_duration exit_duration duration) (fresh 1)
            ∷ stop_at c exit_action stop (or_duration exit_duration duration) (fresh 2)
            ∷ [];
        request_id = fresh 3;
      })
unfolding bracket_order_group group_order_request
bracket_order_group_builds c a x entry target stop d ed xd fresh given e p q r de dx =
    rw
      (
        protective_exit_action-IsProtective a x e,
        limit_order_builds c given a entry ed (fresh 0) p de,
        limit_order_builds c given x target (or_duration xd d) (fresh 1) q dx,
        stop_order_builds c given x stop (or_duration xd d) (fresh 2) r dx,
        eq_refl (strip c.account_id),
        eq_refl (strip c.symbol),
      )
      refl

-- From orderable arguments, positive prices and an undated duration, an OCO exit group is built: a
-- target limit order and a stop-market order, both in the given direction.
pub oco_exit_group_builds :
    (c : Common) (exit_action : TradeAction) (target stop : Decimal) (duration : Duration)
    (fresh : ℕ → String)
    → IsOrderable c
    → is_positive target ≡ true
    → is_positive stop ≡ true
    → is_dated duration ≡ false
    → oco_exit_group c exit_action target stop duration fresh
      ≡ ok (record {
        type = oco;
        orders =
            limit_at c exit_action target duration (fresh 0)
            ∷ stop_at c exit_action stop duration (fresh 1)
            ∷ [];
        request_id = fresh 2;
      })
unfolding oco_exit_group group_order_request
oco_exit_group_builds c x target stop d fresh given q r dx =
    rw
      (
        limit_order_builds c given x target d (fresh 0) q dx,
        stop_order_builds c given x stop d (fresh 1) r dx,
        eq_refl (strip c.account_id),
        eq_refl (strip c.symbol),
      )
      refl
