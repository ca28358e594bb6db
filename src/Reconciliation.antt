-- ===== src/Reconciliation.antt =====
-- Matching an order of unknown outcome against the broker's orders
-- (src/tradestation_api_wrapper/reconciliation.py).
pub mod Unique
use ts_api_wrapper.Base.{
  ℕ, String, Bool, true, false, ◌&&◌, not, Option, none, some, List, [], ◌∷◌, ◌==◌, keep, leb,
  is_none, if◌then◌else◌, nat_eq,
}
use ts_api_wrapper.Base.Int.{ℤ, ◌-ℤ◌, abs}
use ts_api_wrapper.Base.DateTime.{DateTime, naive, aware}
use ts_api_wrapper.Base.Decimal.{Decimal, eqb_Decimal}
use ts_api_wrapper.Base.Text.{codes, eqb_codes, upper, without_code}
use ts_api_wrapper.Models.Enums.{
  TradeAction, buy, sell, buy_to_cover, sell_short, buy_to_open, buy_to_close, sell_to_open,
  sell_to_close, value, OrderType, eqb_OrderType,
}
use ts_api_wrapper.Models.Snapshots.{
  OrderSnapshot, UnknownOrderFingerprint, primary_symbol, primary_action, primary_quantity,
}

pub data ReconciliationOutcome : Type 0 where
  exact_match no_match multiple_matches : ReconciliationOutcome

pub record ReconciliationResult : Type 0 where
  pub outcome : ReconciliationOutcome
  pub matches : List OrderSnapshot

-- the property `order`
abbrev first_match : List OrderSnapshot → Option OrderSnapshot
first_match [] = none
first_match (s ∷ _) = some s

unfoldable pub matched_order : ReconciliationResult → Option OrderSnapshot
matched_order r = elim r.outcome [ exact_match ↦ first_match r.matches | _ ↦ none ]

-- `_TRADE_ACTION_BY_BROKER_NAME`
abbrev pub trade_actions : List (String × TradeAction)
trade_actions =
    ("BUY", buy)
    ∷ ("SELL", sell)
    ∷ ("BUYTOCOVER", buy_to_cover)
    ∷ ("SELLSHORT", sell_short)
    ∷ ("BUYTOOPEN", buy_to_open)
    ∷ ("BUYTOCLOSE", buy_to_close)
    ∷ ("SELLTOOPEN", sell_to_open)
    ∷ ("SELLTOCLOSE", sell_to_close)
    ∷ []

-- `_TRADE_ACTION_BY_BROKER_NAME.get(text)`
pub find_action : List (String × TradeAction) → List ℕ → Option TradeAction
find_action [] text = none
find_action ((name, action) ∷ rest) text =
    if eqb_codes (codes name) text then some action else find_action rest text

unfoldable pub normalize_broker_action : Option String → Option TradeAction
unfolding find_action upper without_code
normalize_broker_action none = none
normalize_broker_action (some text) =
    find_action trade_actions (upper (without_code b'_' (without_code b' ' (codes text))))

unfoldable pub decimal_equal : Option Decimal → Option Decimal → Bool
decimal_equal none none = true
decimal_equal (some a) (some b) = eqb_Decimal a b
decimal_equal _ _ = false

-- `a == b` where `a` may be `None`
abbrev pub is_text : Option String → String → Bool
is_text none s = false
is_text (some t) s = t == s

unfoldable pub is_action : Option TradeAction → TradeAction → Bool
unfolding value
is_action none a = false
is_action (some b) a = value b == value a

abbrev pub is_order_type : Option OrderType → OrderType → Bool
is_order_type none t = false
is_order_type (some u) t = eqb_OrderType u t

abbrev pub is_quantity : Option Decimal → Decimal → Bool
is_quantity none q = false
is_quantity (some r) q = eqb_Decimal r q

-- `snapshot.account_id is None or snapshot.account_id == account`
abbrev pub is_account : Option String → String → Bool
is_account none account = true
is_account (some a) account = a == account

-- `abs(opened_at - submitted_at) <= time_window`; the fingerprint's time is aware by construction
unfoldable pub within : Option DateTime → DateTime → ℕ → Bool
unfolding ◌-ℤ◌
within (some (aware t)) (aware u) window = leb (abs (t -ℤ u)) window
within _ _ window = false

unfoldable pub matches_fingerprint : UnknownOrderFingerprint → OrderSnapshot → ℕ → Bool
matches_fingerprint f s window =
    is_account s.account_id f.account_id
    && is_text (primary_symbol s) f.symbol
    && is_action (normalize_broker_action (primary_action s)) f.trade_action
    && is_order_type s.order_type f.order_type
    && is_quantity (primary_quantity s) f.quantity
    && decimal_equal s.limit_price f.limit_price
    && decimal_equal s.stop_price f.stop_price
    && within s.opened_at f.submitted_at window

unfoldable pub match_unknown_order :
    UnknownOrderFingerprint → List OrderSnapshot → ℕ → ReconciliationResult
match_unknown_order f snapshots window =
    elim (keep (λ s. matches_fingerprint f s window) snapshots) [
      | [] ↦ record { outcome = no_match; matches = [] }
      | s ∷ [] ↦ record { outcome = exact_match; matches = s ∷ [] }
      | s ∷ t ∷ rest ↦ record { outcome = multiple_matches; matches = s ∷ t ∷ rest }
    ]
