-- ===== src/Reconciliation/Unique.antt =====
-- The outcome of matching, against the orders that match (reconciliation.py).
use ts_api_wrapper.Base.{
  ℕ, String, ◌≡◌, refl, ◌↔◌, true, Option, none, some, List, [], ◌∷◌, eq_iff, arith, keep, leb, ap,
}
use ts_api_wrapper.Base.Int.{◌-ℤ◌, abs, ℤ}
use ts_api_wrapper.Base.DateTime.{DateTime, aware, naive}
use ts_api_wrapper.Base.Text.{codes, upper, without_code}
use ts_api_wrapper.Base.Decimal.{Decimal, eqb_Decimal}
use ts_api_wrapper.Models.Enums.{TradeAction, buy, value, OrderType}
use ts_api_wrapper.Models.Snapshots.{
  OrderSnapshot, UnknownOrderFingerprint, primary_symbol, primary_action, primary_quantity,
}
use ts_api_wrapper.Reconciliation.{
  exact_match, no_match, multiple_matches, ReconciliationResult, matched_order, within, is_text,
  is_account, is_action, is_order_type, is_quantity, normalize_broker_action, matches_fingerprint,
  match_unknown_order, decimal_equal, find_action, trade_actions,
}

-- An order is named exactly when it is the only one of the snapshots that matches the fingerprint;
-- the outcome is "no match" exactly when none matches.
pub match_unknown_order_iff :
    (f : UnknownOrderFingerprint) (ss : List OrderSnapshot) (window : ℕ) (s : OrderSnapshot)
    → let r = match_unknown_order f ss window in
      let found = keep (λ t. matches_fingerprint f t window) ss in
      ((matched_order r ≡ some s) ↔ (found ≡ s ∷ []))
      × ((r.outcome ≡ no_match) ↔ (found ≡ []))
      × (r.matches ≡ found)
unfolding match_unknown_order matched_order
match_unknown_order_iff f ss window s = go (keep (λ t. matches_fingerprint f t window) ss)
  where
    go :
        (found : List OrderSnapshot)
        → let r : ReconciliationResult = elim found [
          | [] ↦ record { outcome = no_match; matches = [] }
          | s ∷ [] ↦ record { outcome = exact_match; matches = s ∷ [] }
          | s ∷ t ∷ rest ↦ record { outcome = multiple_matches; matches = s ∷ t ∷ rest }
        ] in
          ((matched_order r ≡ some s) ↔ (found ≡ s ∷ []))
          × ((r.outcome ≡ no_match) ↔ (found ≡ []))
          × (r.matches ≡ found)
    go [] = (ground arith, ground arith, refl)
    go (t ∷ []) = (ground arith, ground arith, refl)
    go (t ∷ u ∷ rest) = (ground arith, ground arith, refl)

-- The order named is the fingerprint's, as far as the snapshot shows.
pub record IsSameOrder (f : UnknownOrderFingerprint) (s : OrderSnapshot) (window : ℕ) : Type 0 where
  pub account : (a : String) → s.account_id ≡ some a → a ≡ f.account_id
  pub symbol : primary_symbol s ≡ some f.symbol
  pub action :
      (a : TradeAction) × (normalize_broker_action (primary_action s) ≡ some a)
      × (value a ≡ value f.trade_action)
  pub type : s.order_type ≡ some f.order_type
  pub quantity : (q : Decimal) × (primary_quantity s ≡ some q) × (eqb_Decimal q f.quantity ≡ true)
  pub limit_price : decimal_equal s.limit_price f.limit_price ≡ true
  pub stop_price : decimal_equal s.stop_price f.stop_price ≡ true
  pub opened :
      (t u : ℤ) × (s.opened_at ≡ some (aware t))
      × (f.submitted_at ≡ aware u)
      × (leb (abs (t -ℤ u)) window ≡ true)

text_sound : (o : Option String) (s : String) → is_text o s ≡ true → o ≡ some s
text_sound none s h = cc
text_sound (some t) s h = ap some ((eq_iff t s).0 h)

account_sound : (o : Option String) (s a : String) → is_account o s ≡ true → o ≡ some a → a ≡ s
account_sound none s a h e = cc
account_sound (some t) s a h e = ground (arith, eq_iff t s)

action_sound :
    (o : Option TradeAction) (a : TradeAction)
    → is_action o a ≡ true
    → (b : TradeAction) × (o ≡ some b) × (value b ≡ value a)
unfolding is_action
action_sound none a h = cc
action_sound (some b) a h = (b, refl, (eq_iff (value b) (value a)).0 h)

type_sound : (o : Option OrderType) (t : OrderType) → is_order_type o t ≡ true → o ≡ some t
type_sound none t h = cc
type_sound (some u) t h = ground arith

quantity_sound :
    (o : Option Decimal) (q : Decimal)
    → is_quantity o q ≡ true
    → (r : Decimal) × (o ≡ some r) × (eqb_Decimal r q ≡ true)
quantity_sound none q h = cc
quantity_sound (some r) q h = (r, refl, h)

within_sound :
    (o : Option DateTime) (d : DateTime) (window : ℕ)
    → within o d window ≡ true
    → (t u : ℤ) × (o ≡ some (aware t)) × (d ≡ aware u) × (leb (abs (t -ℤ u)) window ≡ true)
unfolding within
within_sound (some (aware t)) (aware u) window h = (t, u, refl, refl, h)
within_sound (some (aware t)) (naive u) window h = cc
within_sound (some (naive t)) d window h = cc
within_sound none d window h = cc

-- A snapshot that matches a fingerprint agrees with it in symbol, action, order type, quantity, limit
-- and stop price, in the account if the snapshot has one, and was opened at a time with a zone, at
-- most `window` microseconds from the submission.
pub matches_fingerprint-IsSameOrder :
    (f : UnknownOrderFingerprint) (s : OrderSnapshot) (window : ℕ)
    → matches_fingerprint f s window ≡ true
    → IsSameOrder f s window
unfolding matches_fingerprint
matches_fingerprint-IsSameOrder f s window h = record {
  account = λ a e. account_sound s.account_id f.account_id a (ground arith) e;
  symbol = text_sound (primary_symbol s) f.symbol (ground arith);
  action = action_sound (normalize_broker_action (primary_action s)) f.trade_action (ground arith);
  type = type_sound s.order_type f.order_type (ground arith);
  quantity = quantity_sound (primary_quantity s) f.quantity (ground arith);
  limit_price = ground arith;
  stop_price = ground arith;
  opened = within_sound s.opened_at f.submitted_at window (ground arith);
}

find_action-value : (a : TradeAction) → find_action trade_actions (codes (value a)) ≡ some a
unfolding find_action value
find_action-value buy = refl
find_action-value _ = refl

-- A broker's name for an action, up to spaces, underscores and upper case, is read as that action.
pub normalize_broker_action-value :
    (a : TradeAction) (text : String)
    → upper (without_code b'_' (without_code b' ' (codes text))) ≡ codes (value a)
    → normalize_broker_action (some text) ≡ some a
unfolding normalize_broker_action
normalize_broker_action-value a text h = rw (h, find_action-value a)
