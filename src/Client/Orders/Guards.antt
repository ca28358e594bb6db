-- ===== src/Client/Orders/Guards.antt =====
-- What must hold before an order write reaches the network (client.py).
use ts_api_wrapper.Base.{
  String, ◌≡◌, refl, ap, sym, subst, ◌∙◌, ◌⊎◌, inl, inr, Bool, true, false, not, Option, none, some,
  List, [], ◌∷◌, ◌==◌, contains, eq_iff, arith, Bool-cases,
}
use mathlib.Core.List.{Memᴰ}
use ts_api_wrapper.Base.Floats.{Floats}
use ts_api_wrapper.Base.Text.{strip, is_blank}
use ts_api_wrapper.Base.Result.{Result, ok, err, raise_if}
use ts_api_wrapper.Errors.{Error, Failure, local, request_validation_error}
use ts_api_wrapper.Config.{
  trade_scope, read_account_scope, assert_scope_requested, assert_can_cancel_orders,
}
use ts_api_wrapper.Models.Built.{IsBuilt}
use ts_api_wrapper.Models.Orders.{OrderRequest, AllOrders, fields}
use ts_api_wrapper.Models.Snapshots.{OrderSnapshot}
use ts_api_wrapper.Trade.{single}
use ts_api_wrapper.Validation.{validate_order_for_config}
use ts_api_wrapper.Validation.Risk.{IsAccepted, validate_order_for_config_iff}
use ts_api_wrapper.Rest.{Trace}
use ts_api_wrapper.Rest.Run.{Run, ◌>>=◌, ◌>>◌, continue, locally}
use ts_api_wrapper.Rest.Verbs.{post_order_write, delete_order_write}
use ts_api_wrapper.Client.{Client, require_scope, require_capability, order_id_value}
use ts_api_wrapper.Client.Pages.{get_orders_by_id}
use ts_api_wrapper.Client.Orders.{
  place_order, recorded, cancel_order, assert_order_belongs_to_account, is_found, belongs,
  order_path, may_be_account,
}

-- An exception of the client's own, with nothing asked of the environment.
abbrev pub Raises :
    {fl : Floats} {B : Type 0} → Option (Result (Failure fl.F) B) × Trace fl → Trace fl → Type 0
Raises r s = (e : Error) × (r ≡ (some (err (local e)), s))

module _ {fl : Floats} {A B : Type 0} where
  -- A step without network raises on the trace as it is, or goes on from there.
  pub locally-cases :
      (r : Result Error A) (k : A → Run fl B) (s : Trace fl)
      → Raises ((locally r >>= k) s) s ⊎ ((a : A) × (r ≡ ok a) × ((locally r >>= k) s ≡ k a s))
  unfolding ◌>>=◌ continue
  locally-cases (ok a) k s = inr (a, refl, refl)
  locally-cases (err e) k s = inl (e, refl)

pub guard-cases :
    {fl : Floats} {B : Type 0} (r : Result Error (Unit {0})) (k : Run fl B) (s : Trace fl)
    → Raises ((locally r >> k) s) s ⊎ ((r ≡ ok tt) × ((locally r >> k) s ≡ k s))
unfolding ◌>>=◌ ◌>>◌ continue
guard-cases (ok tt) k s = inr (refl, refl)
guard-cases (err e) k s = inl (e, refl)

pub require_scope_sound :
    {fl : Floats} (client : Client fl) (scope : String)
    → require_scope client scope ≡ ok tt
    → contains client.config.requested_scopes scope ≡ true
unfolding assert_scope_requested
require_scope_sound client scope h = ground arith

pub require_scope_complete :
    {fl : Floats} (client : Client fl) (scope : String)
    → contains client.config.requested_scopes scope ≡ true
    → require_scope client scope ≡ ok tt
unfolding assert_scope_requested
require_scope_complete client scope h = rw (h)

pub require_capability_complete : (b : Bool) → b ≡ true → require_capability b ≡ ok tt
unfolding require_capability
require_capability_complete b h = rw (h)

pub require_capability_sound : (b : Bool) → require_capability b ≡ ok tt → b ≡ true
unfolding require_capability
require_capability_sound b h = ground arith

-- Placing a built order either raises an exception of its own with nothing asked of the token
-- provider or the network, or the trade scope was requested, the capability is there and the whole
-- order tree is accepted by the risk checks, and what is sent and returned is the one write of it.
pub place_order_guarded :
    {fl : Floats} (client : Client fl) (o : OrderRequest) (s : Trace fl)
    → AllOrders IsBuilt o
    → Raises (place_order client o s) s
      ⊎ ((contains client.config.requested_scopes trade_scope ≡ true)
          × (client.capabilities.supports_single_orders ≡ true)
          × AllOrders (IsAccepted client.exists client.config) o
          × (place_order client o s
              ≡ recorded client
                  (single o)
                  (client.order_payload o)
                  (post_order_write client.rest "/orderexecution/orders"
                    (client.order_payload o)
                    (some (fields o).request_id))
                  s))
unfolding place_order
place_order_guarded client o s b = elim (guard-cases (require_scope client trade_scope) _ s) [
  | inl (e, h) ↦ inl (e, h)
  | inr (scope, h) ↦
      elim (guard-cases (require_capability client.capabilities.supports_single_orders) _ s) [
        | inl (e, h') ↦ inl (e, h ∙ h')
        | inr (able, h') ↦
            elim (guard-cases (validate_order_for_config client.exists client.config o) _ s) [
              | inl (e, h'') ↦ inl (e, h ∙ h' ∙ h'')
              | inr (valid, h'') ↦ inr (
                require_scope_sound client trade_scope scope,
                require_capability_sound _ able,
                (validate_order_for_config_iff client.exists client.config o b).0 valid,
                h ∙ h' ∙ h'',
              )
            ]
      ]
]

-- An order of the list that is the one asked for, and not known to be another account's.
abbrev pub IsOwned : String → String → List OrderSnapshot → Type 0
IsOwned account_id order_id os =
    (o : OrderSnapshot) × Memᴰ o os
    × (o.order_id ≡ order_id)
    × ((o.account_id ≡ none) ⊎ (o.account_id ≡ some account_id))

may_be_account_sound :
    (account_id : String) (a : Option String)
    → may_be_account account_id a ≡ true
    → (a ≡ none) ⊎ (a ≡ some account_id)
may_be_account_sound account_id none h = inl refl
may_be_account_sound account_id (some a) h = inr (ap some ((eq_iff a account_id).0 h))

belongs_sound :
    (account_id order_id : String) (o : OrderSnapshot)
    → belongs account_id order_id o ≡ true
    → (o.order_id ≡ order_id) × ((o.account_id ≡ none) ⊎ (o.account_id ≡ some account_id))
belongs_sound account_id order_id o h =
    let same : (o.order_id == order_id) ≡ true = ground arith in
    (
      (eq_iff o.order_id order_id).0 same,
      may_be_account_sound account_id o.account_id (ground arith),
    )

is_found_sound :
    (account_id order_id : String) (os : List OrderSnapshot)
    → is_found account_id order_id os ≡ true
    → IsOwned account_id order_id os
unfolding is_found
is_found_sound account_id order_id [] h = absurd (cc)
is_found_sound account_id order_id (o ∷ os) h = elim (Bool-cases (belongs account_id order_id o)) [
  | inl here ↦
      let (same, may) = belongs_sound account_id order_id o here in (o, Memᴰ.head refl, same, may)
  | inr other ↦
      let (p, m, same, may) = is_found_sound account_id order_id os (ground arith) in
      (p, Memᴰ.tail m, same, may)
]

module _ {fl : Floats} (client : Client fl) (account_id order_id : String) where
  abbrev pub lookup : Trace fl → Option (Result (Failure fl.F) (List OrderSnapshot)) × Trace fl
  lookup s = get_orders_by_id client (account_id ∷ []) (order_id ∷ []) s

  abbrev found : List OrderSnapshot → Run fl (Unit {0})
  found os = locally (
      raise_if (not (is_found account_id order_id os))
        (request_validation_error "order was not found for the requested account"))

  continue-cases :
      {B : Type 0} (p : Option (Result (Failure fl.F) (List OrderSnapshot)) × Trace fl)
      (k : Run fl B)
      → ((continue (λ _. k) (continue found p)).1 ≡ p.1)
        ⊎ ((os : List OrderSnapshot) × (p.0 ≡ some (ok os))
            × IsOwned account_id order_id os
            × (continue (λ _. k) (continue found p) ≡ k p.1))
  unfolding continue
  continue-cases (none, s) k = inl refl
  continue-cases (some (err e), s) k = inl refl
  continue-cases (some (ok os), s) k = go (is_found account_id order_id os) refl
    where
      go :
          (b : Bool)
          → is_found account_id order_id os ≡ b
          → ((continue (λ _. k) (continue found (some (ok os), s))).1 ≡ s)
            ⊎ ((os' : List OrderSnapshot) × ◌≡◌
                  {A = Option (Result (Failure fl.F) (List OrderSnapshot))}
                  (some (ok os))
                  (some (ok os'))
                × IsOwned account_id order_id os'
                × (continue (λ _. k) (continue found (some (ok os), s)) ≡ k s))
      go true e = inr (os, refl, is_found_sound account_id order_id os e, rw (e))
      go false e = inl (rw (e))

  pub owner-cases :
      {B : Type 0} (k : Run fl B) (s : Trace fl)
      → (((assert_order_belongs_to_account client account_id order_id >> k) s).1 ≡ (lookup s).1)
        ⊎ ((os : List OrderSnapshot) × ((lookup s).0 ≡ some (ok os))
            × IsOwned account_id order_id os
            × ((assert_order_belongs_to_account client account_id order_id >> k) s
                ≡ k (lookup s).1))
  unfolding assert_order_belongs_to_account ◌>>=◌ ◌>>◌
  owner-cases k s = continue-cases (lookup s) k

order_id_value_sound :
    (order_id cleaned : String)
    → order_id_value order_id ≡ ok cleaned
    → (is_blank (strip order_id) ≡ false) × (strip order_id ≡ cleaned)
unfolding order_id_value
order_id_value_sound order_id cleaned h = ground arith

module _ {fl : Floats} {B : Type 0} (client : Client fl) (account_id order_id : String) where
  -- From the order's ID on: nothing more than the look-up is asked of the environment, or the order
  -- is found and the write `k` follows.
  abbrev pub IsLookedUp :
      (Run fl B) → Trace fl → Option (Result (Failure fl.F) B) × Trace fl → Type 0
  IsLookedUp k s after =
      let looked = lookup client account_id (strip order_id) s in
      (after.1 ≡ s)
      ⊎ (after.1 ≡ looked.1)
      ⊎ ((is_blank (strip order_id) ≡ false)
          × ((os : List OrderSnapshot) × (looked.0 ≡ some (ok os))
              × IsOwned account_id (strip order_id) os)
          × (after ≡ k looked.1))

  pub look_up_cases :
      (k : String → Run fl B) (s : Trace fl)
      → IsLookedUp (k (strip order_id)) s (
          (locally (order_id_value order_id) >>= λ cleaned.
          assert_order_belongs_to_account client account_id cleaned >> k cleaned)
            s)
  look_up_cases k s =
      elim (locally-cases (order_id_value order_id)
        (λ cleaned. assert_order_belongs_to_account client account_id cleaned >> k cleaned) s) [
          | inl (e, h) ↦ inl (ap (λ p. p.1) h)
          | inr (cleaned, value, h) ↦
              let (given, same) = order_id_value_sound order_id cleaned value in
              let h' =
                subst
                  (λ c.
                    (locally (order_id_value order_id) >>= λ cleaned.
                    assert_order_belongs_to_account client account_id cleaned >> k cleaned)
                      s
                    ≡ (assert_order_belongs_to_account client account_id c >> k c) s)
                  (sym same) h in
              elim (owner-cases client account_id (strip order_id) (k (strip order_id)) s) [
                | inl alone ↦ inr (inl (ap (λ p. p.1) h' ∙ alone))
                | inr (os, found_them, owned, next) ↦
                    inr (inr (given, (os, found_them, owned), h' ∙ next))
              ]
        ]

-- Cancelling an order ends in one of two ways. Either what was asked of the environment is nothing,
-- or the look-up of the order alone; or the scopes were requested, the account may cancel orders, the
-- order ID is not blank, the look-up found the order and did not find it to be another account's, and
-- the one write is the deletion of that order.
pub cancel_order_guarded :
    {fl : Floats} (client : Client fl) (account_id order_id : String) (s : Trace fl)
    → let after = cancel_order client account_id order_id s in
      let looked = lookup client account_id (strip order_id) s in
      (after.1 ≡ s)
      ⊎ (after.1 ≡ looked.1)
      ⊎ ((contains client.config.requested_scopes trade_scope ≡ true)
          × (contains client.config.requested_scopes read_account_scope ≡ true)
          × (assert_can_cancel_orders client.config account_id ≡ ok tt)
          × (is_blank (strip order_id) ≡ false)
          × ((os : List OrderSnapshot) × (looked.0 ≡ some (ok os))
              × IsOwned account_id (strip order_id) os)
          × (after
              ≡ delete_order_write client.rest
                  (order_path client (strip order_id))
                  (some (strip order_id))
                  looked.1))
unfolding cancel_order
cancel_order_guarded client account_id order_id s =
    elim (guard-cases (require_scope client trade_scope) _ s) [
      | inl (e, h) ↦ inl (ap (λ p. p.1) h)
      | inr (trade, h) ↦ elim (guard-cases (require_scope client read_account_scope) _ s) [
        | inl (e, h') ↦ inl (ap (λ p. p.1) (h ∙ h'))
        | inr (reads, h') ↦
            elim (guard-cases (assert_can_cancel_orders client.config account_id) _ s) [
              | inl (e, h'') ↦ inl (ap (λ p. p.1) (h ∙ h' ∙ h''))
              | inr (may, h'') ↦
                  elim (look_up_cases client account_id order_id
                    (λ cleaned.
                      delete_order_write client.rest (order_path client cleaned) (some cleaned))
                    s) [
                      | inl same ↦ inl (ap (λ p. p.1) (h ∙ h' ∙ h'') ∙ same)
                      | inr (inl alone) ↦ inr (inl (ap (λ p. p.1) (h ∙ h' ∙ h'') ∙ alone))
                      | inr (inr (given, owned, next)) ↦ inr (
                          inr (
                            require_scope_sound client trade_scope trade,
                            require_scope_sound client read_account_scope reads,
                            may,
                            given,
                            owned,
                            h ∙ h' ∙ h'' ∙ next,
                          ))
                    ]
            ]
      ]
    ]
