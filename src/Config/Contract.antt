-- ===== src/Config/Contract.antt =====
-- What every configuration that is built satisfies (config.py).
use ts_api_wrapper.Base.{
  String, Option, ap, ◌≡◌, ◌≢◌, true, false, none, some, List, [], eq_iff, contains, arith, All,
}
use ts_api_wrapper.Base.Result.{ok, bind_elim, checked_sound}
use ts_api_wrapper.Config.{
  is_acknowledged, sim, live, TradeStationConfig, sim_base_url, live_base_url,
  live_acknowledgement_text, trade_scope, has_duplicates, reject_unresolved_placeholders,
  reject_unresolved_secret_placeholder, require_refresh_scopes, require_unique_account_allowlist,
  validate_environment_contract, trade_station_config,
}
use ts_api_wrapper.Config.Scopes.{cleaned, cleaned-IsClean, IsClean, contains-sorted_set}

pub record IsContract (c : TradeStationConfig) : Type 0 where
  pub sim_url : c.environment ≡ sim → c.base_url ≡ sim_base_url
  pub live_url : c.environment ≡ live → c.base_url ≡ live_base_url
  pub live_enabled : c.environment ≡ live → c.live_trading_enabled ≡ true
  pub live_acknowledged :
      c.environment ≡ live → c.live_acknowledgement ≡ some live_acknowledgement_text
  pub market_scope : c.allow_market_orders ≡ true → contains c.requested_scopes trade_scope ≡ true
  pub option_scope : c.allow_options ≡ true → contains c.requested_scopes trade_scope ≡ true
  pub future_scope : c.allow_futures ≡ true → contains c.requested_scopes trade_scope ≡ true

acknowledged_sound :
    (o : Option String) → is_acknowledged o ≡ true → o ≡ some live_acknowledgement_text
acknowledged_sound none h = cc
acknowledged_sound (some s) h = ap some ((eq_iff s live_acknowledgement_text).0 h)

validate_environment_contract-IsContract :
    (c : TradeStationConfig) → validate_environment_contract c ≡ ok tt → IsContract c
unfolding validate_environment_contract
validate_environment_contract-IsContract c h = record {
  sim_url = λ e. ground (arith, eq_iff c.base_url sim_base_url);
  live_url = λ e. ground (arith, eq_iff c.base_url live_base_url);
  live_enabled = λ e. ground arith;
  live_acknowledged = λ e. acknowledged_sound c.live_acknowledgement (ground arith);
  market_scope = λ e. ground arith;
  option_scope = λ e. ground arith;
  future_scope = λ e. ground arith;
}

pub record IsConfig (c : TradeStationConfig) : Type 0 where
  pub contract : IsContract c
  pub openid : contains c.requested_scopes "openid" ≡ true
  pub offline_access : contains c.requested_scopes "offline_access" ≡ true
  pub accounts_clean : All IsClean c.account_allowlist
  pub accounts_unique : has_duplicates c.account_allowlist ≡ false
  pub accounts_some : c.account_allowlist ≢ []

scopes_sound :
    (v s : List String)
    → require_refresh_scopes v ≡ ok s
    → (contains s "openid" ≡ true) × (contains s "offline_access" ≡ true)
unfolding require_refresh_scopes
scopes_sound v s h = ground (
  arith,
  contains-sorted_set (cleaned v) "openid",
  contains-sorted_set (cleaned v) "offline_access",
)

allowlist_sound :
    (v a : List String)
    → require_unique_account_allowlist v ≡ ok a
    → (a ≡ cleaned v) × (has_duplicates a ≡ false) × (a ≢ [])
unfolding require_unique_account_allowlist
allowlist_sound v a h = ground arith

-- Every configuration that is built satisfies the contract of its environment, requests the scopes
-- for refreshing, and allows a list of accounts that is not empty, has no duplicate, and holds no
-- blank account or one with spaces around it.
pub trade_station_config-IsConfig :
    (c d : TradeStationConfig) → trade_station_config c ≡ ok d → IsConfig d
unfolding trade_station_config
trade_station_config-IsConfig c d h =
    bind_elim (reject_unresolved_placeholders c.client_id) _ h λ client_id _ h1.
      bind_elim (reject_unresolved_secret_placeholder c.client_secret) _ h1 λ secret _ h2.
        bind_elim (reject_unresolved_placeholders c.redirect_uri) _ h2 λ uri _ h3.
          bind_elim (require_refresh_scopes c.requested_scopes) _ h3 λ scopes e4 h4.
            bind_elim (require_unique_account_allowlist c.account_allowlist) _ h4 λ accounts e5 h5.
              let (valid, built) = checked_sound validate_environment_contract _ d h5 in
              let (same, unique, nonempty) = allowlist_sound _ accounts e5 in
              let (openid, offline) = scopes_sound _ scopes e4 in
              record {
                contract = validate_environment_contract-IsContract d valid;
                openid = rw (← built) openid;
                offline_access = rw (← built) offline;
                accounts_clean = rw (← built) (rw same (cleaned-IsClean c.account_allowlist));
                accounts_unique = rw (← built) unique;
                accounts_some = rw (← built) nonempty;
              }
