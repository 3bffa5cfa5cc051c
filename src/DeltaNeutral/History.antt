-- ===== src/DeltaNeutral/History.antt =====
-- Sequences of calls of a DeltaNeutralEnforcer, each at a time, and what the checks leave alone.
use cplusplus_arbitrage.Base.{ℕ, String, ◌≡◌, refl, Option, none, some, List, [], ◌∷◌, arith}
use cplusplus_arbitrage.Double.{Double}
use cplusplus_arbitrage.Funding.{Position}
use cplusplus_arbitrage.DeltaNeutral.{
  DeltaNeutralEnforcer, KillSignal, update_position, update_mark_price, record_heartbeat,
  update_funding_rate, update_adl_position, update_stablecoin_price, update_market_metrics,
  update_equity, check_hedge_needed,
}
use cplusplus_arbitrage.DeltaNeutral.Kill.{
  all_checks, tell_kill, worst_signal, check_kill_conditions, record_kill,
}

pub data Call (D : Type 0) : Type 0 where
  updates_position : Position D → Call D
  updates_mark : (venue instrument : String) (mark_price index_price : D) → Call D
  beats : (venue : String) → Call D
  updates_equity : D → Call D
  updates_rate : (venue : String) → D → Call D
  updates_adl : (venue : String) → D → Call D
  updates_stablecoin : (symbol : String) → D → Call D
  updates_metrics : (total_oi long_oi short_oi volume average : D) → Call D
  checks_hedge : Call D
  checks_kill : Call D
  records_kill : KillSignal D → List (Position D) → Call D

-- What the callers have told the enforcer.
pub record SameFeeds {D : Type 0} (e' e : DeltaNeutralEnforcer D) : Type 0 where
  pub config : e'.config ≡ e.config
  pub positions : e'.positions ≡ e.positions
  pub mark_prices : e'.mark_prices ≡ e.mark_prices
  pub index_prices : e'.index_prices ≡ e.index_prices
  pub funding_rates : e'.funding_rates ≡ e.funding_rates
  pub last_heartbeat : e'.last_heartbeat ≡ e.last_heartbeat
  pub adl_queue_positions : e'.adl_queue_positions ≡ e.adl_queue_positions
  pub stablecoin_prices : e'.stablecoin_prices ≡ e.stablecoin_prices
  pub starting_equity : e'.starting_equity ≡ e.starting_equity
  pub current_equity : e'.current_equity ≡ e.current_equity
  pub high_water_mark : e'.high_water_mark ≡ e.high_water_mark

module _ {D : Type 0} ⦃d : Double D⦄ (show : D → String) where
  unfoldable pub perform : ℕ × Call D → DeltaNeutralEnforcer D → DeltaNeutralEnforcer D
  unfolding update_position update_mark_price record_heartbeat update_equity update_funding_rate
      update_adl_position update_stablecoin_price update_market_metrics check_hedge_needed
      check_kill_conditions record_kill
  perform (now, updates_position p) e = update_position p e
  perform (now, updates_mark venue instrument mark_price index_price) e =
      update_mark_price venue instrument mark_price index_price e
  perform (now, beats venue) e = record_heartbeat venue now e
  perform (now, updates_equity equity) e = update_equity equity e
  perform (now, updates_rate venue rate) e = update_funding_rate venue rate e
  perform (now, updates_adl venue queue_position) e = update_adl_position venue queue_position e
  perform (now, updates_stablecoin symbol price) e = update_stablecoin_price symbol price e
  perform (now, updates_metrics total_oi long_oi short_oi volume average) e =
      update_market_metrics total_oi long_oi short_oi volume average e
  perform (now, checks_hedge) e = (check_hedge_needed now e).0
  perform (now, checks_kill) e = (check_kill_conditions now e).0
  perform (now, records_kill s closed_positions) e = record_kill show s closed_positions now e

  unfoldable pub perform_all : List (ℕ × Call D) → DeltaNeutralEnforcer D → DeltaNeutralEnforcer D
  unfolding perform
  perform_all [] e = e
  perform_all (c ∷ cs) e = perform_all cs (perform c e)

module _ {D : Type 0} ⦃d : Double D⦄ where
  pub check_hedge_needed-feeds :
      (now : ℕ) (e : DeltaNeutralEnforcer D) → SameFeeds (check_hedge_needed now e).0 e
  unfolding check_hedge_needed
  check_hedge_needed-feeds now e = ground arith

  all_checks-feeds : (now : ℕ) (e : DeltaNeutralEnforcer D) → SameFeeds (all_checks now e).0 e
  unfolding all_checks
  all_checks-feeds now e = ground arith

  tell_kill-feeds :
      (w : Option (KillSignal D)) (e' e : DeltaNeutralEnforcer D)
      → SameFeeds e' e
      → SameFeeds (tell_kill w e') e
  tell_kill-feeds none e' e h = h
  tell_kill-feeds (some w) e' e h = ground arith

  pub check_kill_conditions-feeds :
      (now : ℕ) (e : DeltaNeutralEnforcer D) → SameFeeds (check_kill_conditions now e).0 e
  unfolding check_kill_conditions
  check_kill_conditions-feeds now e =
      tell_kill-feeds (worst_signal (all_checks now e).1 none) (all_checks now e).0 e
        (all_checks-feeds now e)

module _ {D : Type 0} ⦃d : Double D⦄ (show : D → String) where
  pub record_kill-feeds :
      (s : KillSignal D) (ps : List (Position D)) (now : ℕ) (e : DeltaNeutralEnforcer D)
      → SameFeeds (record_kill show s ps now e) e
  unfolding record_kill
  record_kill-feeds s ps now e = ground arith

  pub perform-config :
      (c : ℕ × Call D) (e : DeltaNeutralEnforcer D) → (perform show c e).config ≡ e.config
  unfolding perform
  perform-config (now, updates_position p) e = refl
  perform-config (now, updates_mark venue instrument mark_price index_price) e = refl
  perform-config (now, beats venue) e = refl
  perform-config (now, updates_equity equity) e = refl
  perform-config (now, updates_rate venue rate) e = refl
  perform-config (now, updates_adl venue queue_position) e = refl
  perform-config (now, updates_stablecoin symbol price) e = refl
  perform-config (now, updates_metrics total_oi long_oi short_oi volume average) e = refl
  perform-config (now, checks_hedge) e = (check_hedge_needed-feeds now e).config
  perform-config (now, checks_kill) e = (check_kill_conditions-feeds now e).config
  perform-config (now, records_kill s ps) e = (record_kill-feeds s ps now e).config
