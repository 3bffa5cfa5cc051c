-- ===== src/DeltaNeutral.antt =====
-- include/arbitrage/delta_neutral_enforcer.hpp: positions and prices of all venues, the delta and the hedge.
-- `now` is the clock in microseconds during a call; times are not negative and counters are unbounded.
-- Market has the basis and the funding between venues, Checks and Kill the kill conditions.
mod Data
pub mod Market
pub mod Checks
pub mod Kill
pub mod History
pub mod Feeds
pub mod Priority
pub mod Peaks
pub mod Close
pub mod Triggers
pub mod Hedge
pub mod Examples
pub use Data.*
use Prim.Native.Char.{Char}
use Prim.Native.String
use Prim.Native.String.{◌++◌}
use text.Mathlib.Text.{◌==◌}
use cplusplus_arbitrage.Base.{
  ℕ, suc, ◌+◌, String, Bool, true, false, ◌&&◌, ◌||◌, not, Option, none, some, List, [], ◌∷◌,
  if◌then◌else◌,
}
use cplusplus_arbitrage.Double.{
  Double, lit, nought, ◌⊕◌, ◌⊖◌, ◌⊗◌, ◌⊘◌, ◌≼◌, ◌≻◌, ◌≺◌, ◌≽◌, max_of, min_of,
}
use cplusplus_arbitrage.SortedMap.{Map, assign, find}
use cplusplus_arbitrage.SortedMap.Text.{before}
use cplusplus_arbitrage.Types.{Side, buy, sell}
use cplusplus_arbitrage.Funding.{Position, is_colon}

unfoldable pub make_key : String → String → String
make_key venue instrument = venue ++ (":" ++ instrument)

module _ {D : Type 0} where
  unfoldable pub update_position : Position D → DeltaNeutralEnforcer D → DeltaNeutralEnforcer D
  unfolding make_key
  update_position p e = record e {
    positions = assign before (make_key p.venue p.instrument) p e.positions;
  }

  unfoldable pub update_mark_price :
      (venue instrument : String) (mark_price index_price : D)
      → DeltaNeutralEnforcer D
      → DeltaNeutralEnforcer D
  unfolding make_key
  update_mark_price venue instrument mark_price index_price e = record e {
    mark_prices = assign before (make_key venue instrument) mark_price e.mark_prices;
    index_prices = assign before (make_key venue instrument) index_price e.index_prices;
  }

  unfoldable pub record_heartbeat : String → ℕ → DeltaNeutralEnforcer D → DeltaNeutralEnforcer D
  record_heartbeat venue now e = record e {
    last_heartbeat = assign before venue now e.last_heartbeat;
  }

  unfoldable pub update_funding_rate : String → D → DeltaNeutralEnforcer D → DeltaNeutralEnforcer D
  update_funding_rate venue rate e = record e {
    funding_rates = assign before venue rate e.funding_rates;
  }

  unfoldable pub update_adl_position : String → D → DeltaNeutralEnforcer D → DeltaNeutralEnforcer D
  update_adl_position venue queue_position e = record e {
    adl_queue_positions = assign before venue queue_position e.adl_queue_positions;
  }

  unfoldable pub update_stablecoin_price :
      String → D → DeltaNeutralEnforcer D → DeltaNeutralEnforcer D
  update_stablecoin_price symbol price e = record e {
    stablecoin_prices = assign before symbol price e.stablecoin_prices;
  }

  unfoldable pub update_market_metrics :
      (total_oi long_oi short_oi liquidation_volume_24h avg_liq_volume : D)
      → DeltaNeutralEnforcer D
      → DeltaNeutralEnforcer D
  update_market_metrics total_oi long_oi short_oi liquidation_volume_24h avg_liq_volume e =
      record e {
        total_oi = total_oi;
        long_oi = long_oi;
        short_oi = short_oi;
        liquidation_volume_24h = liquidation_volume_24h;
        avg_liquidation_volume = avg_liq_volume;
      }

module _ {D : Type 0} ⦃d : Double D⦄ where
  unfoldable pub create :
      (has_db : Bool) (session_id : String) → DeltaNeutralConfig D → DeltaNeutralEnforcer D
  create has_db session_id config = record {
    has_db = has_db;
    session_id = session_id;
    config = config;
    stats = record {
      delta_checks = 0;
      hedges_triggered = 0;
      kill_signals = 0;
      warnings_issued = 0;
      max_delta_seen = nought;
      max_basis_divergence_seen = nought;
      max_drawdown_seen = nought;
      last_all_venues_healthy = 0;
    };
    positions = [];
    mark_prices = [];
    index_prices = [];
    funding_rates = [];
    last_heartbeat = [];
    starting_equity = nought;
    current_equity = nought;
    high_water_mark = nought;
    initial_funding_direction = nought;
    funding_direction_set = false;
    adl_queue_positions = [];
    stablecoin_prices = [];
    total_oi = nought;
    long_oi = nought;
    short_oi = nought;
    liquidation_volume_24h = nought;
    avg_liquidation_volume = nought;
    hedge_log = [];
    kill_log = [];
    warning_log = [];
    event_log = [];
  }

  unfoldable pub update_equity : D → DeltaNeutralEnforcer D → DeltaNeutralEnforcer D
  update_equity equity e =
      let starts = d.eqv e.starting_equity nought in
      let mark = if starts then equity else e.high_water_mark in
      record e {
        starting_equity = if starts then equity else e.starting_equity;
        current_equity = equity;
        high_water_mark = if equity ≻ mark then equity else mark;
      }

  -- The price at which `compute_delta` takes the position that stands under `key`.
  abbrev pub known_mark : Option D → Position D → D
  known_mark none p = p.mark_price
  known_mark (some mark) p = if mark ≻ nought then mark else p.mark_price

  unfoldable pub mark_of : String → Position D → Map String D → D
  mark_of key p marks =
      let mark = known_mark (find before key marks) p in if mark ≼ nought then p.avg_price else mark

  abbrev pub add_notional : Position D → D → DeltaSnapshot D → DeltaSnapshot D
  add_notional p notional snap = record snap {
    delta_by_venue = assign before p.venue notional snap.delta_by_venue;
    total_long_notional =
        if p.qty ≻ nought then snap.total_long_notional ⊕ notional else snap.total_long_notional;
    total_short_notional =
        if p.qty ≻ nought
        then snap.total_short_notional
        else snap.total_short_notional ⊕ d.abs notional;
  }

  unfoldable pub delta_loop :
      Map String D → Map String (Position D) → DeltaSnapshot D → DeltaSnapshot D
  unfolding mark_of
  delta_loop marks [] snap = snap
  delta_loop marks ((key, p) ∷ ps) snap =
      delta_loop marks ps (add_notional p (p.qty ⊗ mark_of key p marks) snap)

  unfoldable pub compute_delta : ℕ → DeltaNeutralEnforcer D → DeltaSnapshot D
  unfolding delta_loop
  compute_delta now e =
      let start : DeltaSnapshot D = record {
        timestamp = now;
        total_long_notional = nought;
        total_short_notional = nought;
        net_delta = nought;
        net_delta_pct = nought;
        delta_by_venue = [];
        is_neutral = false;
      } in
      let snap = delta_loop e.mark_prices e.positions start in
      let net_delta = snap.total_long_notional ⊖ snap.total_short_notional in
      let total_exposure = snap.total_long_notional ⊕ snap.total_short_notional in
      record snap {
        net_delta = net_delta;
        net_delta_pct = if total_exposure ≻ nought then net_delta ⊘ total_exposure else nought;
        is_neutral = d.abs net_delta ≼ e.config.max_delta_notional;
      }

  abbrev pub is_larger : (hedge_amount max_pos : D) → Position D → Bool
  is_larger hedge_amount max_pos p =
      ((hedge_amount ≻ nought) && (p.qty ≻ max_pos))
      || ((hedge_amount ≺ nought) && (p.qty ≺ max_pos))

  -- The venue with the largest position on the side to reduce.
  unfoldable pub hedge_venue_loop : D → Map String (Position D) → D × String → D × String
  hedge_venue_loop hedge_amount [] s = s
  hedge_venue_loop hedge_amount ((key, p) ∷ ps) (max_pos, venue) =
      hedge_venue_loop hedge_amount ps
        (if is_larger hedge_amount max_pos p then (p.qty, p.venue) else (max_pos, venue))

  unfoldable pub instrument_at : String → Map String (Position D) → String
  instrument_at venue [] = ""
  instrument_at venue ((key, p) ∷ ps) =
      let rest = instrument_at venue ps in if p.venue == venue then p.instrument else rest

  abbrev pub first_price : Map String D → D
  first_price [] = lit 1 1
  first_price ((key, mark) ∷ m) = mark

  unfoldable pub hedge_order :
      (hedge_amount net_delta : D) (venue : String) → DeltaNeutralEnforcer D → HedgeOrder D
  unfolding instrument_at
  hedge_order hedge_amount net_delta venue e = record {
    venue = venue;
    instrument = instrument_at venue e.positions;
    side = if hedge_amount ≻ nought then sell else buy;
    qty = d.abs hedge_amount ⊘ first_price e.mark_prices;
    urgency = min_of (lit 1 1) (d.abs net_delta ⊘ e.config.max_delta_notional);
    reason = delta_hedge net_delta;
  }

  unfoldable pub check_hedge_needed :
      ℕ → DeltaNeutralEnforcer D → DeltaNeutralEnforcer D × List (HedgeOrder D)
  unfolding compute_delta hedge_venue_loop hedge_order
  check_hedge_needed now e =
      let delta = compute_delta now e in
      let s = e.stats in
      let checked : Stats D = record s {
        delta_checks = s.delta_checks + 1;
        max_delta_seen = max_of s.max_delta_seen (d.abs delta.net_delta);
      } in
      let triggered : Stats D = record checked { hedges_triggered = s.hedges_triggered + 1 } in
      let hedge_amount = delta.net_delta ⊗ e.config.hedge_aggressiveness in
      let venue = (hedge_venue_loop hedge_amount e.positions (nought, "")).1 in
      let order = hedge_order hedge_amount delta.net_delta venue e in
      if d.abs delta.net_delta ≼ e.config.delta_hedge_threshold
      then (record e { stats = checked }, [])
      else if venue == ""
      then (record e { stats = triggered }, [])
      else (record e { stats = triggered; hedge_log = order ∷ e.hedge_log }, order ∷ [])
