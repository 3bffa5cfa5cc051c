-- ===== src/DeltaNeutral/Checks.antt =====
-- The eight kill conditions of include/arbitrage/delta_neutral_enforcer.hpp. Each check gives the enforcer after
-- it, with its statistics and warnings, and the signal if there is one.
use cplusplus_arbitrage.Base.{
  ℕ, ◌+◌, ◌-◌, ◌/◌, String, Bool, true, ◌&&◌, ◌||◌, not, Option, none, some, List, [], ◌∷◌,
  if◌then◌else◌, ltb, ◌==◌, length,
}
use cplusplus_arbitrage.Double.{Double, lit, nought, ◌⊖◌, ◌⊗◌, ◌⊘◌, ◌≼◌, ◌≻◌, ◌≺◌, ◌≽◌, max_of}
use cplusplus_arbitrage.SortedMap.{Map}
use cplusplus_arbitrage.DeltaNeutral.{
  KillReason, basis_divergence, funding_flip, spread_collapse, exchange_halt, drawdown_limit,
  adl_risk, stablecoin_depeg, liquidation_cascade, DeltaNeutralEnforcer, KillSignal, Detail,
  divergence_exceeds, flipped_from, spread_below, halted, drawdown_exceeds, adl_imminent, depegged,
  cascade_detected, Warning, basis_warning, spread_collapsing, exchange_timeout, drawdown_warning,
  adl_warning, depeg_warning, cascade_risk, Stats, compute_delta,
}
use cplusplus_arbitrage.DeltaNeutral.Market.{
  compute_basis, get_funding_spread, get_net_funding_direction,
}

unfoldable pub halted_exchanges : (now timeout_ms : ℕ) → Map String ℕ → List String
halted_exchanges now timeout_ms [] = []
halted_exchanges now timeout_ms ((venue, last) ∷ m) =
    let rest = halted_exchanges now timeout_ms m in
    if ltb timeout_ms ((now - last) / 1000) then venue ∷ rest else rest

abbrev pub first_venue : List String → String
first_venue [] = ""
first_venue (venue ∷ venues) = venue

module _ {D : Type 0} ⦃d : Double D⦄ where
  abbrev pub signal : KillReason → Detail D → (urgency estimated_loss : D) → KillSignal D
  signal reason detail urgency estimated_loss = record {
    should_kill = true;
    reason = reason;
    detail = detail;
    urgency = urgency;
    estimated_loss = estimated_loss;
  }

  -- `warnings_issued++` and the callback, where the test holds.
  abbrev pub warn :
      Bool → Warning D → (urgency : D) → Stats D → DeltaNeutralEnforcer D → DeltaNeutralEnforcer D
  warn raised warning urgency s e = record e {
    stats = record s {
      warnings_issued = if raised then s.warnings_issued + 1 else s.warnings_issued;
    };
    warning_log = if raised then (warning, urgency) ∷ e.warning_log else e.warning_log;
  }

  unfoldable pub check_basis_divergence :
      ℕ → DeltaNeutralEnforcer D → DeltaNeutralEnforcer D × Option (KillSignal D)
  unfolding compute_basis compute_delta
  check_basis_divergence now e =
      let basis = compute_basis now e in
      let divergence = basis.max_basis_divergence in
      let s = e.stats in
      let s' : Stats D = record s {
        max_basis_divergence_seen = max_of s.max_basis_divergence_seen divergence;
      } in
      (
        warn (basis.is_warning && not basis.is_critical) (basis_warning divergence) (lit 5 10) s' e,
        if not basis.is_critical
            then none
            else some (
                signal basis_divergence
                  (divergence_exceeds divergence e.config.basis_divergence_limit) (lit 90 100)
                  (divergence ⊗ (compute_delta now e).total_long_notional)),
      )

  abbrev pub has_flipped : (initial current buffer : D) → Bool
  has_flipped initial current buffer =
      ((initial ≻ nought) && (current ≺ d.neg buffer)) || ((initial ≺ nought) && (current ≻ buffer))

  unfoldable pub check_funding_flip :
      DeltaNeutralEnforcer D → DeltaNeutralEnforcer D × Option (KillSignal D)
  unfolding get_net_funding_direction
  check_funding_flip e =
      let current = get_net_funding_direction e in
      let buffer = e.config.funding_flip_buffer in
      let sets = not e.funding_direction_set && (d.abs current ≻ buffer) in
      let initial = e.initial_funding_direction in
      (
        record e {
          initial_funding_direction = if sets then current else initial;
          funding_direction_set = if sets then true else e.funding_direction_set;
        },
        if sets
            then none
            else if not e.funding_direction_set
            then none
            else if not (has_flipped initial current buffer)
            then none
            else some (signal funding_flip (flipped_from initial current) (lit 70 100) nought),
      )

  unfoldable pub check_spread_collapse :
      DeltaNeutralEnforcer D → DeltaNeutralEnforcer D × Option (KillSignal D)
  unfolding get_funding_spread
  check_spread_collapse e =
      let spread = get_funding_spread e in
      let minimum = e.config.min_funding_spread in
      let close = spread ≽ minimum ⊗ lit 5 10 in
      (
        warn (not (spread ≽ minimum) && close) (spread_collapsing spread) (lit 6 10) e.stats e,
        if spread ≽ minimum
            then none
            else if close
            then none
            else some (signal spread_collapse (spread_below spread minimum) (lit 50 100) nought),
      )

  abbrev pub halt_signal : List String → (net_delta : D) → Option (KillSignal D)
  halt_signal [] net_delta = none
  halt_signal (venue ∷ venues) net_delta =
      some (signal exchange_halt (halted (venue ∷ venues)) (lit 95 100) net_delta)

  unfoldable pub check_exchange_halt :
      ℕ → DeltaNeutralEnforcer D → DeltaNeutralEnforcer D × Option (KillSignal D)
  unfolding halted_exchanges compute_delta
  check_exchange_halt now e =
      let venues = halted_exchanges now e.config.exchange_timeout_ms e.last_heartbeat in
      let s = e.stats in
      let s' : Stats D = record s {
        last_all_venues_healthy = if length venues == 0 then now else s.last_all_venues_healthy;
      } in
      (
        warn (length venues == 1) (exchange_timeout (first_venue venues)) (lit 8 10) s' e,
        halt_signal venues (compute_delta now e).net_delta,
      )

  unfoldable pub check_drawdown_limit :
      DeltaNeutralEnforcer D → DeltaNeutralEnforcer D × Option (KillSignal D)
  check_drawdown_limit e =
      let mark = e.high_water_mark in
      let idle = (mark ≼ nought) || (e.current_equity ≼ nought) in
      let drawdown = (mark ⊖ e.current_equity) ⊘ mark in
      let limit = e.config.max_session_drawdown in
      let s = e.stats in
      let s' : Stats D = record s { max_drawdown_seen = max_of s.max_drawdown_seen drawdown } in
      let raised = (drawdown ≽ limit ⊗ lit 5 10) && (drawdown ≺ limit) in
      (
        if idle then e else warn raised (drawdown_warning drawdown) (lit 6 10) s' e,
        if idle
            then none
            else if drawdown ≺ limit
            then none
            else some (
                signal drawdown_limit (drawdown_exceeds drawdown limit) (lit 80 100)
                  (mark ⊖ e.current_equity)),
      )

  -- The loops that look for the worst venue and the worst stablecoin, with the worst so far.
  unfoldable pub worst_loop : (D → D) → Map String D → D × String → D × String
  worst_loop measure [] s = s
  worst_loop measure ((name, x) ∷ m) (worst, worst_name) =
      worst_loop measure m (if measure x ≻ worst then (measure x, name) else (worst, worst_name))

  unfoldable pub check_adl_risk :
      ℕ → DeltaNeutralEnforcer D → DeltaNeutralEnforcer D × Option (KillSignal D)
  unfolding worst_loop compute_delta
  check_adl_risk now e =
      let (position, venue) = worst_loop (λ x. x) e.adl_queue_positions (nought, "") in
      let c = e.config in
      (
        warn ((position ≽ c.adl_queue_warning) && (position ≺ c.adl_queue_critical))
            (adl_warning venue position) (lit 7 10) e.stats e,
        if position ≺ c.adl_queue_critical
            then none
            else some (
                signal adl_risk (adl_imminent venue position) (lit 95 100)
                  ((compute_delta now e).total_long_notional ⊗ lit 1 10)),
      )

  abbrev pub depeg_of : D → D
  depeg_of price = d.abs (lit 1 1 ⊖ price)

  unfoldable pub check_stablecoin_depeg :
      DeltaNeutralEnforcer D → DeltaNeutralEnforcer D × Option (KillSignal D)
  unfolding worst_loop
  check_stablecoin_depeg e =
      let (depeg, symbol) = worst_loop depeg_of e.stablecoin_prices (nought, "") in
      let c = e.config in
      (
        warn ((depeg ≽ c.stablecoin_depeg_warning) && (depeg ≺ c.stablecoin_depeg_critical))
            (depeg_warning symbol depeg) (lit 6 10) e.stats e,
        if depeg ≺ c.stablecoin_depeg_critical
            then none
            else some (
                signal stablecoin_depeg (depegged symbol depeg) (lit 92 100)
                  (e.current_equity ⊗ depeg)),
      )

  unfoldable pub check_liquidation_cascade :
      DeltaNeutralEnforcer D → DeltaNeutralEnforcer D × Option (KillSignal D)
  check_liquidation_cascade e =
      let no_data = (e.total_oi ≼ nought) || (e.avg_liquidation_volume ≼ nought) in
      let oi_skew =
        if e.total_oi ≻ nought then max_of e.long_oi e.short_oi ⊘ e.total_oi else nought in
      let liq_ratio =
        if e.avg_liquidation_volume ≻ nought
        then e.liquidation_volume_24h ⊘ e.avg_liquidation_volume
        else nought in
      let skew_critical = oi_skew ≽ e.config.oi_skew_critical in
      let liq_spike = liq_ratio ≽ e.config.liquidation_volume_spike in
      let both = skew_critical && liq_spike in
      let warning : Warning D =
        cascade_risk (if skew_critical then some oi_skew else none)
          (if liq_spike then some liq_ratio else none) in
      (
        if no_data
            then e
            else warn ((skew_critical || liq_spike) && not both) warning (lit 65 100) e.stats e,
        if no_data
            then none
            else if not both
            then none
            else some (
                signal liquidation_cascade (cascade_detected oi_skew liq_ratio) (lit 85 100)
                  (e.current_equity ⊗ lit 15 100)),
      )
