-- ===== src/Dispersion/Signals.antt =====
-- The signals to enter and to exit, and the risk metrics, of include/arbitrage/funding_dispersion.hpp.
-- `sqrt` is std::sqrt.
use cplusplus_arbitrage.Base.{
  ◌+◌, true, false, Option, none, some, List, [], ◌∷◌, if◌then◌else◌, ltb, length,
}
use cplusplus_arbitrage.Double.{
  Double, lit, nought, ◌⊕◌, ◌⊖◌, ◌⊗◌, ◌⊘◌, ◌≼◌, ◌≻◌, ◌≺◌, max_of, min_of,
}
use cplusplus_arbitrage.SortedMap.{find}
use cplusplus_arbitrage.SortedMap.Text.{before}
use cplusplus_arbitrage.Dispersion.{
  EntrySignal, ExitSignal, FundingDispersionStrategy, FundingPosition, FundingRateSnapshot,
  FundingSpread, Reason, RiskMetrics, compute_best_spread, below_threshold, enters, basis_risk,
  spread_compressed, funding_flipped, position_healthy,
}

module _ {D : Type 0} ⦃d : Double D⦄ where
  abbrev pub sum_from : D → List D → D
  sum_from total [] = total
  sum_from total (x ∷ xs) = sum_from (total ⊕ x) xs

  abbrev pub squares_from : (mean total : D) → List D → D
  squares_from mean total [] = total
  squares_from mean total (x ∷ xs) = squares_from mean (total ⊕ (x ⊖ mean) ⊗ (x ⊖ mean)) xs

  unfoldable pub compute_spread_volatility : (D → D) → FundingDispersionStrategy D → D
  compute_spread_volatility sqrt e =
      let size = lit (length e.spread_history) 1 in
      let mean = sum_from nought e.spread_history ⊘ size in
      if ltb (length e.spread_history) 10
      then lit 2 10_000
      else sqrt (squares_from mean nought e.spread_history ⊘ size)

  unfoldable pub kelly_position_size :
      (capital edge volatility : D) → FundingDispersionStrategy D → D
  kelly_position_size capital edge volatility e =
      let half_kelly = edge ⊘ (volatility ⊗ volatility) ⊗ lit 5 10 in
      let fraction = max_of (min_of half_kelly e.config.max_position_per_exchange) nought in
      if volatility ≼ nought then e.config.min_position_usd else fraction ⊗ capital

  abbrev pub entry_of : (D → D) → D → FundingSpread D → FundingDispersionStrategy D → EntrySignal D
  entry_of sqrt available_capital best e =
      let c = e.config in
      let periods_per_year = lit 1095 1 in
      let fee_cost = lit 2 1 ⊗ (c.maker_fee_bps ⊘ lit 10_000 1) in
      let net_spread = best.spread ⊖ fee_cost ⊘ periods_per_year in
      let vol = compute_spread_volatility sqrt e in
      let kelly = kelly_position_size available_capital net_spread vol e in
      record {
        should_enter = true;
        long_exchange = best.long_exchange;
        short_exchange = best.short_exchange;
        recommended_size = some (max_of (min_of kelly c.max_position_usd) c.min_position_usd);
        expected_annual_return = some (net_spread ⊗ periods_per_year ⊗ lit 100 1 ⊗ c.max_leverage);
        risk_score = some (vol ⊘ (best.spread ⊕ lit 1 10_000));
        reason = enters best;
      }

  unfoldable pub evaluate_entry :
      (D → D) → D → FundingDispersionStrategy D → FundingDispersionStrategy D × EntrySignal D
  evaluate_entry sqrt available_capital e =
      let best = compute_best_spread e in
      let threshold = e.config.entry_spread_threshold in
      let signal = entry_of sqrt available_capital best e in
      let s = e.stats in
      let refused : EntrySignal D = record {
        should_enter = false;
        long_exchange = "";
        short_exchange = "";
        recommended_size = none;
        expected_annual_return = none;
        risk_score = none;
        reason = below_threshold best.spread threshold;
      } in
      let e' : FundingDispersionStrategy D = record e {
        stats = record s { entries_signaled = s.entries_signaled + 1 };
        signal_log = signal ∷ e.signal_log;
      } in
      if best.spread ≺ threshold then (e, refused) else (e', signal)

  abbrev pub spread_now : Option (FundingRateSnapshot D) → Option (FundingRateSnapshot D) → Option D
  spread_now (some long) (some short) = some (short.funding_rate ⊖ long.funding_rate)
  spread_now (some long) none = none
  spread_now none short = none

  abbrev pub exit_of : (urgency : D) → Reason D → ExitSignal D
  exit_of urgency reason = record { should_exit = true; reason = reason; urgency = some urgency }

  abbrev pub healthy : ExitSignal D
  healthy = record { should_exit = false; reason = position_healthy; urgency = none }

  abbrev pub flip_exit : Option D → ExitSignal D
  flip_exit none = healthy
  flip_exit (some spread) =
      if spread ≺ nought then exit_of (lit 8 10) (funding_flipped spread) else healthy

  unfoldable pub evaluate_exit :
      FundingPosition D → FundingDispersionStrategy D → FundingDispersionStrategy D × ExitSignal D
  evaluate_exit position e =
      let c = e.config in
      let divergence = position.current_basis_divergence in
      let best = compute_best_spread e in
      let rates = e.current_rates in
      let current =
        spread_now (find before position.long_exchange rates)
          (find before position.short_exchange rates) in
      let signal =
        if d.abs divergence ≻ c.max_basis_divergence
        then exit_of (lit 9 10) (basis_risk divergence c.max_basis_divergence)
        else if best.spread ≺ c.exit_spread_threshold
        then exit_of (lit 5 10) (spread_compressed best.spread c.exit_spread_threshold)
        else flip_exit current in
      let s = e.stats in
      (
        record e {
          stats = record s {
            exits_signaled = if signal.should_exit then s.exits_signaled + 1 else s.exits_signaled;
          };
        },
        signal,
      )

  unfoldable pub compute_risk_metrics :
      (D → D) → FundingDispersionStrategy D → FundingDispersionStrategy D × RiskMetrics D
  compute_risk_metrics sqrt e =
      let vol = compute_spread_volatility sqrt e in
      let daily_vol = vol ⊗ sqrt (lit 3 1) in
      let best = compute_best_spread e in
      let annual_return = best.spread ⊗ lit 3 1 ⊗ lit 365 1 in
      let annual_vol = daily_vol ⊗ sqrt (lit 365 1) in
      let metrics : RiskMetrics D = record {
        basis_divergence = nought;
        funding_volatility = vol;
        max_drawdown = nought;
        var_99 = lit 233 100 ⊗ daily_vol ⊗ e.config.max_leverage;
        sharpe_estimate =
            if vol ≻ nought then some (annual_return ⊘ (annual_vol ⊕ lit 1 10_000)) else none;
      } in
      (record e { risk_log = metrics ∷ e.risk_log }, metrics)
