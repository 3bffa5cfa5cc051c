-- ===== src/FundingArbitrage/Examples.antt =====
-- The strategy's theorems at concrete data. Amounts are ten-thousandths.
use cplusplus_arbitrage.Base.{ℕ, ◌≡◌, refl, true, false, some, ◌⊎◌}
use cplusplus_arbitrage.Base.Int.{pos}
use cplusplus_arbitrage.Double.{nought, ◌≼◌}
use cplusplus_arbitrage.Double.Fixed.{Fixed, fixed_double, Fixed-IsOrdered}
use cplusplus_arbitrage.FundingArbitrage.{
  Config, Evaluation, enters, FundingRateData, FundingArbPosition, annualized_rate, basis_bps,
  basis_risk, evaluate, should_exit, calculate_position_size,
}
use cplusplus_arbitrage.FundingArbitrage.Decisions.{
  calculate_position_size_bounds, entered_position_kept,
}

abbrev amount : ℕ → Fixed
amount n = some (pos n)

abbrev config : Config Fixed
config = record {
  min_annualized_return = amount 100_000;
  max_basis_bps = amount 500_000;
  min_position_usd = amount 10_000_000;
  max_position_usd = amount 500_000_000;
  stop_loss_bps = amount 1_000_000;
  allow_leverage = false;
  max_leverage = amount 10_000;
}

-- 0.001 in eight hours, about 109% in a year.
abbrev market : FundingRateData Fixed
market = record {
  exchange = "bin";
  symbol = "BTC";
  spot_price = amount 500_000;
  perp_price = amount 501_000;
  mark_price = amount 501_000;
  funding_rate = amount 10;
  predicted_rate = amount 10;
  next_funding_time = 0;
}

abbrev held : FundingArbPosition Fixed
held = record {
  exchange = "bin";
  symbol = "BTC";
  spot_size = amount 10_000;
  perp_size = nought;
  entry_spot_price = amount 500_000;
  entry_perp_price = amount 501_000;
  entry_funding_rate = amount 10;
  total_funding_collected = nought;
  spot_pnl = nought;
  perp_pnl = nought;
  fees_paid = nought;
  funding_periods_held = 0;
  entry_time = 0;
  current_spot_price = amount 500_000;
  current_perp_price = amount 501_000;
}

annual_return_is_109 : annualized_rate market ≡ amount 1_095_000
unfolding annualized_rate
annual_return_is_109 = refl

-- Uninitialised memory that holds a size.
abbrev blank : Evaluation Fixed
blank = record {
  should_enter = false;
  direction = "";
  expected_return_8h = nought;
  expected_return_annual = nought;
  recommended_size_usd = amount 70_000_000;
  risk_score = nought;
  reason = enters "" nought nought nought;
}

-- A market that does not pay is not entered, and its size is 0.
refused :
    calculate_position_size blank (record market { funding_rate = nought }) (amount 5) config
    ≡ nought
unfolding calculate_position_size annualized_rate basis_bps
refused = refl

calculate_position_size_bounds_example :
    let eval = evaluate blank market config in
    let size = calculate_position_size blank market (amount 100_000_000) config in
    ((eval.should_enter ≡ false) × (size ≡ nought))
    ⊎ ((eval.should_enter ≡ true)
        × ((config.min_position_usd ≼ eval.recommended_size_usd) ≡ true)
        × ((eval.recommended_size_usd ≼ config.max_position_usd) ≡ true)
        × ((size ≼ eval.recommended_size_usd) ≡ true)
        × ((size ≼ amount 20_000_000) ≡ true))
calculate_position_size_bounds_example =
    calculate_position_size_bounds Fixed-IsOrdered blank market (amount 100_000_000) config refl
      refl

entered_position_kept_example : should_exit held market config ≡ false
unfolding evaluate annualized_rate basis_bps basis_risk
entered_position_kept_example =
    entered_position_kept Fixed-IsOrdered blank market held config refl refl refl refl
