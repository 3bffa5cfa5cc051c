-- ===== src/Dispersion/Examples.antt =====
-- The strategy's theorems at concrete rates. Amounts are ten-thousandths.
use mathlib.Core.List.{Memᴰ}
use cplusplus_arbitrage.Base.{ℕ, String, ◌≡◌, refl, true, false, some, List, [], ◌∷◌}
use cplusplus_arbitrage.Base.Int
use cplusplus_arbitrage.Base.Int.{pos}
use cplusplus_arbitrage.Double.{nought, ◌≼◌, ◌≺◌}
use cplusplus_arbitrage.Double.Fixed.{Fixed, fixed_double, Fixed-IsOrdered}
use cplusplus_arbitrage.SortedMap.{Map}
use cplusplus_arbitrage.SortedMap.Text.{before}
use cplusplus_arbitrage.Dispersion.{
  FundingDispersionConfig, FundingDispersionStrategy, FundingRateSnapshot, FundingPosition, create,
  compute_best_spread,
}
use cplusplus_arbitrage.Dispersion.Signals.{
  evaluate_entry, evaluate_exit, kelly_position_size, compute_spread_volatility,
}
use cplusplus_arbitrage.Dispersion.Spread.{IsWidest, Differ, compute_best_spread-IsWidest}
use cplusplus_arbitrage.Dispersion.History.{
  Call, updates, analyzes, last_of, perform_all, spreads_seen, perform_all-spread_history,
}
use cplusplus_arbitrage.Dispersion.Decisions.{recommended_size_bounds, entered_not_exited}

abbrev amount : ℕ → Fixed
amount n = some (pos n)

abbrev config : FundingDispersionConfig Fixed
config = record {
  entry_spread_threshold = amount 4;
  exit_spread_threshold = amount 2;
  max_basis_divergence = amount 50;
  max_position_per_exchange = amount 2500;
  max_leverage = amount 20_000;
  min_position_usd = amount 10_000_000;
  max_position_usd = amount 500_000_000;
  maker_fee_bps = amount 20_000;
  taker_fee_bps = amount 50_000;
}

abbrev rate : Fixed → FundingRateSnapshot Fixed
rate funding_rate = record {
  exchange = "x";
  symbol = "BTC";
  funding_rate = funding_rate;
  predicted_rate = funding_rate;
  next_funding_time = 0;
  mark_price = amount 500_000;
  index_price = amount 500_000;
  timestamp_ms = 0;
}

abbrev rates : Map String (FundingRateSnapshot Fixed)
rates =
    ("bin", rate (amount 10)) ∷ ("dydx", rate (some (Int.negsuc 2))) ∷ ("okx", rate (amount 1)) ∷ []

abbrev strategy : FundingDispersionStrategy Fixed
strategy = record (create config) { current_rates = rates }

-- With ten spreads whose variance is 1.
abbrev seasoned : FundingDispersionStrategy Fixed
seasoned = record strategy {
  spread_history =
      amount 5000
      ∷ amount 25_000
      ∷ amount 5000
      ∷ amount 25_000
      ∷ amount 5000
      ∷ amount 25_000
      ∷ amount 5000
      ∷ amount 25_000
      ∷ amount 5000
      ∷ amount 25_000
      ∷ [];
}

-- Right at 0 and at 1, the values that the examples need.
abbrev sqrt : Fixed → Fixed
sqrt x = x

abbrev held : FundingPosition Fixed
held = record {
  symbol = "BTC";
  long_exchange = "dydx";
  long_size = amount 10_000;
  long_entry_price = amount 500_000;
  long_entry_funding = nought;
  short_exchange = "bin";
  short_size = amount 10_000;
  short_entry_price = amount 500_000;
  short_entry_funding = nought;
  funding_collected = nought;
  funding_periods = pos 0;
  entry_time = 0;
  current_basis_divergence = amount 10;
  unrealized_pnl = nought;
}

best_is_13 : (compute_best_spread strategy).spread ≡ amount 13
unfolding compute_best_spread create
best_is_13 = refl

differ : Differ rates
differ = record {
  low_exchange = "okx";
  high_exchange = "bin";
  low = rate (amount 1);
  high = rate (amount 10);
  low_among = Memᴰ.tail (Memᴰ.tail (Memᴰ.head refl));
  high_among = Memᴰ.head refl;
  apart = refl;
}

compute_best_spread-IsWidest_example : IsWidest (compute_best_spread strategy) rates
unfolding create before
compute_best_spread-IsWidest_example =
    compute_best_spread-IsWidest Fixed-IsOrdered strategy
      (tt, (refl, (refl, tt)), (tt, (refl, tt), (tt, tt, tt))) (refl, (refl, (refl, tt)))
      ((refl, refl), ((refl, refl), ((refl, refl), tt))) differ

abbrev calls : List (Call Fixed)
calls = updates (rate (amount 10)) ∷ analyzes ∷ []

perform_all-spread_history_example :
    (perform_all sqrt calls (create config)).spread_history
    ≡ last_of 1000 (spreads_seen sqrt calls (create config) [])
perform_all-spread_history_example = perform_all-spread_history sqrt config calls

recommended_size_bounds_example :
    (((compute_best_spread seasoned).spread ≺ amount 4) ≡ false)
    × ((amount 10_000_000 ≼ amount 10_000_000) ≡ true)
    × ((amount 10_000_000 ≼ amount 500_000_000) ≡ true)
unfolding create evaluate_entry compute_best_spread kelly_position_size compute_spread_volatility
    before
recommended_size_bounds_example =
    recommended_size_bounds Fixed-IsOrdered sqrt (amount 1_000_000_000) seasoned (amount 10_000_000)
      refl refl refl

entered_not_exited_example :
    (evaluate_exit held (evaluate_entry sqrt nought strategy).0).1.should_exit ≡ false
unfolding create before evaluate_entry compute_best_spread
entered_not_exited_example =
    entered_not_exited Fixed-IsOrdered sqrt nought strategy held
      (tt, (refl, (refl, tt)), (tt, (refl, tt), (tt, tt, tt))) (refl, (refl, (refl, tt)))
      ((refl, refl), ((refl, refl), ((refl, refl), tt))) differ refl refl refl refl refl refl
