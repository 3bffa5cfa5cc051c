-- ===== src/Strategy/Examples.antt =====
-- The strategy's theorems on the order book's example market. Amounts are ten-thousandths.
use cplusplus_arbitrage.Base.{
  ◌≤◌, ◌≡◌, refl, ℕ, String, true, false, [], ◌∷◌, map, length, if◌then◌else◌, All, some,
}
use cplusplus_arbitrage.Base.Int.{pos}
use cplusplus_arbitrage.Double.Fixed.{Fixed, fixed_double}
use cplusplus_arbitrage.Types.{PriceLevel, Signal, buy}
use cplusplus_arbitrage.OrderBook.{best_ask, spread}
use cplusplus_arbitrage.OrderBook.Binary.{has_liquidity}
use cplusplus_arbitrage.OrderBook.Examples.{market}
use cplusplus_arbitrage.Strategy.StaleOdds
use cplusplus_arbitrage.Strategy.StaleOdds.{
  BtcPrice, PricePoint, StaleOddsStrategy, update_btc_reference,
}
use cplusplus_arbitrage.Strategy.Lag.{IsCalledFor, signals-IsCalledFor, counted}
use cplusplus_arbitrage.Strategy.{StrategyConfig, StrategyBase}
use cplusplus_arbitrage.Strategy.Underpricing.{evaluate}
use cplusplus_arbitrage.Strategy.Edge.{leg_of}

abbrev amount : ℕ → Fixed
amount n = some (pos n)

-- At least half a cent, and spreads of at most five cents.
abbrev config : StrategyConfig Fixed
config = record {
  min_edge_cents = amount 5000;
  max_spread_to_trade = amount 500;
  lag_move_threshold_bps = amount 250_000;
  staleness_window_ms = 500;
  min_confidence = amount 6000;
  target_fill_rate = amount 9500;
  enable_s1 = true;
  enable_s2 = true;
  enable_s3 = false;
}

abbrev strategy : StrategyBase Fixed
strategy = record {
  name = "S2_Underpricing";
  config = config;
  enabled = true;
  signals_generated = 0;
  signals_acted_on = 0;
}

abbrev format : Fixed → Fixed → Fixed → Fixed → Fixed → String
format y n total fees edge = "edge"

abbrev ask : PriceLevel Fixed
ask = record { price = amount 4800; size = amount 70 }

-- Both tokens at 0.48 leave 0.88 cents after the fees.
signals_run :
    map leg_of (evaluate format market 9 strategy).1
    ≡ (market.market_id, "m_YES", buy, amount 4800, amount 70)
      ∷ (market.market_id, "m_NO", buy, amount 4800, amount 70)
      ∷ []
unfolding evaluate spread
signals_run = refl

abbrev price : ℕ → BtcPrice Fixed
price n = record {
  bid = amount n;
  ask = amount n;
  mid = amount n;
  last = amount n;
  timestamp = n;
  exchange_time_ms = 0;
}

abbrev point : ℕ → PricePoint Fixed
point n = record { btc_price = amount n; time = n }

-- Four prices seen; with a fifth the strategy may signal.
abbrev lagging : StaleOddsStrategy Fixed
lagging = record {
  base = record strategy { name = "S1_StaleOdds" };
  reference_btc = price 1000;
  reference_time = 1000;
  btc_history = point 1000 ∷ point 1001 ∷ point 1002 ∷ point 1003 ∷ [];
}

abbrev up : Fixed → Fixed → Fixed → String
up move expected implied = "up"

abbrev down : Fixed → Fixed → String
down move implied = "down"

abbrev blank : Signal Fixed
blank = record {
  strategy_name = "";
  market_id = "";
  token_id = "";
  side = buy;
  target_price = amount 0;
  target_size = amount 0;
  expected_edge = amount 0;
  confidence = amount 0;
  generated_at = 0;
  reason = "";
}

signals-IsCalledFor_example :
    let (s', signals) =
      StaleOdds.evaluate up down blank market (price 1100) 9 900_000_000 lagging in
    let seen = update_btc_reference (price 1100) lagging in
    (length signals ≤ (if lagging.base.enabled then 1 else 0))
    × (s' ≡ (if lagging.base.enabled then counted (length signals) seen else lagging))
    × All (IsCalledFor market 900_000_000 seen) signals
signals-IsCalledFor_example =
    signals-IsCalledFor up down blank market (price 1100) 9 900_000_000 lagging

-- A rise by a tenth in a market that has not moved for 900 milliseconds: YES is worth more than it costs.
lag_run :
    map leg_of (StaleOdds.evaluate up down blank market (price 1100) 9 900_000_000 lagging).1
    ≡ (market.market_id, "m_YES", buy, amount 4800, amount 70) ∷ []
unfolding StaleOdds.evaluate best_ask has_liquidity
lag_run = refl
