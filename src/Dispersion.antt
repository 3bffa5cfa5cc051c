-- ===== src/Dispersion.antt =====
-- include/arbitrage/funding_dispersion.hpp: the funding rates of the exchanges and the best spread between
-- two of them. Analyze has `analyze`, Signals the signals to enter and to exit.
mod Data
pub mod Analyze
pub mod Signals
pub mod Spread
pub mod History
pub mod Decisions
pub mod Examples
pub use Data.*
use text.Mathlib.Text.{◌==◌}
use cplusplus_arbitrage.Base.{
  ℕ, ◌+◌, ◌*◌, String, Bool, true, false, ◌&&◌, ◌||◌, not, Option, none, some, List, [], ◌∷◌, ◌++◌,
  if◌then◌else◌, ltb, leb, length,
}
use cplusplus_arbitrage.Double.{
  Double, lit, nought, ◌⊕◌, ◌⊖◌, ◌⊗◌, ◌⊘◌, ◌≼◌, ◌≻◌, ◌≺◌, ◌≽◌, max_of, min_of,
}
use cplusplus_arbitrage.SortedMap.{Map, assign, find}
use cplusplus_arbitrage.SortedMap.Text.{before}

module _ {D : Type 0} where
  unfoldable pub update_funding_rate :
      FundingRateSnapshot D → FundingDispersionStrategy D → FundingDispersionStrategy D
  update_funding_rate snapshot e =
      let s = e.stats in
      record e {
        current_rates = assign before snapshot.exchange snapshot e.current_rates;
        stats = record s { funding_updates = s.funding_updates + 1 };
      }

module _ {D : Type 0} ⦃d : Double D⦄ where
  unfoldable pub create : FundingDispersionConfig D → FundingDispersionStrategy D
  create config = record {
    config = config;
    stats = record {
      funding_updates = 0;
      opportunities_detected = 0;
      entries_signaled = 0;
      exits_signaled = 0;
      best_spread_seen = nought;
      cumulative_funding_captured = nought;
    };
    current_rates = [];
    spread_history = [];
    signal_log = [];
    risk_log = [];
  }

  unfoldable pub annualized : D → D
  annualized rate = rate ⊗ lit 3 1 ⊗ lit 365 1 ⊗ lit 100 1

  unfoldable pub total_pnl : FundingPosition D → D
  total_pnl p = p.funding_collected ⊕ p.unrealized_pnl

  abbrev pub visit_rate : String → D → Extremes D → Extremes D
  visit_rate exchange rate x = record {
    max_rate = if rate ≻ x.max_rate then rate else x.max_rate;
    max_ex = if rate ≻ x.max_rate then exchange else x.max_ex;
    min_rate = if rate ≺ x.min_rate then rate else x.min_rate;
    min_ex = if rate ≺ x.min_rate then exchange else x.min_ex;
  }

  unfoldable pub extremes_loop : Map String (FundingRateSnapshot D) → Extremes D → Extremes D
  extremes_loop [] x = x
  extremes_loop ((exchange, snapshot) ∷ m) x =
      extremes_loop m (visit_rate exchange snapshot.funding_rate x)

  abbrev pub no_spread : FundingSpread D
  no_spread = record {
    long_exchange = "";
    short_exchange = "";
    symbol = "";
    long_funding = none;
    short_funding = none;
    spread = nought;
  }

  abbrev pub symbol_of : Option (FundingRateSnapshot D) → String
  symbol_of none = ""
  symbol_of (some snapshot) = snapshot.symbol

  abbrev pub spread_between : Map String (FundingRateSnapshot D) → Extremes D → FundingSpread D
  spread_between rates x = record {
    long_exchange = x.min_ex;
    short_exchange = x.max_ex;
    symbol = symbol_of (find before x.max_ex rates);
    long_funding = some x.min_rate;
    short_funding = some x.max_rate;
    spread = x.max_rate ⊖ x.min_rate;
  }

  abbrev pub start : Extremes D
  start = record {
    max_rate = d.neg (lit 1_000_000_000 1);
    max_ex = "";
    min_rate = lit 1_000_000_000 1;
    min_ex = "";
  }

  unfoldable pub compute_best_spread : FundingDispersionStrategy D → FundingSpread D
  unfolding extremes_loop
  compute_best_spread e =
      let x = extremes_loop e.current_rates start in
      if ltb (length e.current_rates) 2
      then no_spread
      else if (x.max_ex == "") || (x.min_ex == "") || (x.max_ex == x.min_ex)
      then no_spread
      else spread_between e.current_rates x
