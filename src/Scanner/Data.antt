-- ===== src/Scanner/Data.antt =====
-- The types of include/arbitrage/multi_exchange_scanner.hpp. The texts of reasons are not kept.
use cplusplus_arbitrage.Base.{ℕ, String, Bool, List}
use cplusplus_arbitrage.SortedMap.{Map}

pub record ExchangeQuote (D : Type 0) : Type 0 where
  pub exchange : String
  pub symbol : String
  pub bid_price : D
  pub bid_size : D
  pub ask_price : D
  pub ask_size : D
  pub taker_fee_bps : D
  pub maker_fee_bps : D
  pub timestamp_us : ℕ
  pub is_valid : Bool

pub data Refusal : Type 0 where
  low_spread : Refusal
  low_profit : Refusal
  small_size : Refusal
  stale_quotes : Refusal

-- `reasons` are those for which the opportunity is not actionable, in the order of the tests.
pub record CrossExchangeOpportunity (D : Type 0) : Type 0 where
  pub buy_exchange : String
  pub sell_exchange : String
  pub symbol : String
  pub buy_price : D
  pub sell_price : D
  pub gross_spread_bps : D
  pub net_spread_bps : D
  pub buy_size_available : D
  pub sell_size_available : D
  pub max_executable_size : D
  pub expected_profit_usd : D
  pub profit_per_unit : D
  pub detected_at_us : ℕ
  pub buy_quote_age_us : ℕ
  pub sell_quote_age_us : ℕ
  pub confidence : D
  pub is_actionable : Bool
  pub reasons : List Refusal

pub record TriangularOpportunity (D : Type 0) : Type 0 where
  pub exchange : String
  pub pair_1 : String
  pub pair_2 : String
  pub pair_3 : String
  pub rate_1 : D
  pub rate_2 : D
  pub rate_3 : D
  pub cycle_return : D
  pub gross_profit_bps : D
  pub net_profit_bps : D
  pub max_size : D
  pub expected_profit_usd : D
  pub detected_at_us : ℕ
  pub is_actionable : Bool

pub record ScannerConfig (D : Type 0) : Type 0 where
  pub min_net_spread_bps : D
  pub min_profit_usd : D
  pub max_quote_age_us : D
  pub min_size_usd : D
  pub max_size_usd : D
  pub require_both_fresh : Bool

pub record Stats (D : Type 0) : Type 0 where
  pub quotes_processed : ℕ
  pub opportunities_detected : ℕ
  pub actionable_opportunities : ℕ
  pub best_spread_seen_bps : D
  pub total_theoretical_profit : D
  pub scan_count : ℕ

-- The logs are what the callbacks have been given, the latest first.
pub record MultiExchangeScanner (D : Type 0) : Type 0 where
  pub config : ScannerConfig D
  pub stats : Stats D
  pub quotes : Map String (Map String (ExchangeQuote D))
  pub exchange_fees : Map String (D × D)
  pub opportunity_log : List (CrossExchangeOpportunity D)
  pub triangular_log : List (TriangularOpportunity D)
