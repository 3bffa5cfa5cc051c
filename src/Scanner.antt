-- ===== src/Scanner.antt =====
-- include/arbitrage/multi_exchange_scanner.hpp and src/arbitrage/multi_exchange_scanner.cpp. Each method is
-- one step, as under its lock, and `now` is the clock in microseconds during it. Counters are unbounded.
-- std::sort is a sort that keeps the order of equal spreads; the library's may order those otherwise.
mod Data
pub mod Evaluate
pub mod Scan
pub mod Told
pub mod Pairs
pub mod Complete
pub mod Found
pub mod Examples
pub use Data.*
use Prim.Native.Nat.{◌^◌}
use cplusplus_arbitrage.Base.{
  ℕ, ◌+◌, ◌-◌, ◌%◌, String, Bool, true, false, ◌&&◌, ◌||◌, not, Option, none, some, List, [], ◌∷◌,
  ◌++◌, if◌then◌else◌, ltb,
}
use cplusplus_arbitrage.Base.Int.{ℤ, pos_part}
use cplusplus_arbitrage.Double.{Double, lit, nought, ◌⊕◌, ◌⊖◌, ◌⊘◌, ◌⊗◌}
use cplusplus_arbitrage.SortedMap.{Map, assign, find}
use cplusplus_arbitrage.SortedMap.Text.{before}

-- `now - timestamp_us` of two uint64_t.
unfoldable pub age_us : ℕ → ℕ → ℕ
age_us now timestamp_us = (now + 2 ^ 64 - timestamp_us) % 2 ^ 64

module _ {D : Type 0} where
  abbrev pub quotes_at :
      String → Map String (Map String (ExchangeQuote D)) → Map String (ExchangeQuote D)
  quotes_at exchange quotes = elim (find before exchange quotes) [ none ↦ [] | some m ↦ m ]

  -- `quotes_[exchange][symbol] = quote`: an exchange that is missing is made, with no quotes.
  unfoldable pub update_quote : ExchangeQuote D → MultiExchangeScanner D → MultiExchangeScanner D
  update_quote q e =
      let s = e.stats in
      record e {
        quotes =
            assign before q.exchange (assign before q.symbol q (quotes_at q.exchange e.quotes))
              e.quotes;
        stats = record s { quotes_processed = s.quotes_processed + 1 };
      }

  unfoldable pub set_exchange_fees :
      String → (maker_bps taker_bps : D) → MultiExchangeScanner D → MultiExchangeScanner D
  set_exchange_fees exchange maker_bps taker_bps e = record e {
    exchange_fees = assign before exchange (maker_bps, taker_bps) e.exchange_fees;
  }

module _ {D : Type 0} ⦃d : Double D⦄ where
  abbrev pub load_fees : List (String × D × D) → Map String (D × D)
  load_fees [] = []
  load_fees ((exchange, maker, taker) ∷ rest) =
      assign before exchange (maker, taker) (load_fees rest)

  unfoldable pub create : ScannerConfig D → MultiExchangeScanner D
  create config = record {
    config = config;
    stats = record {
      quotes_processed = 0;
      opportunities_detected = 0;
      actionable_opportunities = 0;
      best_spread_seen_bps = nought;
      total_theoretical_profit = nought;
      scan_count = 0;
    };
    quotes = [];
    exchange_fees = load_fees (
        ("binance", lit 10 1, lit 10 1)
        ∷ ("binance_us", lit 10 1, lit 10 1)
        ∷ ("kraken", lit 16 1, lit 26 1)
        ∷ ("coinbase", lit 40 1, lit 60 1)
        ∷ ("okx", lit 8 1, lit 10 1)
        ∷ ("bybit", lit 10 1, lit 10 1)
        ∷ ("kucoin", lit 10 1, lit 10 1)
        ∷ ("gateio", lit 20 1, lit 20 1)
        ∷ ("htx", lit 20 1, lit 20 1)
        ∷ ("mexc", nought, lit 5 1)
        ∷ ("bitget", lit 10 1, lit 10 1)
        ∷ ("bithumb", lit 25 1, lit 25 1)
        ∷ ("upbit", lit 25 1, lit 25 1)
        ∷ []);
    opportunity_log = [];
    triangular_log = [];
  }

  abbrev pub fee_or_default : (D × D → D) → Option (D × D) → D
  fee_or_default part none = lit 20 1
  fee_or_default part (some fees) = part fees

  unfoldable pub get_taker_fee_bps : String → MultiExchangeScanner D → D
  get_taker_fee_bps exchange e =
      fee_or_default (λ fees. fees.1) (find before exchange e.exchange_fees)

  unfoldable pub get_maker_fee_bps : String → MultiExchangeScanner D → D
  get_maker_fee_bps exchange e =
      fee_or_default (λ fees. fees.0) (find before exchange e.exchange_fees)

  unfoldable pub mid_price : ExchangeQuote D → D
  mid_price q = (q.bid_price ⊕ q.ask_price) ⊘ lit 2 1

  unfoldable pub spread : ExchangeQuote D → D
  spread q = q.ask_price ⊖ q.bid_price

  unfoldable pub spread_bps : ExchangeQuote D → D
  unfolding spread mid_price
  spread_bps q = spread q ⊘ mid_price q ⊗ lit 10_000 1

  -- The age limit is a double that the call turns into a uint64_t.
  unfoldable pub is_stale : ℕ → D → ExchangeQuote D → Bool
  unfolding age_us
  is_stale now max_age_us q = ltb (pos_part (d.trunc max_age_us)) (age_us now q.timestamp_us)
