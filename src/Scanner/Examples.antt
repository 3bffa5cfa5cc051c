-- ===== src/Scanner/Examples.antt =====
-- A scan of two exchanges. Amounts are ten-thousandths.
use cplusplus_arbitrage.Base.{ℕ, ◌≡◌, refl, true, some}
use cplusplus_arbitrage.Base.Int.{pos}
use cplusplus_arbitrage.Double.Fixed.{Fixed, fixed_double}
use cplusplus_arbitrage.SortedMap.{assign, find}
use cplusplus_arbitrage.SortedMap.Text.{before}
use cplusplus_arbitrage.Scanner.{
  ExchangeQuote, MultiExchangeScanner, ScannerConfig, create, update_quote, get_taker_fee_bps,
}
use cplusplus_arbitrage.Scanner.Evaluate.{evaluate_pair}

abbrev amount : ℕ → Fixed
amount n = some (pos n)

abbrev config : ScannerConfig Fixed
config = record {
  min_net_spread_bps = amount 50_000;
  min_profit_usd = amount 10_000;
  max_quote_age_us = amount 5_000_000_000;
  min_size_usd = amount 1_000_000;
  max_size_usd = amount 100_000_000;
  require_both_fresh = true;
}

abbrev quote : ExchangeQuote Fixed
quote = record {
  exchange = "binance";
  symbol = "BTC/USDT";
  bid_price = amount 999_000;
  bid_size = amount 1_000_000;
  ask_price = amount 1_000_000;
  ask_size = amount 1_000_000;
  taker_fee_bps = amount 100_000;
  maker_fee_bps = amount 100_000;
  timestamp_us = 1_000_000;
  is_valid = true;
}

abbrev higher : ExchangeQuote Fixed
higher = record quote {
  exchange = "okx";
  bid_price = amount 1_010_000;
  ask_price = amount 1_011_000;
}

abbrev scanner : MultiExchangeScanner Fixed
scanner = update_quote higher (update_quote quote (create config))

-- Bought at 100 and sold at 101, less 10 basis points at each, 80 are left.
pair_pays : (evaluate_pair quote higher 1_100_000 scanner).net_spread_bps ≡ amount 800_000
unfolding evaluate_pair get_taker_fee_bps create update_quote assign find before
pair_pays = refl
