-- ===== src/Funding/Examples.antt =====
-- The funding settlement engine's theorems at concrete engines. Amounts are ten-thousandths.
use mathlib.Core.List.{Memᴰ}
use cplusplus_arbitrage.Base.{◌≡◌, refl, ℕ, true, some, [], ◌∷◌}
use cplusplus_arbitrage.Base.Int
use cplusplus_arbitrage.Base.Int.{pos}
use cplusplus_arbitrage.Double.{nought}
use cplusplus_arbitrage.Double.Fixed.{Fixed, fixed_double}
use cplusplus_arbitrage.SortedMap.{find}
use cplusplus_arbitrage.SortedMap.Text.{before}
use cplusplus_arbitrage.Types.{buy}
use cplusplus_arbitrage.Funding.{
  DemoFillConfig, FundingRate, FundingSettlementEngine, Position, create, update_funding_rate,
  settle_funding, make_key, parse_key, check_funding_due, get_funding_rate, settle_all_funding,
}
use cplusplus_arbitrage.Funding.Due.{parse_key-make_key, next_period_not_due}
use cplusplus_arbitrage.Funding.Totals.{
  updates, settles_all, simulates, perform_all, IsCounted, calls-IsCounted,
}
use cplusplus_arbitrage.Funding.Fills.{FillDraw, FillRequest}

abbrev amount : ℕ → Fixed
amount n = some (pos n)

abbrev config : DemoFillConfig Fixed
config = record {
  base_fill_probability = amount 8500;
  spread_penalty_per_bps = amount 100;
  max_fill_probability = amount 9800;
  min_fill_probability = amount 4000;
  slippage_mean_bps = amount 20_000;
  slippage_stddev_bps = amount 30_000;
  slippage_skew = amount 3000;
  latency_mean_ms = pos 150;
  latency_stddev_ms = pos 50;
  maker_fee_bps = amount 20_000;
  taker_fee_bps = amount 50_000;
}

-- Funding every 100 seconds; the first rate of 1% was applied at 100.
abbrev first : FundingRate Fixed
first = record {
  venue = "bin";
  instrument = "BTC";
  rate = amount 100;
  predicted_rate = amount 100;
  current_funding_time = 100;
  next_funding_time = 200;
  mark_price = amount 500_000;
  index_price = amount 500_000;
}

abbrev second : FundingRate Fixed
second = record first { current_funding_time = 200; next_funding_time = 300 }

abbrev engine : FundingSettlementEngine Fixed
engine = record (create true "s" config) { funding_rates = ("bin:BTC", first) ∷ [] }

abbrev short : Position Fixed
short = record {
  position_id = "p";
  session_id = "s";
  venue = "bin";
  instrument = "BTC";
  qty = some (Int.negsuc 19_999);
  avg_price = amount 500_000;
  mark_price = amount 500_000;
  unrealized_pnl = nought;
  margin_used = nought;
  updated_at = 0;
}

abbrev quote : FillRequest Fixed
quote = record {
  venue = "bin";
  instrument = "BTC";
  side = buy;
  qty = amount 10_000;
  limit_price = amount 600_000;
  current_bid = amount 499_000;
  current_ask = amount 501_000;
  bid_qty = amount 100_000;
  ask_qty = amount 100_000;
}

abbrev draw : FillDraw Fixed
draw = record { roll = amount 1000; slippage = amount 10_000; latency = amount 1_200_000 }

-- A short position of two at 50 receives 1% of 100.
short_receives : (settle_all_funding (short ∷ []) 200_000_000 engine).1 ≡ amount 10_000
unfolding settle_all_funding create find before make_key
short_receives = refl

parse_key-make_key_example : parse_key (make_key "bin" "BTC") ≡ some ("bin", "BTC")
parse_key-make_key_example = parse_key-make_key "bin" "BTC" (refl, (refl, (refl, tt)))

next_period_not_due_example : ¬ Memᴰ (make_key second.venue second.instrument) (
    check_funding_due 999_000_000 (
      update_funding_rate second
        (settle_funding second.venue second.instrument short.qty
          (amount 500_000)
          200_000_000
          engine).0))
unfolding get_funding_rate find before check_funding_due create
next_period_not_due_example =
    next_period_not_due short.qty (amount 500_000) 200_000_000 999_000_000 first second engine
      (tt, tt, tt) refl (Memᴰ.head refl) refl

calls-IsCounted_example : IsCounted (
    perform_all
      ((1, updates first)
        ∷ (200_000_000, settles_all (short ∷ []))
        ∷ (200_000_001, simulates draw quote)
        ∷ [])
      (create true "s" config))
calls-IsCounted_example = calls-IsCounted true "s" config (
    (1, updates first)
    ∷ (200_000_000, settles_all (short ∷ []))
    ∷ (200_000_001, simulates draw quote)
    ∷ [])
