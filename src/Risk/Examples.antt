-- ===== src/Risk/Examples.antt =====
-- The risk manager's theorems at concrete managers. Amounts are ten-thousandths of a dollar.
use cplusplus_arbitrage.Base.{ℕ, ◌≤◌, ◌≡◌, refl, true, false, none, some, List, [], ◌∷◌, arith, ltb}
use cplusplus_arbitrage.Base.Int.{pos}
use cplusplus_arbitrage.Double.{nought, ◌⊕◌, ◌⊗◌}
use cplusplus_arbitrage.Double.Fixed.{Fixed, fixed_double}
use cplusplus_arbitrage.SortedMap.{find}
use cplusplus_arbitrage.SortedMap.Text.{before}
use cplusplus_arbitrage.Types.{Fill, Signal, Side, Timestamp, buy, sell}
use cplusplus_arbitrage.Risk.{
  RiskConfig, RiskManager, check_order, should_halt_trading, can_place_order, exposure_for_market,
  record_fill,
}
use cplusplus_arbitrage.Risk.Switch.{resets, sets_balance, perform_all, kill_switch_latches}
use cplusplus_arbitrage.Risk.Rate.{attempts, recent, rate_limit}
use cplusplus_arbitrage.Risk.Exposure.{
  Exposures, exposure_after, positions_after, record_fill-Exposures,
}

abbrev amount : ℕ → Fixed
amount n = some (pos n)

abbrev pub config : RiskConfig Fixed
config = record {
  max_notional_per_trade = amount 15_000;
  max_daily_loss = amount 50_000;
  max_open_positions = amount 30_000;
  max_exposure_per_market = amount 30_000;
  stop_loss_threshold = amount 1000;
  slippage_threshold_bps = amount 500_000;
  max_orders_per_minute = 2;
}

-- A manager with an exposure of one dollar in one market.
abbrev pub manager : RiskManager Fixed
manager = record {
  config = config;
  starting_balance = amount 500_000;
  current_balance = amount 500_000;
  daily_pnl = nought;
  market_exposure = ("m", amount 10_000) ∷ [];
  open_positions = 1;
  kill_switch = false;
  kill_switch_reason = "";
  recent_slippage = [];
  connectivity_issues = 0;
  last_connectivity_issue = 0;
  order_timestamps = [];
}

abbrev pub signal : Signal Fixed
signal = record {
  strategy_name = "S2";
  market_id = "m";
  token_id = "m_YES";
  side = buy;
  target_price = amount 5000;
  target_size = amount 20_000;
  expected_edge = amount 0;
  confidence = amount 10_000;
  generated_at = 0;
  reason = "";
}

abbrev pub fill : Side → Fill Fixed
fill side = record {
  order_id = "o";
  trade_id = "t";
  market_id = "m";
  token_id = "m_YES";
  side = side;
  price = amount 5000;
  size = amount 20_000;
  notional = amount 10_000;
  fee = amount 100;
  fill_time = 0;
  exchange_time_ms = 0;
}

order_allowed : (check_order signal (amount 10_000) manager).allowed ≡ true
unfolding check_order find before
order_allowed = refl

-- A notional that is NaN passes every test.
nan_allowed : (check_order signal (amount 10_000 ⊕ none) manager).allowed ≡ true
unfolding check_order find before
nan_allowed = refl

kill_switch_latches_example :
    let r' =
      perform_all
        ((5, resets) ∷ (6, sets_balance (amount 1)) ∷ [])
        (record manager { kill_switch = true }) in
    ((check_order signal (amount 1) r').allowed ≡ false) × (should_halt_trading 9 r' ≡ true)
kill_switch_latches_example =
    kill_switch_latches ((5, resets) ∷ (6, sets_balance (amount 1)) ∷ [])
      (record manager { kill_switch = true }) signal (amount 1) 9 refl

abbrev times : List (Timestamp × Timestamp)
times = (10, 11) ∷ (12, 12) ∷ (13, 14) ∷ (70_000_000_000, 70_000_000_001) ∷ []

rate_run : (attempts times (manager, [])).1 ≡ 11 ∷ 12 ∷ 70_000_000_001 ∷ []
unfolding attempts
rate_run = refl

rate_limit_example :
    let (r', log) = attempts times (manager, []) in
    (recent 70_000_000_002 log ≤ 2)
    × ((can_place_order 70_000_000_002 r').1 ≡ ltb (recent 70_000_000_002 log) 2)
rate_limit_example = rate_limit times 70_000_000_002 manager refl (omega arith)

record_fill-Exposures_example :
    Exposures (record_fill (fill sell) manager).market_exposure
    × (find before "m" (record_fill (fill sell) manager).market_exposure
        ≡ some (
            exposure_after sell
              (exposure_for_market "m" manager)
              ((fill sell).size ⊗ (fill sell).price)))
    × (record_fill (fill sell) manager ≡ record manager {
      market_exposure = (record_fill (fill sell) manager).market_exposure;
      open_positions =
          positions_after sell
            (exposure_for_market "m" manager)
            ((fill sell).size ⊗ (fill sell).price)
            manager.open_positions;
    })
unfolding before
record_fill-Exposures_example = record_fill-Exposures "m" (fill sell) manager (tt, tt, tt)
