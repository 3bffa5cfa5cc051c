-- ===== src/DeltaNeutral/Examples.antt =====
-- The enforcer's theorems at a concrete enforcer. Amounts are ten-thousandths.
use mathlib.Core.List.{Memᴰ}
use cplusplus_arbitrage.Base.{
  ℕ, String, ◌≡◌, refl, ◌↔◌, true, false, not, ◌||◌, some, List, [], ◌∷◌, is_some,
}
use cplusplus_arbitrage.Base.Int
use cplusplus_arbitrage.Base.Int.{pos}
use cplusplus_arbitrage.Double.{nought, ◌≼◌, ◌≺◌, ◌⊖◌, ◌⊘◌}
use cplusplus_arbitrage.Double.Fixed.{
  Fixed, fixed_double, Fixed-IsOrdered, Fixed-HasHundredths, Fixed-HasMagnitude,
}
use cplusplus_arbitrage.SortedMap.{find}
use cplusplus_arbitrage.SortedMap.Text.{before}
use cplusplus_arbitrage.Types.{sell}
use cplusplus_arbitrage.Funding.{Position}
use cplusplus_arbitrage.DeltaNeutral.{
  DeltaNeutralConfig, DeltaNeutralEnforcer, HedgeOrder, delta_hedge, create, compute_delta,
  check_hedge_needed,
}
use cplusplus_arbitrage.DeltaNeutral.Checks.{
  check_exchange_halt, check_adl_risk, check_stablecoin_depeg, check_drawdown_limit, depeg_of,
  halt_signal,
}
use cplusplus_arbitrage.DeltaNeutral.Kill.{check_kill_conditions, generate_kill_orders}
use cplusplus_arbitrage.DeltaNeutral.History.{
  Call, updates_position, updates_mark, beats, updates_equity, checks_kill, perform_all,
}
use cplusplus_arbitrage.DeltaNeutral.Feeds.{view_of, replay, perform_all-refines}
use cplusplus_arbitrage.DeltaNeutral.Priority.{
  first_signal, by_priority, check_kill_conditions-priority,
}
use cplusplus_arbitrage.DeltaNeutral.Peaks.{IsPeak, drawdown_of_IsPeak}
use cplusplus_arbitrage.DeltaNeutral.Close.{Flattens, generate_kill_orders-Flattens}
use cplusplus_arbitrage.DeltaNeutral.Triggers.{
  Reaches, Silent, adl_and_depeg_lem, check_exchange_halt_lem, check_kill_conditions_no_rates,
}
use cplusplus_arbitrage.DeltaNeutral.Hedge.{Reduces, check_hedge_needed_lem}

abbrev amount : ℕ → Fixed
amount n = some (pos n)

abbrev config : DeltaNeutralConfig Fixed
config = record {
  max_delta_notional = amount 5_000_000;
  delta_hedge_threshold = amount 2_000_000;
  basis_divergence_limit = amount 50;
  basis_divergence_warning = amount 30;
  min_funding_spread = amount 10;
  max_session_drawdown = amount 300;
  funding_flip_buffer = amount 2;
  adl_queue_warning = amount 7000;
  adl_queue_critical = amount 9000;
  insurance_fund_warning = amount 3000;
  stablecoin_depeg_warning = amount 50;
  stablecoin_depeg_critical = amount 200;
  leverage_ratio_warning = amount 7000;
  oi_skew_critical = amount 8000;
  liquidation_volume_spike = amount 30_000;
  exchange_timeout_ms = 30_000;
  heartbeat_interval_ms = 5000;
  api_latency_warning_ms = 2000;
  hedge_aggressiveness = amount 12_000;
  max_hedge_retries = pos 3;
  enable_dynamic_sizing = true;
  vol_scaling_factor = amount 5000;
}

abbrev long : Position Fixed
long = record {
  position_id = "p";
  session_id = "s";
  venue = "bin";
  instrument = "BTC";
  qty = amount 100_000;
  avg_price = amount 500_000;
  mark_price = amount 500_000;
  unrealized_pnl = nought;
  margin_used = nought;
  updated_at = 0;
}

abbrev short : Position Fixed
short = record long { venue = "okx"; qty = some (Int.negsuc 19_999) }

abbrev opened : DeltaNeutralEnforcer Fixed
opened = create true "s" config

-- Long 10 at one venue and short 2 at another, both at 50.
abbrev enforcer : DeltaNeutralEnforcer Fixed
enforcer = record opened {
  positions = ("bin:BTC", long) ∷ ("okx:BTC", short) ∷ [];
  last_heartbeat = ("bin", 5_000_000) ∷ ("okx", 50_000_000) ∷ [];
  adl_queue_positions = ("bin", amount 9500) ∷ [];
  stablecoin_prices = ("USDC", amount 9990) ∷ ("USDe", amount 6500) ∷ [];
}

net_delta_is_400 : (compute_delta 0 enforcer).net_delta ≡ amount 4_000_000
unfolding compute_delta find before create
net_delta_is_400 = refl

-- The net delta of 400 is hedged 1.2 times, at the price of 1 where no mark price is known.
abbrev hedge : HedgeOrder Fixed
hedge = record {
  venue = "bin";
  instrument = "BTC";
  side = sell;
  qty = amount 4_800_000;
  urgency = amount 8000;
  reason = delta_hedge (amount 4_000_000);
}

hedge_is_ordered : (check_hedge_needed 0 enforcer).1 ≡ hedge ∷ []
unfolding check_hedge_needed find before create
hedge_is_ordered = refl

abbrev calls : List (ℕ × Call Fixed)
calls =
    (1, updates_position long)
    ∷ (2, updates_mark "bin" "BTC" (amount 510_000) (amount 509_000))
    ∷ (3, beats "bin")
    ∷ (4, updates_equity (amount 9_500_000))
    ∷ (5, checks_kill)
    ∷ []

abbrev show : Fixed → String
show _ = "x"

check_kill_conditions-priority_example :
    (check_kill_conditions 90_000_000 enforcer).1 ≡ first_signal (by_priority 90_000_000 enforcer)
check_kill_conditions-priority_example =
    check_kill_conditions-priority Fixed-HasHundredths 90_000_000 enforcer

perform_all-refines_example :
    view_of (perform_all show calls opened) ≡ replay calls (view_of opened)
perform_all-refines_example = perform_all-refines show calls opened

drawdown_of_IsPeak_example :
    (peak : Fixed) × IsPeak peak (amount 9_500_000 ∷ amount 10_000_000 ∷ [])
    × (is_some
          (check_drawdown_limit
            (perform_all show ((0, updates_equity (amount 10_000_000)) ∷ calls) opened)).1
        ≡ not (
            (peak ≼ nought)
            || (amount 9_500_000 ≼ nought)
            || (((peak ⊖ amount 9_500_000) ⊘ peak) ≺ amount 300)))
drawdown_of_IsPeak_example =
    drawdown_of_IsPeak Fixed-IsOrdered Fixed-HasMagnitude show true "s" config 0 (amount 10_000_000)
      calls refl (refl, (refl, tt))

generate_kill_orders-Flattens_example :
    Flattens (("bin:BTC", long) ∷ ("okx:BTC", short) ∷ []) (generate_kill_orders enforcer)
generate_kill_orders-Flattens_example =
    generate_kill_orders-Flattens Fixed-IsOrdered Fixed-HasMagnitude enforcer
      ((refl, refl), ((refl, refl), tt))

adl_and_depeg_lem_example :
    ((is_some (check_adl_risk 0 enforcer).1 ≡ true)
      ↔ Reaches (λ x. x) (amount 9000) (("bin", amount 9500) ∷ []))
    × ((is_some (check_stablecoin_depeg enforcer).1 ≡ true)
        ↔ Reaches depeg_of (amount 200) (("USDC", amount 9990) ∷ ("USDe", amount 6500) ∷ []))
unfolding create
adl_and_depeg_lem_example = adl_and_depeg_lem Fixed-IsOrdered 0 enforcer refl refl

check_exchange_halt_lem_example :
    (venues : List String) × ((check_exchange_halt 60_000_000 enforcer).1
      ≡ halt_signal venues (compute_delta 60_000_000 enforcer).net_delta)
    × ((venue : String)
        → Memᴰ venue venues
          ↔ Silent venue 60_000_000 30_000 (("bin", 5_000_000) ∷ ("okx", 50_000_000) ∷ []))
unfolding create
check_exchange_halt_lem_example = check_exchange_halt_lem 60_000_000 enforcer

check_kill_conditions_no_rates_example : is_some (check_kill_conditions 0 opened).1 ≡ true
unfolding create
check_kill_conditions_no_rates_example =
    check_kill_conditions_no_rates Fixed-IsOrdered Fixed-HasHundredths 0 opened refl refl refl

check_hedge_needed_lem_example :
    ((check_hedge_needed 0 enforcer).1 ≡ hedge ∷ [])
    × (((compute_delta 0 enforcer).net_delta ≼ amount 2_000_000) ≡ false)
    × Reduces "bin" sell (("bin:BTC", long) ∷ ("okx:BTC", short) ∷ [])
unfolding check_hedge_needed find before create
check_hedge_needed_lem_example =
    check_hedge_needed_lem Fixed-IsOrdered 0 enforcer hedge (Memᴰ.head refl)
