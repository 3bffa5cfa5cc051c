-- ===== src/Mechanics.antt =====
-- include/arbitrage/exchange_mechanics.hpp: how each exchange computes its funding, and funding rates on a
-- common basis of eight hours.
pub mod Profiles
pub mod Examples
use cplusplus_arbitrage.Base.{ℕ, String, Bool, true, false, List, [], ◌∷◌}
use cplusplus_arbitrage.Double.{Double, lit, nought, ◌⊗◌}
use cplusplus_arbitrage.SortedMap.{Map, assign}
use cplusplus_arbitrage.SortedMap.Text.{before}

pub data FundingInterval : Type 0 where
  hourly : FundingInterval
  eight_hour : FundingInterval
  dynamic : FundingInterval
  continuous : FundingInterval

pub data PremiumIndexMethod : Type 0 where
  twap_impact : PremiumIndexMethod
  impact_price : PremiumIndexMethod
  twap_notional : PremiumIndexMethod
  options_informed : PremiumIndexMethod
  decaying_basis : PremiumIndexMethod

pub data LiquidationMechanism : Type 0 where
  unified_margin : LiquidationMechanism
  isolated_cross : LiquidationMechanism
  onchain_engine : LiquidationMechanism
  robust_mark : LiquidationMechanism
  aggressive_adl : LiquidationMechanism

pub data MarketRegime : Type 0 where
  low_vol_normal : MarketRegime
  euphoric_bull : MarketRegime
  deleveraging_crash : MarketRegime
  consolidation : MarketRegime

pub record ExchangeMechanics (D : Type 0) : Type 0 where
  pub venue : String
  pub funding_interval : FundingInterval
  pub funding_period_seconds : ℕ
  pub interest_rate_baseline : D
  pub funding_rate_clamp : D
  pub funding_rate_cap : D
  pub premium_method : PremiumIndexMethod
  pub premium_sample_window_ms : ℕ
  pub liquidation_mechanism : LiquidationMechanism
  pub has_adl : Bool
  pub insurance_fund_coverage : D
  pub maker_fee_bps : D
  pub taker_fee_bps : D
  pub max_leverage : D
  pub initial_margin_rate : D
  pub maintenance_margin_rate : D
  pub dynamic_funding_interval : Bool
  pub zero_interest_baseline : Bool
  pub options_informed_mark : Bool

pub record DispersionDriver (D : Type 0) : Type 0 where
  pub venue_a : String
  pub venue_b : String
  pub driver : String
  pub expected_spread_bps : D
  pub risk_note : String

pub record RegimeCharacteristics (D : Type 0) : Type 0 where
  pub regime : MarketRegime
  pub typical_spread_bps : D
  pub spread_persistence_hours : D
  pub tradability_score : D
  pub primary_risk : String

module _ {D : Type 0} ⦃d : Double D⦄ where
  -- The values that the struct's members have by default.
  unfoldable pub default_mechanics : ExchangeMechanics D
  default_mechanics = record {
    venue = "";
    funding_interval = eight_hour;
    funding_period_seconds = 28_800;
    interest_rate_baseline = lit 3 10_000;
    funding_rate_clamp = lit 5 10_000;
    funding_rate_cap = lit 75 10_000;
    premium_method = twap_impact;
    premium_sample_window_ms = 60_000;
    liquidation_mechanism = unified_margin;
    has_adl = true;
    insurance_fund_coverage = nought;
    maker_fee_bps = lit 2 1;
    taker_fee_bps = lit 5 1;
    max_leverage = lit 100 1;
    initial_margin_rate = lit 1 100;
    maintenance_margin_rate = lit 5 1000;
    dynamic_funding_interval = false;
    zero_interest_baseline = false;
    options_informed_mark = false;
  }

  unfoldable pub get_binance_mechanics : ExchangeMechanics D
  unfolding default_mechanics
  get_binance_mechanics = record default_mechanics {
    venue = "binance";
    funding_interval = eight_hour;
    funding_period_seconds = 28_800;
    interest_rate_baseline = lit 3 10_000;
    funding_rate_clamp = lit 5 10_000;
    funding_rate_cap = lit 75 10_000;
    premium_method = twap_impact;
    liquidation_mechanism = unified_margin;
    has_adl = true;
    dynamic_funding_interval = true;
    maker_fee_bps = lit 2 1;
    taker_fee_bps = lit 4 1;
  }

  unfoldable pub get_okx_mechanics : ExchangeMechanics D
  unfolding default_mechanics
  get_okx_mechanics = record default_mechanics {
    venue = "okx";
    funding_interval = eight_hour;
    funding_period_seconds = 28_800;
    interest_rate_baseline = lit 3 10_000;
    funding_rate_clamp = lit 5 10_000;
    premium_method = impact_price;
    liquidation_mechanism = isolated_cross;
    has_adl = true;
    maker_fee_bps = lit 2 1;
    taker_fee_bps = lit 5 1;
  }

  unfoldable pub get_dydx_mechanics : ExchangeMechanics D
  unfolding default_mechanics
  get_dydx_mechanics = record default_mechanics {
    venue = "dydx";
    funding_interval = hourly;
    funding_period_seconds = 3600;
    interest_rate_baseline = nought;
    funding_rate_clamp = nought;
    premium_method = twap_notional;
    liquidation_mechanism = onchain_engine;
    has_adl = false;
    zero_interest_baseline = true;
    maker_fee_bps = lit 2 1;
    taker_fee_bps = lit 5 1;
  }

  unfoldable pub get_deribit_mechanics : ExchangeMechanics D
  unfolding default_mechanics
  get_deribit_mechanics = record default_mechanics {
    venue = "deribit";
    funding_interval = continuous;
    funding_period_seconds = 0;
    interest_rate_baseline = nought;
    funding_rate_cap = lit 5 1000;
    premium_method = options_informed;
    liquidation_mechanism = robust_mark;
    has_adl = true;
    options_informed_mark = true;
    maker_fee_bps = nought;
    taker_fee_bps = lit 5 1;
  }

  unfoldable pub get_bitmex_mechanics : ExchangeMechanics D
  unfolding default_mechanics
  get_bitmex_mechanics = record default_mechanics {
    venue = "bitmex";
    funding_interval = eight_hour;
    funding_period_seconds = 28_800;
    premium_method = decaying_basis;
    liquidation_mechanism = aggressive_adl;
    has_adl = true;
    maker_fee_bps = d.neg (lit 25 10);
    taker_fee_bps = lit 75 10;
  }

  unfoldable pub get_bybit_mechanics : ExchangeMechanics D
  unfolding default_mechanics
  get_bybit_mechanics = record default_mechanics {
    venue = "bybit";
    funding_interval = eight_hour;
    funding_period_seconds = 28_800;
    interest_rate_baseline = lit 3 10_000;
    funding_rate_clamp = lit 5 10_000;
    premium_method = twap_impact;
    liquidation_mechanism = unified_margin;
    has_adl = true;
    maker_fee_bps = lit 1 1;
    taker_fee_bps = lit 6 1;
  }

  abbrev pub load : List (String × ExchangeMechanics D) → Map String (ExchangeMechanics D)
  load [] = []
  load ((venue, m) ∷ rest) = assign before venue m (load rest)

  -- std::map from a list of pairs.
  unfoldable pub get_all_exchange_mechanics : Map String (ExchangeMechanics D)
  unfolding get_binance_mechanics get_okx_mechanics get_dydx_mechanics get_deribit_mechanics
      get_bitmex_mechanics get_bybit_mechanics
  get_all_exchange_mechanics = load (
      ("binance", get_binance_mechanics)
      ∷ ("okx", get_okx_mechanics)
      ∷ ("dydx", get_dydx_mechanics)
      ∷ ("deribit", get_deribit_mechanics)
      ∷ ("bitmex", get_bitmex_mechanics)
      ∷ ("bybit", get_bybit_mechanics)
      ∷ [])

  unfoldable pub analyze_dispersion_drivers : List (DispersionDriver D)
  analyze_dispersion_drivers =
      record {
        venue_a = "binance";
        venue_b = "okx";
        driver = "Dynamic 1h interval during stress desynchronizes from 8h venues";
        expected_spread_bps = lit 20 1;
        risk_note = "Binance can switch to 1h funding without warning";
      }
      ∷ record {
        venue_a = "dydx";
        venue_b = "binance";
        driver = "dYdX 0% interest baseline vs CEX 0.03% daily creates permanent carry bias";
        expected_spread_bps = lit 10 1;
        risk_note = "dYdX rates structurally drift lower than CEXs";
      }
      ∷ record {
        venue_a = "deribit";
        venue_b = "binance";
        driver = "Options-informed mark reflects forward curve, not just spot-perp basis";
        expected_spread_bps = lit 15 1;
        risk_note = "Deribit behaves differently during spot-led vs derivatives-led moves";
      }
      ∷ record {
        venue_a = "binance";
        venue_b = "dydx";
        driver = "CEX dominates price discovery, DEX follows with lag";
        expected_spread_bps = lit 25 1;
        risk_note = "Persistent spread at CEX-DEX boundary during volatility";
      }
      ∷ []

  unfoldable pub normalize_to_8h : D → ExchangeMechanics D → D
  normalize_to_8h rate mechanics = elim mechanics.funding_interval [
    | hourly ↦ rate ⊗ lit 8 1
    | continuous ↦ rate ⊗ lit 28_800 1
    | dynamic ↦ rate
    | eight_hour ↦ rate
  ]

  unfoldable pub annualize_funding : D → D
  annualize_funding rate_8h = rate_8h ⊗ lit 3 1 ⊗ lit 365 1

  unfoldable pub get_regime_characteristics : MarketRegime → RegimeCharacteristics D
  get_regime_characteristics low_vol_normal = record {
    regime = low_vol_normal;
    typical_spread_bps = lit 20 1;
    spread_persistence_hours = lit 24 1;
    tradability_score = lit 9 10;
    primary_risk = "Transaction costs may consume edge";
  }
  get_regime_characteristics euphoric_bull = record {
    regime = euphoric_bull;
    typical_spread_bps = lit 50 1;
    spread_persistence_hours = lit 72 1;
    tradability_score = lit 5 10;
    primary_risk = "Long squeeze risk, capital erosion on shorts";
  }
  get_regime_characteristics deleveraging_crash = record {
    regime = deleveraging_crash;
    typical_spread_bps = lit 100 1;
    spread_persistence_hours = lit 4 1;
    tradability_score = lit 1 10;
    primary_risk = "90%+ liquidity loss, frozen UIs, ADL";
  }
  get_regime_characteristics consolidation = record {
    regime = consolidation;
    typical_spread_bps = lit 5 1;
    spread_persistence_hours = lit 48 1;
    tradability_score = lit 3 10;
    primary_risk = "Spread may not cover fees";
  }
