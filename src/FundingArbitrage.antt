-- ===== src/FundingArbitrage.antt =====
-- include/arbitrage/funding_arbitrage.hpp: funding collected by a perpetual against its spot. `blank` is
-- what an Evaluation's memory holds where the code leaves it uninitialised.
pub mod Decisions
pub mod Examples
use cplusplus_arbitrage.Base.{
  ℕ, String, Bool, true, false, ◌&&◌, ◌||◌, not, Option, none, some, if◌then◌else◌, ◌==◌,
}
use cplusplus_arbitrage.Double.{
  Double, lit, nought, ◌⊕◌, ◌⊖◌, ◌⊗◌, ◌⊘◌, ◌≼◌, ◌≻◌, ◌≺◌, max_of, min_of,
}

pub record FundingRateData (D : Type 0) : Type 0 where
  pub exchange : String
  pub symbol : String
  pub spot_price : D
  pub perp_price : D
  pub mark_price : D
  pub funding_rate : D
  pub predicted_rate : D
  pub next_funding_time : ℕ

pub record FundingArbPosition (D : Type 0) : Type 0 where
  pub exchange : String
  pub symbol : String
  pub spot_size : D
  pub perp_size : D
  pub entry_spot_price : D
  pub entry_perp_price : D
  pub entry_funding_rate : D
  pub total_funding_collected : D
  pub spot_pnl : D
  pub perp_pnl : D
  pub fees_paid : D
  pub funding_periods_held : ℕ
  pub entry_time : ℕ
  pub current_spot_price : D
  pub current_perp_price : D

pub record Config (D : Type 0) : Type 0 where
  pub min_annualized_return : D
  pub max_basis_bps : D
  pub min_position_usd : D
  pub max_position_usd : D
  pub stop_loss_bps : D
  pub allow_leverage : Bool
  pub max_leverage : D

-- A reason that is formatted from numbers is kept as those numbers.
pub data Reason (D : Type 0) : Type 0 where
  return_below : (annual_return threshold : D) → Reason D
  basis_above : (basis_bps limit : D) → Reason D
  enters : (direction : String) (annual_return basis_bps size : D) → Reason D

pub record Evaluation (D : Type 0) : Type 0 where
  pub should_enter : Bool
  pub direction : String
  pub expected_return_8h : D
  pub expected_return_annual : D
  pub recommended_size_usd : D
  pub risk_score : D
  pub reason : Reason D

module _ {D : Type 0} ⦃d : Double D⦄ where
  unfoldable pub annualized_rate : FundingRateData D → D
  annualized_rate x = x.funding_rate ⊗ lit 3 1 ⊗ lit 365 1 ⊗ lit 100 1

  unfoldable pub basis : FundingRateData D → D
  basis x = (x.perp_price ⊖ x.spot_price) ⊘ x.spot_price

  unfoldable pub basis_bps : FundingRateData D → D
  unfolding basis
  basis_bps x = basis x ⊗ lit 10_000 1

  unfoldable pub net_pnl : FundingArbPosition D → D
  net_pnl p = p.total_funding_collected ⊕ p.spot_pnl ⊕ p.perp_pnl ⊖ p.fees_paid

  unfoldable pub annualized_return : FundingArbPosition D → D
  unfolding net_pnl
  annualized_return p =
      let per_period_return = net_pnl p ⊘ (p.spot_size ⊗ p.entry_spot_price) in
      if p.funding_periods_held == 0
      then nought
      else per_period_return ⊗ (lit 1095 1 ⊘ lit p.funding_periods_held 1) ⊗ lit 100 1

  unfoldable pub basis_risk : FundingArbPosition D → D
  basis_risk p =
      let entry_basis = (p.entry_perp_price ⊖ p.entry_spot_price) ⊘ p.entry_spot_price in
      let current_basis = (p.current_perp_price ⊖ p.current_spot_price) ⊘ p.current_spot_price in
      (current_basis ⊖ entry_basis) ⊗ lit 10_000 1

  -- The size for a reward and a risk, between the minimum and the maximum.
  abbrev pub size_for : (reward risk : D) → Config D → D
  size_for reward risk c =
      let kelly_fraction = reward ⊘ (reward ⊕ risk ⊕ lit 1 10) in
      let size = c.max_position_usd ⊗ kelly_fraction ⊗ lit 5 10 in
      min_of c.max_position_usd (max_of c.min_position_usd size)

  unfoldable pub evaluate : Evaluation D → FundingRateData D → Config D → Evaluation D
  evaluate blank x c =
      let annual_return = annualized_rate x in
      let bps = basis_bps x in
      let direction = if x.funding_rate ≻ nought then "long_basis" else "short_basis" in
      let reward = d.abs annual_return ⊘ lit 100 1 in
      let risk = d.abs bps ⊘ lit 100 1 in
      let size = size_for reward risk c in
      let refused : Reason D → Evaluation D = λ reason. record {
        should_enter = false;
        direction = direction;
        expected_return_8h = x.funding_rate ⊗ lit 100 1;
        expected_return_annual = annual_return;
        recommended_size_usd = blank.recommended_size_usd;
        risk_score = blank.risk_score;
        reason = reason;
      } in
      if d.abs annual_return ≺ c.min_annualized_return
      then refused (return_below (d.abs annual_return) c.min_annualized_return)
      else if d.abs bps ≻ c.max_basis_bps
      then refused (basis_above (d.abs bps) c.max_basis_bps)
      else record {
        should_enter = true;
        direction = direction;
        expected_return_8h = x.funding_rate ⊗ lit 100 1;
        expected_return_annual = annual_return;
        recommended_size_usd = size;
        risk_score = risk ⊘ (reward ⊕ lit 1 100);
        reason = enters direction annual_return bps size;
      }

  unfoldable pub should_enter : Evaluation D → FundingRateData D → Config D → Bool × Evaluation D
  should_enter blank x c = let eval = evaluate blank x c in (eval.should_enter, eval)

  unfoldable pub should_exit : FundingArbPosition D → FundingRateData D → Config D → Bool
  should_exit p current c =
      let entry = p.entry_funding_rate in
      let rate = current.funding_rate in
      if ((entry ≻ nought) && (rate ≺ nought)) || ((entry ≺ nought) && (rate ≻ nought))
      then true
      else if d.abs (basis_risk p) ≻ c.stop_loss_bps
      then true
      else if d.abs (annualized_rate current) ≺ c.min_annualized_return ⊗ lit 5 10
      then true
      else false

  -- The size is cut to a fifth of the capital and to the maximum. std::min of a list gives its first least
  -- element.
  unfoldable pub calculate_position_size : Evaluation D → FundingRateData D → D → Config D → D
  unfolding evaluate
  calculate_position_size blank x capital c =
      let eval = evaluate blank x c in
      let max_from_capital = capital ⊗ lit 20 100 in
      if not eval.should_enter
      then nought
      else min_of (min_of eval.recommended_size_usd max_from_capital) c.max_position_usd

  unfoldable pub sharpe_estimate : FundingRateData D → D → D
  sharpe_estimate x volatility_annual =
      let annual_return = d.abs (annualized_rate x) ⊘ lit 100 1 in
      if volatility_annual ≼ nought then nought else (annual_return ⊖ lit 5 100) ⊘ volatility_annual
