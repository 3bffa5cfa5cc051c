-- ===== src/FundingArbitrage/Decisions.antt =====
-- When the strategy enters and exits, and the sizes that it gives.
use cplusplus_arbitrage.Base.{◌≡◌, refl, true, false, not, ◌&&◌, arith, ◌⊎◌, inl, inr}
use cplusplus_arbitrage.Double.{Double, IsNum, nought, lit, ◌⊗◌, ◌⊘◌, ◌≼◌, ◌≺◌, ◌≻◌, max_of, min_of}
use cplusplus_arbitrage.Double.Laws.{IsOrdered, le_of_lt, le_of_not_lt}
use cplusplus_arbitrage.FundingArbitrage.{
  FundingRateData, FundingArbPosition, Config, Evaluation, annualized_rate, basis_bps, basis_risk,
  size_for, evaluate, should_exit, calculate_position_size,
}

module _ {D : Type 0} ⦃d : Double D⦄ where
  -- The strategy enters exactly if the annual return, of either sign, is not below the minimum and the
  -- basis is not above the limit.
  pub evaluate_enters :
      (blank : Evaluation D) (x : FundingRateData D) (c : Config D)
      → (evaluate blank x c).should_enter ≡ (
          not (d.abs (annualized_rate x) ≺ c.min_annualized_return)
          && not (d.abs (basis_bps x) ≻ c.max_basis_bps))
  unfolding evaluate
  evaluate_enters blank x c = ground arith

module _ {D : Type 0} ⦃d : Double D⦄ (laws : IsOrdered D) where
  clamp_bounds :
      (lo hi x : D)
      → (lo ≼ hi) ≡ true
      → ((lo ≼ min_of hi (max_of lo x)) ≡ true) × ((min_of hi (max_of lo x) ≼ hi) ≡ true)
  clamp_bounds lo hi x h =
      let (k, l) = laws.num_of_le lo hi h in
      ground
        (arith, le_of_lt laws lo x, le_of_lt laws x hi, le_of_lt laws lo hi, laws.num_of_lt lo x)

  abbrev size_of : FundingRateData D → Config D → D
  size_of x c = size_for (d.abs (annualized_rate x) ⊘ lit 100 1) (d.abs (basis_bps x) ⊘ lit 100 1) c

  evaluate-cases :
      (blank : Evaluation D) (x : FundingRateData D) (c : Config D)
      → ((evaluate blank x c).should_enter ≡ false)
        ⊎ (((evaluate blank x c).should_enter ≡ true)
            × ((evaluate blank x c).recommended_size_usd ≡ size_of x c))
  unfolding evaluate
  evaluate-cases blank x c = ground arith

  least_of_three :
      (a b c : D)
      → IsNum b
      → (a ≼ c) ≡ true
      → ((min_of (min_of a b) c ≼ a) ≡ true)
        × ((min_of (min_of a b) c ≼ b) ≡ true)
        × ((min_of (min_of a b) c ≼ c) ≡ true)
  least_of_three a b c n h =
      let (k, l) = laws.num_of_le a c h in
      ground (
        arith,
        le_of_lt laws b a,
        le_of_lt laws c a,
        le_of_lt laws c b,
        le_of_not_lt laws a b k n,
        le_of_not_lt laws b c n l,
        laws.lt_trans c b a,
        laws.le-eq-not-lt a c k l,
      )

  -- If the minimal size is at most the maximal one and a fifth of the capital is not NaN: where the strategy
  -- does not enter, the size for the capital is 0, whatever its recommended size holds; where it enters,
  -- the recommended size is from the minimum to the maximum, and the size for the capital is at most that
  -- and at most a fifth of the capital.
  pub calculate_position_size_bounds :
      (blank : Evaluation D) (x : FundingRateData D) (capital : D) (c : Config D)
      → (c.min_position_usd ≼ c.max_position_usd) ≡ true
      → IsNum (capital ⊗ lit 20 100)
      → let eval = evaluate blank x c in
        let size = calculate_position_size blank x capital c in
        ((eval.should_enter ≡ false) × (size ≡ nought))
        ⊎ ((eval.should_enter ≡ true)
            × ((c.min_position_usd ≼ eval.recommended_size_usd) ≡ true)
            × ((eval.recommended_size_usd ≼ c.max_position_usd) ≡ true)
            × ((size ≼ eval.recommended_size_usd) ≡ true)
            × ((size ≼ (capital ⊗ lit 20 100)) ≡ true))
  unfolding calculate_position_size
  calculate_position_size_bounds blank x capital c h n = elim (evaluate-cases blank x c) [
    | inl e ↦ inl (e, rw e refl)
    | inr (e, r) ↦
        let size = size_of x c in
        let within = clamp_bounds c.min_position_usd c.max_position_usd _ h in
        let least = least_of_three size (capital ⊗ lit 20 100) c.max_position_usd n within.1 in
        inr (e, rw r within.0, rw r within.1, rw (e, r) least.0, rw (e, r) least.1)
  ]

  -- A position that is entered is not exited at once, at the rate at which it was entered, as long as its
  -- basis has not moved beyond the stop loss.
  pub entered_position_kept :
      (blank : Evaluation D) (x : FundingRateData D) (p : FundingArbPosition D) (c : Config D)
      → (evaluate blank x c).should_enter ≡ true
      → p.entry_funding_rate ≡ x.funding_rate
      → (d.abs (basis_risk p) ≻ c.stop_loss_bps) ≡ false
      → ((c.min_annualized_return ⊗ lit 5 10) ≼ c.min_annualized_return) ≡ true
      → should_exit p x c ≡ false
  unfolding evaluate should_exit
  entered_position_kept blank x p c enters same calm half =
      let threshold = c.min_annualized_return in
      let n = laws.num_of_le (threshold ⊗ lit 5 10) threshold half in
      let rate = d.abs (annualized_rate x) in
      ground (
        arith,
        same,
        laws.lt_trans nought x.funding_rate nought,
        laws.lt_irrefl nought,
        laws.lt_cotrans rate threshold (threshold ⊗ lit 5 10) n.1,
        laws.le-eq-not-lt (threshold ⊗ lit 5 10) threshold n.0 n.1,
      )
