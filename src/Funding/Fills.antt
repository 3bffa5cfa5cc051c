-- ===== src/Funding/Fills.antt =====
-- `simulate_fill` of the funding settlement engine, with its helpers.
use cplusplus_arbitrage.Base.{ℕ, ◌+◌, String, Bool, true, false, ◌&&◌, ◌∷◌, if◌then◌else◌}
use cplusplus_arbitrage.Base.Int.{ℤ, pos, ltb_ℤ}
use cplusplus_arbitrage.Double.{Double, lit, nought, ◌⊕◌, ◌⊖◌, ◌⊗◌, ◌⊘◌, ◌≻◌, ◌≺◌, max_of, min_of}
use cplusplus_arbitrage.Types.{Side, buy, sell}
use cplusplus_arbitrage.Funding.{FundingSettlementEngine, SimulatedFill, Stats, Fill}

-- What the three distributions yield.
pub record FillDraw (D : Type 0) : Type 0 where
  pub roll : D
  pub slippage : D
  pub latency : D

-- The arguments of `simulate_fill`.
pub record FillRequest (D : Type 0) : Type 0 where
  pub venue : String
  pub instrument : String
  pub side : Side
  pub qty : D
  pub limit_price : D
  pub current_bid : D
  pub current_ask : D
  pub bid_qty : D
  pub ask_qty : D

abbrev pub limit_reason : Side → String
limit_reason Side.buy = "Limit price exceeded"
limit_reason Side.sell = "Limit price not met"

module _ {D : Type 0} ⦃d : Double D⦄ where
  unfoldable pub calculate_fill_probability : D → D → FundingSettlementEngine D → D
  calculate_fill_probability spread_bps order_size_ratio e =
      let c = e.config in
      let prob =
        c.base_fill_probability
        ⊖ spread_bps ⊗ c.spread_penalty_per_bps
        ⊖ order_size_ratio ⊗ lit 2 10 in
      min_of c.max_fill_probability (max_of c.min_fill_probability prob)

  unfoldable pub calculate_slippage : D → D → FundingSettlementEngine D → D
  calculate_slippage slippage volatility e = d.abs slippage ⊕ e.config.slippage_skew ⊗ volatility

  unfoldable pub calculate_latency : D → ℤ
  calculate_latency latency = let ms = d.trunc latency in if ltb_ℤ (pos 10) ms then ms else pos 10

  abbrev pub spread_of : FillRequest D → D
  spread_of q =
      (q.current_ask ⊖ q.current_bid) ⊘ ((q.current_bid ⊕ q.current_ask) ⊘ lit 2 1) ⊗ lit 10_000 1

  abbrev pub size_ratio : FillRequest D → D
  size_ratio q =
      let book_qty : D = elim q.side [ buy ↦ q.ask_qty | sell ↦ q.bid_qty ] in
      if book_qty ≻ nought then q.qty ⊘ book_qty else lit 1 1

  abbrev pub slippage_of : FillDraw D → FillRequest D → FundingSettlementEngine D → D
  slippage_of draw q e = calculate_slippage draw.slippage (spread_of q ⊗ lit 5 10) e

  abbrev pub fill_price_of : D → FillRequest D → D
  fill_price_of slippage_bps q = elim q.side [
    | buy ↦ q.current_ask ⊕ q.current_ask ⊗ (slippage_bps ⊘ lit 10_000 1)
    | sell ↦ q.current_bid ⊖ q.current_bid ⊗ (slippage_bps ⊘ lit 10_000 1)
  ]

  abbrev pub beyond_limit : D → FillRequest D → Bool
  beyond_limit price q =
      (q.limit_price ≻ nought)
      && elim q.side [ buy ↦ price ≻ q.limit_price | sell ↦ price ≺ q.limit_price ]

  abbrev pub no_fill : SimulatedFill D
  no_fill = record {
    filled = false;
    fill_price = nought;
    fill_qty = nought;
    fee = nought;
    slippage_bps = nought;
    latency_ms = pos 0;
    rejection_reason = "";
  }

  abbrev pub count_rejected : Stats D → Stats D
  count_rejected s = record s {
    orders_simulated = s.orders_simulated + 1;
    orders_rejected = s.orders_rejected + 1;
  }

  -- The callback gets the fill only if there is a database.
  unfoldable pub simulate_fill :
      FillDraw D
      → FillRequest D
      → ℕ
      → FundingSettlementEngine D
      → FundingSettlementEngine D × SimulatedFill D
  unfolding calculate_fill_probability calculate_slippage calculate_latency
  simulate_fill draw q now e =
      let slippage = slippage_of draw q e in
      let price = fill_price_of slippage q in
      let notional = price ⊗ q.qty in
      let fee = notional ⊗ (e.config.taker_fee_bps ⊘ lit 10_000 1) in
      let latency = calculate_latency draw.latency in
      if draw.roll ≻ calculate_fill_probability (spread_of q) (size_ratio q) e
      then (
        record e { stats = count_rejected e.stats },
        record no_fill { rejection_reason = "Simulated non-fill (adversarial model)" },
      )
      else if beyond_limit price q
      then (
        record e { stats = count_rejected e.stats },
        record no_fill {
          slippage_bps = slippage;
          fill_price = price;
          rejection_reason = limit_reason q.side;
        },
      )
      else let f : Fill D = record {
        session_id = e.session_id;
        venue = q.venue;
        instrument = q.instrument;
        side = q.side;
        price = price;
        qty = q.qty;
        fee = fee;
        timestamp = now;
        slippage_bps = slippage;
        latency_ms = latency;
      } in
        (
          record e {
            stats = record e.stats {
              orders_simulated = e.stats.orders_simulated + 1;
              orders_filled = e.stats.orders_filled + 1;
              total_slippage_cost =
                  e.stats.total_slippage_cost ⊕ notional ⊗ (slippage ⊘ lit 10_000 1);
              total_fees_paid = e.stats.total_fees_paid ⊕ fee;
            };
            fill_log = if e.has_db then f ∷ e.fill_log else e.fill_log;
          },
          record {
            filled = true;
            fill_price = price;
            fill_qty = q.qty;
            fee = fee;
            slippage_bps = slippage;
            latency_ms = latency;
            rejection_reason = "";
          },
        )
