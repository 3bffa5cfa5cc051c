-- ===== src/Scanner/Evaluate.antt =====
-- evaluate_pair, evaluate_triangle and the functions of namespace math.
use cplusplus_arbitrage.Base.{
  ℕ, max, String, Bool, true, false, ◌&&◌, ◌||◌, not, List, [], ◌∷◌, ◌++◌, if◌then◌else◌,
}
use cplusplus_arbitrage.Double.{
  Double, lit, nought, ◌⊕◌, ◌⊖◌, ◌⊗◌, ◌⊘◌, ◌≼◌, ◌≺◌, ◌≽◌, max_of, min_of,
}
use cplusplus_arbitrage.Scanner.{
  ExchangeQuote, CrossExchangeOpportunity, TriangularOpportunity, MultiExchangeScanner, Refusal,
  low_spread, low_profit, small_size, stale_quotes, age_us, get_taker_fee_bps, is_stale,
}

abbrev pub reason_if : Bool → Refusal → List Refusal
reason_if true r = r ∷ []
reason_if false r = []

module _ {D : Type 0} ⦃d : Double D⦄ where
  unfoldable pub net_spread_bps : (buy_price sell_price buy_fee_bps sell_fee_bps : D) → D
  net_spread_bps buy_price sell_price buy_fee_bps sell_fee_bps =
      (sell_price ⊖ buy_price) ⊘ buy_price ⊗ lit 10_000 1 ⊖ buy_fee_bps ⊖ sell_fee_bps

  unfoldable pub triangular_cycle : (rate_ab rate_bc rate_ca : D) → D
  triangular_cycle rate_ab rate_bc rate_ca = rate_ab ⊗ rate_bc ⊗ rate_ca

  unfoldable pub zscore : (current_spread mean_spread std_spread : D) → D
  zscore current_spread mean_spread std_spread =
      if std_spread ≼ nought then nought else (current_spread ⊖ mean_spread) ⊘ std_spread

  unfoldable pub breakeven_spread_bps : (buy_fee_bps sell_fee_bps slippage_bps : D) → D
  breakeven_spread_bps buy_fee_bps sell_fee_bps slippage_bps =
      buy_fee_bps ⊕ sell_fee_bps ⊕ slippage_bps

  unfoldable pub fill_probability : (order_size available_size : D) → D
  fill_probability order_size available_size =
      if available_size ≼ nought
      then nought
      else if order_size ≼ available_size
      then lit 95 100
      else lit 95 100 ⊗ (available_size ⊘ order_size)

  unfoldable pub kelly_fraction : (edge win_prob : D) → D
  kelly_fraction edge win_prob =
      if (win_prob ≼ nought) || (win_prob ≽ lit 1 1) then nought else min_of (lit 25 100) edge

  unfoldable pub evaluate_pair :
      (buy_quote sell_quote : ExchangeQuote D)
      → ℕ
      → MultiExchangeScanner D
      → CrossExchangeOpportunity D
  evaluate_pair buy_quote sell_quote now e =
      let c = e.config in
      let buy_price = buy_quote.ask_price in
      let sell_price = sell_quote.bid_price in
      let gross = (sell_price ⊖ buy_price) ⊘ buy_price ⊗ lit 10_000 1 in
      let buy_fee = get_taker_fee_bps buy_quote.exchange e in
      let sell_fee = get_taker_fee_bps sell_quote.exchange e in
      let net = gross ⊖ buy_fee ⊖ sell_fee in
      let size =
        min_of (min_of buy_quote.ask_size sell_quote.bid_size) (c.max_size_usd ⊘ buy_price) in
      let per_unit =
        sell_price
        ⊖ buy_price
        ⊖ buy_price ⊗ buy_fee ⊘ lit 10_000 1
        ⊖ sell_price ⊗ sell_fee ⊘ lit 10_000 1 in
      let profit = per_unit ⊗ size in
      let buy_age = age_us now buy_quote.timestamp_us in
      let sell_age = age_us now sell_quote.timestamp_us in
      let freshness = max_of nought (lit 1 1 ⊖ lit (max buy_age sell_age) 1 ⊘ c.max_quote_age_us) in
      let value = size ⊗ buy_price in
      let stale =
        c.require_both_fresh
        && (is_stale now c.max_quote_age_us buy_quote
            || is_stale now c.max_quote_age_us sell_quote) in
      let narrow = net ≺ c.min_net_spread_bps in
      let poor = profit ≺ c.min_profit_usd in
      let small = value ≺ c.min_size_usd in
      record {
        buy_exchange = buy_quote.exchange;
        sell_exchange = sell_quote.exchange;
        symbol = buy_quote.symbol;
        buy_price = buy_price;
        sell_price = sell_price;
        gross_spread_bps = gross;
        net_spread_bps = net;
        buy_size_available = buy_quote.ask_size;
        sell_size_available = sell_quote.bid_size;
        max_executable_size = size;
        expected_profit_usd = profit;
        profit_per_unit = per_unit;
        detected_at_us = now;
        buy_quote_age_us = buy_age;
        sell_quote_age_us = sell_age;
        confidence = freshness ⊗ min_of (lit 1 1) (value ⊘ c.max_size_usd);
        is_actionable = not narrow && not poor && not small && not stale;
        reasons =
            reason_if narrow low_spread
            ++ (reason_if poor low_profit
                ++ (reason_if small small_size ++ reason_if stale stale_quotes));
      }

  unfoldable pub evaluate_triangle :
      String → (q1 q2 q3 : ExchangeQuote D) → ℕ → MultiExchangeScanner D → TriangularOpportunity D
  evaluate_triangle exchange q1 q2 q3 now e =
      let c = e.config in
      let rate_1 = q1.bid_price in
      let rate_2 = lit 1 1 ⊘ q2.ask_price in
      let rate_3 = q3.bid_price in
      let cycle_return = rate_1 ⊗ rate_2 ⊗ rate_3 in
      let gross = (cycle_return ⊖ lit 1 1) ⊗ lit 10_000 1 in
      let net = gross ⊖ lit 3 1 ⊗ get_taker_fee_bps exchange e in
      let size =
        min_of (min_of q1.bid_size (q2.ask_size ⊗ q2.ask_price ⊘ q1.bid_price)) q3.bid_size in
      let profit = net ⊘ lit 10_000 1 ⊗ size ⊗ q1.bid_price in
      record {
        exchange = exchange;
        pair_1 = q1.symbol;
        pair_2 = q2.symbol;
        pair_3 = q3.symbol;
        rate_1 = rate_1;
        rate_2 = rate_2;
        rate_3 = rate_3;
        cycle_return = cycle_return;
        gross_profit_bps = gross;
        net_profit_bps = net;
        max_size = size;
        expected_profit_usd = profit;
        detected_at_us = now;
        is_actionable = (net ≽ c.min_net_spread_bps) && (profit ≽ c.min_profit_usd);
      }
