-- ===== src/Strategy/MarketMaking.antt =====
-- `MarketMakingStrategy` (S3) of strategy_base.cpp.
use cplusplus_arbitrage.Base.{
  ◌+◌, ◌≡◌, String, true, false, not, List, [], ◌∷◌, arith, if◌then◌else◌, All,
}
use cplusplus_arbitrage.Double.{Double, lit, ◌⊕◌, ◌⊖◌, ◌⊗◌, ◌⊘◌, ◌≺◌, ◌≼◌, min_of, max_of}
use cplusplus_arbitrage.Double.Laws.{IsOrdered, le_of_lt}
use cplusplus_arbitrage.Types.{Signal, Side, Timestamp, buy, sell}
use cplusplus_arbitrage.OrderBook.{spread}
use cplusplus_arbitrage.OrderBook.Binary.{BinaryMarketBook, has_liquidity, yes_implied_probability}
use cplusplus_arbitrage.Strategy.{StrategyBase, StrategyConfig, create}

module _ {D : Type 0} ⦃d : Double D⦄ where
  unfoldable pub open_market_making : StrategyConfig D → StrategyBase D
  unfolding create
  open_market_making config =
      let s : StrategyBase D = create "S3_MarketMaking" config in record s { enabled = false }

  -- `std::max(0.01, std::min(0.99, price))`.
  abbrev pub clamp : D → D
  clamp price = max_of (lit 1 100) (min_of (lit 99 100) price)

  unfoldable pub calculate_quotes : D → D → D × D
  calculate_quotes fair_value spread =
      let half_spread = spread ⊘ lit 2 1 in
      (clamp (fair_value ⊖ half_spread), clamp (fair_value ⊕ half_spread))

  abbrev pub quote_signal :
      StrategyBase D → BinaryMarketBook D → Side → D → Timestamp → String → Signal D
  quote_signal s m side price now reason = record {
    strategy_name = s.name;
    market_id = m.market_id;
    token_id = m.yes_book.symbol;
    side = side;
    target_price = price;
    target_size = lit 1 1;
    expected_edge = lit 2 100 ⊗ lit 50 1;
    confidence = lit 1 2;
    generated_at = now;
    reason = reason;
  }

  -- The fair value is the book's implied probability.
  unfoldable pub evaluate :
      BinaryMarketBook D → Timestamp → StrategyBase D → StrategyBase D × List (Signal D)
  unfolding calculate_quotes has_liquidity yes_implied_probability
  evaluate m now s =
      let (bid_price, ask_price) = calculate_quotes (yes_implied_probability m) (lit 2 100) in
      if not s.enabled
      then (s, [])
      else if not (has_liquidity m)
      then (s, [])
      else if spread m.yes_book ≺ lit 2 100
      then (s, [])
      else (
        record s { signals_generated = s.signals_generated + 2 },
        quote_signal s m buy bid_price now "Market making bid"
            ∷ quote_signal s m sell ask_price now "Market making ask"
            ∷ [],
      )

  module _ (laws : IsOrdered D) where
    open laws use {num_of_le}

    clamp_bounds :
        (price : D)
        → d.le (lit 1 100) (lit 99 100) ≡ true
        → ((lit 1 100 ≼ clamp price) ≡ true) × ((clamp price ≼ lit 99 100) ≡ true)
    clamp_bounds price h =
        let n = num_of_le (lit 1 100) (lit 99 100) h in
        ground (
          arith,
          n.0,
          n.1,
          le_of_lt laws price (lit 99 100),
          le_of_lt laws (lit 1 100) price,
          le_of_lt laws (lit 1 100) (lit 99 100),
        )

    -- Every quote of the market maker is a price from 0.01 to 0.99, whatever the book says its fair value
    -- is.
    evaluate_prices :
        (m : BinaryMarketBook D) (now : Timestamp) (s : StrategyBase D)
        → d.le (lit 1 100) (lit 99 100) ≡ true
        → All
            (λ g. ((lit 1 100 ≼ g.target_price) ≡ true) × ((g.target_price ≼ lit 99 100) ≡ true))
            (evaluate m now s).1
    unfolding evaluate calculate_quotes
    evaluate_prices m now s h =
        let fair_value = yes_implied_probability m in
        let half_spread : D = lit 2 100 ⊘ lit 2 1 in
        ground (
          arith,
          clamp_bounds (fair_value ⊖ half_spread) h,
          clamp_bounds (fair_value ⊕ half_spread) h,
        )
