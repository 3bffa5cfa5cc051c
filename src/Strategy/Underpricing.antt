-- ===== src/Strategy/Underpricing.antt =====
-- `UnderpricingStrategy` (S2) of strategy_base.cpp. The text that fmt makes of the prices, the fees and
-- the edge is the argument `format`.
use cplusplus_arbitrage.Base.{
  ◌+◌, String, Bool, ◌||◌, not, none, some, List, [], ◌∷◌, if◌then◌else◌,
}
use cplusplus_arbitrage.Double.{Double, lit, ◌⊕◌, ◌⊖◌, ◌⊗◌, ◌⊘◌, ◌≻◌, ◌≽◌, min_of}
use cplusplus_arbitrage.Types.{PriceLevel, Signal, Timestamp, buy}
use cplusplus_arbitrage.OrderBook.{OrderBook, best_ask, spread}
use cplusplus_arbitrage.OrderBook.Binary.{BinaryMarketBook, has_liquidity}
use cplusplus_arbitrage.Strategy.{StrategyBase}

module _ {D : Type 0} ⦃d : Double D⦄ where
  -- `price * (1 - price) * POLYMARKET_FEE_RATE`.
  unfoldable pub calculate_position_fee : D → D
  calculate_position_fee price = price ⊗ (lit 1 1 ⊖ price) ⊗ lit 624 10_000

  -- In cents; the source's third argument is not used.
  unfoldable pub calculate_edge : D → D → D
  unfolding calculate_position_fee
  calculate_edge yes_ask no_ask =
      let total_cost = yes_ask ⊕ no_ask in
      let total_fees = calculate_position_fee yes_ask ⊕ calculate_position_fee no_ask in
      (lit 1 1 ⊖ total_cost ⊖ total_fees) ⊗ lit 100 1

  unfoldable pub is_profitable : D → StrategyBase D → Bool
  is_profitable edge_cents s = edge_cents ≽ s.config.min_edge_cents

  abbrev pub buy_signal :
      StrategyBase D → BinaryMarketBook D → OrderBook D → D → D → D → Timestamp → String → Signal D
  buy_signal s m book price size edge_cents now reason = record {
    strategy_name = s.name;
    market_id = m.market_id;
    token_id = book.symbol;
    side = buy;
    target_price = price;
    target_size = size;
    expected_edge = edge_cents;
    confidence = min_of (lit 1 1) (edge_cents ⊘ lit 10 1);
    generated_at = now;
    reason = reason;
  }

  abbrev pub too_wide : StrategyBase D → BinaryMarketBook D → Bool
  too_wide s m =
      (spread m.yes_book ≻ s.config.max_spread_to_trade)
      || (spread m.no_book ≻ s.config.max_spread_to_trade)

  -- `evaluate` from the two best asks on.
  unfoldable pub evaluate_asks :
      (D → D → D → D → D → String)
      → BinaryMarketBook D
      → Timestamp
      → PriceLevel D
      → PriceLevel D
      → StrategyBase D
      → StrategyBase D × List (Signal D)
  unfolding calculate_edge is_profitable calculate_position_fee
  evaluate_asks format m now yes_ask no_ask s =
      let edge_cents = calculate_edge yes_ask.price no_ask.price in
      let total_fees = calculate_position_fee yes_ask.price ⊕ calculate_position_fee no_ask.price in
      let max_size = min_of yes_ask.size no_ask.size in
      let reason =
        format yes_ask.price no_ask.price (yes_ask.price ⊕ no_ask.price) total_fees edge_cents in
      if too_wide s m
      then (s, [])
      else if is_profitable edge_cents s
      then (
        record s { signals_generated = s.signals_generated + 2 },
        buy_signal s m m.yes_book yes_ask.price max_size edge_cents now reason
            ∷ buy_signal s m m.no_book no_ask.price max_size edge_cents now reason
            ∷ [],
      )
      else (s, [])

  unfoldable pub evaluate :
      (D → D → D → D → D → String)
      → BinaryMarketBook D
      → Timestamp
      → StrategyBase D
      → StrategyBase D × List (Signal D)
  unfolding evaluate_asks has_liquidity best_ask
  evaluate format m now s =
      if not s.enabled
      then (s, [])
      else if not (has_liquidity m)
      then (s, [])
      else elim (best_ask m.yes_book) [
        | none ↦ (s, [])
        | some yes_ask ↦ elim (best_ask m.no_book) [
          | none ↦ (s, [])
          | some no_ask ↦ evaluate_asks format m now yes_ask no_ask s
        ]
      ]
