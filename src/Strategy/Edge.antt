-- ===== src/Strategy/Edge.antt =====
-- What the signals of `UnderpricingStrategy` promise.
use cplusplus_arbitrage.Base.{
  ◌≡◌, String, true, Option, none, some, List, [], ◌∷◌, arith, if◌then◌else◌, All,
}
use cplusplus_arbitrage.Double.{Double, IsNum, ◌≽◌, ◌≼◌, min_of}
use cplusplus_arbitrage.Double.Laws.{IsOrdered, le_of_not_lt, le_of_lt}
use cplusplus_arbitrage.Types.{PriceLevel, Side, Signal, Timestamp, buy}
use cplusplus_arbitrage.OrderBook.{best_ask}
use cplusplus_arbitrage.OrderBook.Binary.{BinaryMarketBook}
use cplusplus_arbitrage.Strategy.{StrategyBase}
use cplusplus_arbitrage.Strategy.Underpricing.{evaluate, evaluate_asks, calculate_edge}

module _ {D : Type 0} ⦃d : Double D⦄ where
  -- The market, and what is to be bought of each token: one size of both, at their best asks.
  abbrev pub both_legs :
      StrategyBase D
      → BinaryMarketBook D
      → Option (PriceLevel D)
      → Option (PriceLevel D)
      → List (String × String × Side × D × D)
  both_legs s m (some y) (some n) =
      if calculate_edge y.price n.price ≽ s.config.min_edge_cents
      then (m.market_id, m.yes_book.symbol, buy, y.price, min_of y.size n.size)
        ∷ (m.market_id, m.no_book.symbol, buy, n.price, min_of y.size n.size)
        ∷ []
      else []
  both_legs s m (some y) none = []
  both_legs s m none n = []

  abbrev pub leg_of : Signal D → String × String × Side × D × D
  leg_of g = (g.market_id, g.token_id, g.side, g.target_price, g.target_size)

  module _ (laws : IsOrdered D) where
    -- No signal is for more than the best ask of either token has, if their sizes are not NaN.
    evaluate_size :
        (format : D → D → D → D → D → String) (m : BinaryMarketBook D) (now : Timestamp)
        (y n : PriceLevel D) (s : StrategyBase D)
        → IsNum y.size
        → IsNum n.size
        → best_ask m.yes_book ≡ some y
        → best_ask m.no_book ≡ some n
        → All
            (λ g. ((g.target_size ≼ y.size) ≡ true) × ((g.target_size ≼ n.size) ≡ true))
            (evaluate format m now s).1
    unfolding evaluate evaluate_asks
    evaluate_size format m now y n s a b e f =
        ground (arith, le_of_lt laws n.size y.size, le_of_not_lt laws y.size n.size a b)
