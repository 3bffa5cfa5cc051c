-- ===== src/OrderBook/Binary.antt =====
-- `class BinaryMarketBook` (order_book.hpp, order_book.cpp): the two books of a market with two outcomes.
use cplusplus_arbitrage.Base.{
  ◌≡◌, String, Bool, true, ◌&&◌, ◌||◌, arith, is_some, All-mem, inl, inr, Option-cases,
}
use mathlib.Core.List.{Memᴰ}
use Prim.Native.String.{◌++◌}
use cplusplus_arbitrage.Double.{Double, IsNum, ◌⊕◌, ◌≼◌}
use cplusplus_arbitrage.Double.Laws.{IsOrdered}
use cplusplus_arbitrage.Types.{Timestamp, Duration}
use cplusplus_arbitrage.OrderBook.{
  OrderBook, create, on_both, best_bid, best_ask, mid_price, is_stale,
}
use cplusplus_arbitrage.OrderBook.Valid.{IsValid}
use cplusplus_arbitrage.OrderBook.Queries.{asks_above}

pub record BinaryMarketBook (D : Type 0) : Type 0 where
  pub market_id : String
  pub yes_book : OrderBook D
  pub no_book : OrderBook D

module _ {D : Type 0} ⦃d : Double D⦄ where
  unfoldable pub open_market : String → Timestamp → BinaryMarketBook D
  unfolding create
  open_market market_id now = record {
    market_id = market_id;
    yes_book = create (market_id ++ "_YES") 10 now;
    no_book = create (market_id ++ "_NO") 10 now;
  }

  unfoldable pub sum_of_best_asks : BinaryMarketBook D → D
  unfolding best_ask
  sum_of_best_asks m =
      on_both (λ yes_ask no_ask. yes_ask.price ⊕ no_ask.price) (best_ask m.yes_book)
        (best_ask m.no_book)

  unfoldable pub sum_of_best_bids : BinaryMarketBook D → D
  unfolding best_bid
  sum_of_best_bids m =
      on_both (λ yes_bid no_bid. yes_bid.price ⊕ no_bid.price) (best_bid m.yes_book)
        (best_bid m.no_book)

  unfoldable pub yes_implied_probability : BinaryMarketBook D → D
  unfolding mid_price
  yes_implied_probability m = mid_price m.yes_book

  unfoldable pub has_liquidity : BinaryMarketBook D → Bool
  unfolding best_bid best_ask
  has_liquidity m =
      is_some (best_bid m.yes_book)
      && is_some (best_ask m.yes_book)
      && is_some (best_bid m.no_book)
      && is_some (best_ask m.no_book)

  unfoldable pub market_is_stale : Duration → Timestamp → BinaryMarketBook D → Bool
  unfolding is_stale
  market_is_stale threshold now m =
      is_stale threshold now m.yes_book || is_stale threshold now m.no_book

  module _ (laws : IsOrdered D) where
    open laws use {add_mono}

    -- In a market with liquidity whose books are valid, no ask of the YES book and ask of the NO book
    -- together cost less than `sum_of_best_asks`, if the two sums are not NaN.
    sum_of_best_asks_least :
        (m : BinaryMarketBook D) (yes_level no_level : D × D)
        → IsValid m.yes_book
        → IsValid m.no_book
        → has_liquidity m ≡ true
        → Memᴰ yes_level m.yes_book.asks
        → Memᴰ no_level m.no_book.asks
        → IsNum (sum_of_best_asks m)
        → IsNum (yes_level.0 ⊕ no_level.0)
        → (sum_of_best_asks m ≼ (yes_level.0 ⊕ no_level.0)) ≡ true
    unfolding sum_of_best_asks has_liquidity
    sum_of_best_asks_least m y n v w liquid my mn num num' =
        elim (Option-cases (best_ask m.yes_book)) [
          | inl e ↦ ground arith
          | inr (a, e) ↦ elim (Option-cases (best_ask m.no_book)) [
            | inl f ↦ ground arith
            | inr (c, f) ↦
                let a_le = All-mem _ m.yes_book.asks my (asks_above laws _ a v.asks_ladder e).0 in
                let c_le = All-mem _ m.no_book.asks mn (asks_above laws _ c w.asks_ladder f).0 in
                ground (arith, add_mono a.price y.0 c.price n.0 a_le c_le)
          ]
        ]
