-- ===== src/OrderBook.antt =====
-- include/market_data/order_book.hpp and src/market_data/order_book.cpp. `now` is what the clock shows
-- during the call. The lock makes each method one step, so it does not show.
pub mod Valid
pub mod Queries
pub mod Snapshot
pub mod Binary
pub mod Examples
use cplusplus_arbitrage.Base.{
  ℕ, zero, suc, ◌+◌, String, Bool, true, false, ◌&&◌, ◌||◌, Option, none, some, List, [], ◌∷◌, ◌++◌,
  if◌then◌else◌, ltb, leb, is_some,
}
use cplusplus_arbitrage.Double.{Double, lit, nought, ◌⊕◌, ◌⊖◌, ◌⊗◌, ◌⊘◌, ◌≺◌, ◌≼◌, ◌≻◌}
use cplusplus_arbitrage.SortedMap.{Map, assign, erase, trim}
use cplusplus_arbitrage.Types.{PriceLevel, Timestamp, Duration}

pub record OrderBook (D : Type 0) : Type 0 where
  pub symbol : String
  pub max_levels : ℕ
  pub sequence : ℕ
  pub last_update : Timestamp
  pub bids : Map D D
  pub asks : Map D D

module _ {D : Type 0} ⦃d : Double D⦄ where
  -- `std::greater<Price>` and `std::less<Price>`.
  abbrev pub bid_before : D → D → Bool
  bid_before p q = p ≻ q

  abbrev pub ask_before : D → D → Bool
  ask_before p q = p ≺ q

  unfoldable pub create : String → ℕ → Timestamp → OrderBook D
  create symbol max_levels now = record {
    symbol = symbol;
    max_levels = max_levels;
    sequence = 0;
    last_update = now;
    bids = [];
    asks = [];
  }

  unfoldable pub trim_levels : OrderBook D → OrderBook D
  trim_levels b = record b { bids = trim b.max_levels b.bids; asks = trim b.max_levels b.asks }

  unfoldable pub update_bid : D → D → Timestamp → OrderBook D → OrderBook D
  unfolding trim_levels
  update_bid price size now b =
      let bids =
        if size ≼ nought
        then erase bid_before price b.bids
        else assign bid_before price size b.bids in
      trim_levels (record b { bids = bids; last_update = now })

  unfoldable pub update_ask : D → D → Timestamp → OrderBook D → OrderBook D
  unfolding trim_levels
  update_ask price size now b =
      let asks =
        if size ≼ nought
        then erase ask_before price b.asks
        else assign ask_before price size b.asks in
      trim_levels (record b { asks = asks; last_update = now })

  unfoldable pub clear : Timestamp → OrderBook D → OrderBook D
  clear now b = record b { bids = []; asks = []; last_update = now }

  -- The two loops of `apply_snapshot`, from the map so far.
  unfoldable pub load : (D → D → Bool) → List (PriceLevel D) → Map D D → Map D D
  load before [] m = m
  load before (l ∷ ls) m =
      load before ls (if l.size ≻ nought then assign before l.price l.size m else m)

  unfoldable pub apply_snapshot :
      List (PriceLevel D) → List (PriceLevel D) → Timestamp → OrderBook D → OrderBook D
  unfolding load trim_levels
  apply_snapshot bids asks now b = trim_levels (record b {
    bids = load bid_before bids [];
    asks = load ask_before asks [];
    last_update = now;
  })

  abbrev pub first_level : Map D D → Option (PriceLevel D)
  first_level [] = none
  first_level ((p, s) ∷ m) = some (record { price = p; size = s })

  unfoldable pub best_bid : OrderBook D → Option (PriceLevel D)
  best_bid b = first_level b.bids

  unfoldable pub best_ask : OrderBook D → Option (PriceLevel D)
  best_ask b = first_level b.asks

  -- Each of the three is 0.0 unless both sides have a level.
  abbrev pub on_both :
      (PriceLevel D → PriceLevel D → D) → Option (PriceLevel D) → Option (PriceLevel D) → D
  on_both f (some x) (some y) = f x y
  on_both f (some x) none = nought
  on_both f none y = nought

  unfoldable pub mid_price : OrderBook D → D
  unfolding best_bid best_ask
  mid_price b = on_both (λ bid ask. (bid.price ⊕ ask.price) ⊘ lit 2 1) (best_bid b) (best_ask b)

  unfoldable pub spread : OrderBook D → D
  unfolding best_bid best_ask
  spread b = on_both (λ bid ask. ask.price ⊖ bid.price) (best_bid b) (best_ask b)

  unfoldable pub spread_bps : OrderBook D → D
  unfolding mid_price spread
  spread_bps b =
      let mid = mid_price b in if mid ≼ nought then nought else (spread b ⊘ mid) ⊗ lit 10_000 1

  -- The loops of `top_bids` and `top_asks`, with the levels already copied and their count.
  unfoldable pub top_loop : ℕ → Map D D → List (PriceLevel D) → ℕ → List (PriceLevel D)
  top_loop n [] result count = result
  top_loop n ((p, s) ∷ m) result count =
      let rest = top_loop n m (result ++ record { price = p; size = s } ∷ []) (count + 1) in
      if leb n count then result else rest

  unfoldable pub top_bids : ℕ → OrderBook D → List (PriceLevel D)
  unfolding top_loop
  top_bids n b = top_loop n b.bids [] 0

  unfoldable pub top_asks : ℕ → OrderBook D → List (PriceLevel D)
  unfolding top_loop
  top_asks n b = top_loop n b.asks [] 0

  unfoldable pub depth_loop : ℕ → Map D D → D → ℕ → D
  depth_loop levels [] total count = total
  depth_loop levels ((p, s) ∷ m) total count =
      let rest = depth_loop levels m (total ⊕ s) (count + 1) in
      if leb levels count then total else rest

  unfoldable pub bid_depth : ℕ → OrderBook D → D
  unfolding depth_loop
  bid_depth levels b = depth_loop levels b.bids nought 0

  unfoldable pub ask_depth : ℕ → OrderBook D → D
  unfolding depth_loop
  ask_depth levels b = depth_loop levels b.asks nought 0

  unfoldable pub total_depth : ℕ → OrderBook D → D
  unfolding bid_depth ask_depth
  total_depth levels b = bid_depth levels b ⊕ ask_depth levels b

  -- `now - last_update > threshold`, without the subtraction.
  unfoldable pub is_stale : Duration → Timestamp → OrderBook D → Bool
  is_stale threshold now b = ltb (b.last_update + threshold) now
