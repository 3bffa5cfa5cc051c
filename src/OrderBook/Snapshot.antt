-- ===== src/OrderBook/Snapshot.antt =====
-- A snapshot and the updates that it stands for.
use mathlib.Core.Path.{ap₂}
use cplusplus_arbitrage.Base.{◌≡◌, refl, sym, ◌∙◌, false, List, [], ◌∷◌, arith, take, All}
use cplusplus_arbitrage.Double.{Double, nought, ◌≼◌}
use cplusplus_arbitrage.Double.Laws.{IsOrdered}
use cplusplus_arbitrage.SortedMap.{Map, assign}
use cplusplus_arbitrage.SortedMap.Trim.{trim-eq-take, take-take, take_nil, take-assign-take}
use cplusplus_arbitrage.Types.{PriceLevel, Timestamp}
use cplusplus_arbitrage.OrderBook.{
  OrderBook, bid_before, ask_before, update_bid, update_ask, clear, load, apply_snapshot,
}
use cplusplus_arbitrage.OrderBook.Valid.{IsPositive}

module _ {D : Type 0} ⦃d : Double D⦄ where
  -- One `update_bid` for each level, in turn.
  unfoldable pub replay_bids : List (PriceLevel D) → Timestamp → OrderBook D → OrderBook D
  replay_bids [] now b = b
  replay_bids (l ∷ ls) now b = replay_bids ls now (update_bid l.price l.size now b)

  unfoldable pub replay_asks : List (PriceLevel D) → Timestamp → OrderBook D → OrderBook D
  replay_asks [] now b = b
  replay_asks (l ∷ ls) now b = replay_asks ls now (update_ask l.price l.size now b)

  module _ (laws : IsOrdered D) where
    open laws use {lt_irrefl, lt_trans, num_of_lt, le-eq-not-lt}

    not-le_of_positive : (s : D) → IsPositive s → (s ≼ nought) ≡ false
    not-le_of_positive s h =
        let n = num_of_lt nought s h in ground (arith, le-eq-not-lt s nought n.1 n.0)

    -- The books that differ from `b` in their levels and in the time of the last update.
    module _ (b : OrderBook D) (now : Timestamp) where
      abbrev with_levels : Map D D → Map D D → OrderBook D
      with_levels bids asks = record b { bids = bids; asks = asks; last_update = now }

      abbrev trimmed : Map D D → Map D D → OrderBook D
      trimmed bids asks = with_levels (take b.max_levels bids) (take b.max_levels asks)

      update_bid-trimmed :
          (price size : D) (bids asks : Map D D)
          → IsPositive size
          → update_bid price size now (trimmed bids asks)
            ≡ trimmed (assign bid_before price size bids) asks
      unfolding update_bid
      update_bid-trimmed price size bids asks p = rw (not-le_of_positive size p) (
          ap₂ with_levels
            (trim-eq-take b.max_levels _ ∙ take-assign-take bid_before b.max_levels price size bids)
            (trim-eq-take b.max_levels _ ∙ take-take b.max_levels b.max_levels asks (omega arith)))

      update_ask-trimmed :
          (price size : D) (bids asks : Map D D)
          → IsPositive size
          → update_ask price size now (trimmed bids asks)
            ≡ trimmed bids (assign ask_before price size asks)
      unfolding update_ask
      update_ask-trimmed price size bids asks p = rw (not-le_of_positive size p) (
          ap₂ with_levels
            (trim-eq-take b.max_levels _ ∙ take-take b.max_levels b.max_levels bids (omega arith))
            (trim-eq-take b.max_levels _
              ∙ take-assign-take ask_before b.max_levels price size asks))

      replay_bids-trimmed :
          (ls : List (PriceLevel D)) (bids asks : Map D D)
          → All (λ l. IsPositive l.size) ls
          → replay_bids ls now (trimmed bids asks) ≡ trimmed (load bid_before ls bids) asks
      unfolding replay_bids load
      replay_bids-trimmed [] bids asks _ = refl
      replay_bids-trimmed (l ∷ ls) bids asks (p, ps) =
          rw (update_bid-trimmed l.price l.size bids asks p, p) (replay_bids-trimmed ls _ asks ps)

      replay_asks-trimmed :
          (ls : List (PriceLevel D)) (bids asks : Map D D)
          → All (λ l. IsPositive l.size) ls
          → replay_asks ls now (trimmed bids asks) ≡ trimmed bids (load ask_before ls asks)
      unfolding replay_asks load
      replay_asks-trimmed [] bids asks _ = refl
      replay_asks-trimmed (l ∷ ls) bids asks (p, ps) =
          rw (update_ask-trimmed l.price l.size bids asks p, p) (replay_asks-trimmed ls bids _ ps)

      clear-trimmed : clear now b ≡ trimmed [] []
      unfolding clear
      clear-trimmed = ap₂ with_levels (sym (take_nil b.max_levels)) (sym (take_nil b.max_levels))

    -- If all its sizes are above 0, a snapshot leaves just the book that clearing and one update for
    -- each level in turn leave: trimming after each update or once at the end is the same.
    pub apply_snapshot-replay :
        (bids asks : List (PriceLevel D)) (now : Timestamp) (b : OrderBook D)
        → All (λ l. IsPositive l.size) bids
        → All (λ l. IsPositive l.size) asks
        → apply_snapshot bids asks now b ≡ replay_asks asks now (replay_bids bids now (clear now b))
    unfolding apply_snapshot
    apply_snapshot-replay bids asks now b p q = rw (
      clear-trimmed b now,
      replay_bids-trimmed b now bids [] [] p,
      replay_asks-trimmed b now asks (load bid_before bids []) [] q,
      trim-eq-take b.max_levels (load bid_before bids []),
      trim-eq-take b.max_levels (load ask_before asks []),
    )
