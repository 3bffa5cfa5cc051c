-- ===== src/OrderBook/Valid.antt =====
-- The invariant of the book, and that every update keeps it.
use cplusplus_arbitrage.Base.{
  ℕ, ◌≤◌, ◌≡◌, ◌⊎◌, inl, inr, Bool, true, false, List, [], ◌∷◌, arith, length, All, All-take,
  Bool-cases, if◌then◌else◌,
}
use cplusplus_arbitrage.Double.{Double, IsNum, nought, ◌≼◌, ◌≻◌}
use cplusplus_arbitrage.Double.Laws.{IsOrdered}
use cplusplus_arbitrage.SortedMap.{Map, assign, erase, trim, IsKeyOrder, IsSorted}
use cplusplus_arbitrage.SortedMap.Order.{
  assign-IsSorted, erase-IsSorted, All-erase, All-assign_values,
}
use cplusplus_arbitrage.SortedMap.Trim.{trim-eq-take, length-trim, take-IsSorted}
use cplusplus_arbitrage.Types.{PriceLevel, Timestamp}
use cplusplus_arbitrage.OrderBook.{
  OrderBook, bid_before, ask_before, update_bid, update_ask, load, apply_snapshot,
}

module _ {D : Type 0} ⦃d : Double D⦄ where
  abbrev pub IsPositive : D → Type 0
  IsPositive s = (s ≻ nought) ≡ true

  -- One side of the book: in order, with sizes above 0.
  abbrev pub IsLadder : (D → D → Bool) → Map D D → Type 0
  IsLadder before m = IsSorted before IsNum m × All (λ e. IsPositive e.1) m

  pub record IsValid (b : OrderBook D) : Type 0 where
    pub bids_ladder : IsLadder bid_before b.bids
    pub asks_ladder : IsLadder ask_before b.asks
    pub bids_within : length b.bids ≤ b.max_levels
    pub asks_within : length b.asks ≤ b.max_levels

  module _ (laws : IsOrdered D) where
    open laws use {lt_irrefl, lt_trans, lt_cotrans, num_of_lt, num_ratio, le-eq-not-lt}

    pub ask_before-IsKeyOrder : IsKeyOrder {K = D} ask_before IsNum
    ask_before-IsKeyOrder = record { irrefl = lt_irrefl; trans = lt_trans; cotrans = lt_cotrans }

    bid_cotrans :
        (a b c : D)
        → IsNum b
        → bid_before a c ≡ true
        → (bid_before a b ≡ true) ⊎ (bid_before b c ≡ true)
    bid_cotrans a b c n h = ground (arith, lt_cotrans c b a n h)

    pub bid_before-IsKeyOrder : IsKeyOrder {K = D} bid_before IsNum
    bid_before-IsKeyOrder = record {
      irrefl = lt_irrefl;
      trans = λ a b c p q. lt_trans c b a q p;
      cotrans = bid_cotrans;
    }

    pub IsPositive-of_not : (s : D) → IsNum s → (s ≼ nought) ≡ false → IsPositive s
    IsPositive-of_not s n h = ground (arith, le-eq-not-lt s nought n (num_ratio 0 0))

    module _ (before : D → D → Bool) (order : IsKeyOrder before IsNum) where
      trim-IsLadder : (limit : ℕ) (m : Map D D) → IsLadder before m → IsLadder before (trim limit m)
      trim-IsLadder limit m (s, p) =
          rw (trim-eq-take limit m) (take-IsSorted before _ limit m s, All-take _ limit m p)

      assign-IsLadder :
          (price size : D) (m : Map D D)
          → IsNum price
          → IsPositive size
          → IsLadder before m
          → IsLadder before (assign before price size m)
      assign-IsLadder price size m n p (s, ps) = (
        assign-IsSorted before order price size m n s,
        All-assign_values before IsPositive price size m p ps,
      )

      write-IsLadder :
          (price size : D) (m : Map D D)
          → IsNum price
          → IsNum size
          → IsLadder before m
          → IsLadder before
              (if size ≼ nought then erase before price m else assign before price size m)
      write-IsLadder price size m n q l = elim (Bool-cases (size ≼ nought)) [
        | inl e ↦ rw e (erase-IsSorted before order price m l.0, All-erase before _ price m l.1)
        | inr e ↦ rw e (assign-IsLadder price size m n (IsPositive-of_not size q e) l)
      ]

      load-IsLadder :
          (ls : List (PriceLevel D)) (m : Map D D)
          → All (λ l. IsNum l.price) ls
          → IsLadder before m
          → IsLadder before (load before ls m)
      unfolding load
      load-IsLadder [] m n l = l
      load-IsLadder (x ∷ ls) m (n, ns) l = elim (Bool-cases (x.size ≻ nought)) [
        | inl e ↦ rw e (load-IsLadder ls _ ns (assign-IsLadder x.price x.size m n e l))
        | inr e ↦ rw e (load-IsLadder ls m ns l)
      ]

    -- An update of a bid keeps both sides in strict order, without empty levels and within the limit,
    -- if the price and the size are not NaN.
    update_bid-IsValid :
        (price size : D) (now : Timestamp) (b : OrderBook D)
        → IsNum price
        → IsNum size
        → IsValid b
        → IsValid (update_bid price size now b)
    unfolding update_bid
    update_bid-IsValid price size now b n q v = record {
      bids_ladder =
          trim-IsLadder bid_before bid_before-IsKeyOrder b.max_levels _
            (write-IsLadder bid_before bid_before-IsKeyOrder price size b.bids n q v.bids_ladder);
      asks_ladder =
          trim-IsLadder ask_before ask_before-IsKeyOrder b.max_levels b.asks v.asks_ladder;
      bids_within = length-trim b.max_levels _;
      asks_within = length-trim b.max_levels b.asks;
    }

    -- An update of an ask keeps both sides in strict order, without empty levels and within the limit,
    -- if the price and the size are not NaN.
    pub update_ask-IsValid :
        (price size : D) (now : Timestamp) (b : OrderBook D)
        → IsNum price
        → IsNum size
        → IsValid b
        → IsValid (update_ask price size now b)
    unfolding update_ask
    update_ask-IsValid price size now b n q v = record {
      bids_ladder =
          trim-IsLadder bid_before bid_before-IsKeyOrder b.max_levels b.bids v.bids_ladder;
      asks_ladder =
          trim-IsLadder ask_before ask_before-IsKeyOrder b.max_levels _
            (write-IsLadder ask_before ask_before-IsKeyOrder price size b.asks n q v.asks_ladder);
      bids_within = length-trim b.max_levels b.bids;
      asks_within = length-trim b.max_levels _;
    }

    -- A snapshot makes a valid book of any book, if no price in it is NaN; its sizes may be anything.
    pub apply_snapshot-IsValid :
        (bids asks : List (PriceLevel D)) (now : Timestamp) (b : OrderBook D)
        → All (λ l. IsNum l.price) bids
        → All (λ l. IsNum l.price) asks
        → IsValid (apply_snapshot bids asks now b)
    unfolding apply_snapshot
    apply_snapshot-IsValid bids asks now b n q = record {
      bids_ladder =
          trim-IsLadder bid_before bid_before-IsKeyOrder b.max_levels _
            (load-IsLadder bid_before bid_before-IsKeyOrder bids [] n (tt, tt));
      asks_ladder =
          trim-IsLadder ask_before ask_before-IsKeyOrder b.max_levels _
            (load-IsLadder ask_before ask_before-IsKeyOrder asks [] q (tt, tt));
      bids_within = length-trim b.max_levels _;
      asks_within = length-trim b.max_levels _;
    }
