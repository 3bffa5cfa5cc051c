-- ===== src/OrderBook/Queries.antt =====
-- What the queries of the book give back.
use cplusplus_arbitrage.Base.{
  ℕ, zero, suc, ◌+◌, ◌<◌, ◌≡◌, sym, subst, ◌∙◌, true, false, none, some, List, [], ◌∷◌, ◌++◌, map,
  arith, length, take, All, All-mono, Bool-cases, if◌then◌else◌, leb, inl, inr,
}
use mathlib.Core.Path.{ap₂}
use mathlib.Core.Option.{some-injective}
use mathlib.Core.List.{append-nil, append_assoc}
use cplusplus_arbitrage.Double.{Double, IsNum, nought, ◌⊕◌, ◌≼◌}
use cplusplus_arbitrage.Double.Laws.{IsOrdered, le_of_lt}
use cplusplus_arbitrage.SortedMap.{Map, assign, erase, find, same, Keys, IsSorted}
use cplusplus_arbitrage.SortedMap.Lookup.{find-assign}
use cplusplus_arbitrage.SortedMap.Erase.{find-erase}
use cplusplus_arbitrage.SortedMap.Trim.{
  trim-eq-take, take_all, take_nil, length-assign, length-erase,
}
use cplusplus_arbitrage.Types.{PriceLevel, Timestamp}
use cplusplus_arbitrage.OrderBook.{
  OrderBook, bid_before, ask_before, update_bid, best_bid, best_ask, first_level, top_loop,
  top_bids, top_asks, total_depth, depth_loop,
}
use cplusplus_arbitrage.OrderBook.Valid.{IsValid, IsPositive, IsLadder, bid_before-IsKeyOrder}

module _ {D : Type 0} ⦃d : Double D⦄ where
  abbrev pub level : D × D → PriceLevel D
  level e = record { price = e.0; size = e.1 }

  -- `left` levels are still to be taken when the loop has counted up to `count`.
  top_loop-eq-take :
      (n count left : ℕ) (m : Map D D) (result : List (PriceLevel D))
      → n ≡ count + left
      → top_loop n m result count ≡ result ++ map level (take left m)
  unfolding top_loop
  top_loop-eq-take n count left [] result h = rw (take_nil left) (sym (append-nil result))
  top_loop-eq-take n count zero ((p, s) ∷ m) result h =
      let full : leb n count ≡ true = ground arith in rw full (sym (append-nil result))
  top_loop-eq-take n count (suc left) ((p, s) ∷ m) result h =
      let open_yet : leb n count ≡ false = ground arith in
      rw open_yet (
        top_loop-eq-take n (count + 1) left m (result ++ level (p, s) ∷ []) (omega arith)
        ∙ append_assoc result (level (p, s) ∷ []) (map level (take left m)))

  -- `top_bids n` are the first n levels of the bids.
  pub top_bids-eq-take : (n : ℕ) (b : OrderBook D) → top_bids n b ≡ map level (take n b.bids)
  unfolding top_bids
  top_bids-eq-take n b = top_loop-eq-take n 0 n b.bids [] (omega arith)

  pub top_asks-eq-take : (n : ℕ) (b : OrderBook D) → top_asks n b ≡ map level (take n b.asks)
  unfolding top_asks
  top_asks-eq-take n b = top_loop-eq-take n 0 n b.asks [] (omega arith)

  abbrev pub sum_sizes : D → List (PriceLevel D) → D
  sum_sizes total [] = total
  sum_sizes total (l ∷ ls) = sum_sizes (total ⊕ l.size) ls

  depth_loop-eq-sum_sizes :
      (n count left : ℕ) (m : Map D D) (total : D)
      → n ≡ count + left
      → depth_loop n m total count ≡ sum_sizes total (map level (take left m))
  unfolding depth_loop
  depth_loop-eq-sum_sizes n count left [] total h = rw (take_nil left)
  depth_loop-eq-sum_sizes n count zero ((p, s) ∷ m) total h =
      let full : leb n count ≡ true = ground arith in rw full
  depth_loop-eq-sum_sizes n count (suc left) ((p, s) ∷ m) total h =
      let open_yet : leb n count ≡ false = ground arith in
      rw open_yet (depth_loop-eq-sum_sizes n (count + 1) left m (total ⊕ s) (omega arith))

  -- The depth of the book over n levels is the sum, from the best level on, of the sizes of the levels
  -- that `top_bids` and `top_asks` give for n, the bids' sum and the asks' sum added.
  total_depth-top :
      (n : ℕ) (b : OrderBook D)
      → total_depth n b ≡ sum_sizes nought (top_bids n b) ⊕ sum_sizes nought (top_asks n b)
  unfolding total_depth
  total_depth-top n b =
      rw (top_bids-eq-take n b, top_asks-eq-take n b)
        (ap₂ d.add (depth_loop-eq-sum_sizes n 0 n b.bids nought (omega arith))
          (depth_loop-eq-sum_sizes n 0 n b.asks nought (omega arith)))

  module _ (laws : IsOrdered D) where
    pub bids_below :
        (m : Map D D) (l : PriceLevel D)
        → IsLadder bid_before m
        → first_level m ≡ some l
        → All (λ e. (e.0 ≼ l.price) ≡ true) m × IsPositive l.size
    bids_below [] l s e = cc
    bids_below ((p, q) ∷ m) l ((n, above, _), (q_pos, _)) e =
        subst (λ x. All (λ y. (y.0 ≼ x.price) ≡ true) ((p, q) ∷ m) × IsPositive x.size)
          (some-injective _ _ e) ((n, All-mono _ _ m (λ x. le_of_lt laws x.0 p) above), q_pos)

    pub asks_above :
        (m : Map D D) (l : PriceLevel D)
        → IsLadder ask_before m
        → first_level m ≡ some l
        → All (λ e. (l.price ≼ e.0) ≡ true) m × IsPositive l.size
    asks_above [] l s e = cc
    asks_above ((p, q) ∷ m) l ((n, above, _), (q_pos, _)) e =
        subst (λ x. All (λ y. (x.price ≼ y.0) ≡ true) ((p, q) ∷ m) × IsPositive x.size)
          (some-injective _ _ e) ((n, All-mono _ _ m (λ x. le_of_lt laws p x.0) above), q_pos)

    -- In a valid book with both sides, `best_bid` has the highest price of all bids, `best_ask` has the
    -- lowest price of all asks, and both have sizes above 0.
    best_lem :
        (b : OrderBook D) (bid ask : PriceLevel D)
        → IsValid b
        → best_bid b ≡ some bid
        → best_ask b ≡ some ask
        → (All (λ e. (e.0 ≼ bid.price) ≡ true) b.bids × IsPositive bid.size)
          × (All (λ e. (ask.price ≼ e.0) ≡ true) b.asks × IsPositive ask.size)
    unfolding best_bid best_ask
    best_lem b bid ask v e f =
        (bids_below b.bids bid v.bids_ladder e, asks_above b.asks ask v.asks_ladder f)

    IsSorted-Keys : (m : Map D D) → IsSorted bid_before IsNum m → Keys IsNum m
    IsSorted-Keys [] s = tt
    IsSorted-Keys ((p, q) ∷ m) (n, _, s) = (n, IsSorted-Keys m s)

    -- With room for one more level, `update_bid` acts on the book as on a map: the size is found again
    -- under its price, or nothing is if it is not above 0, and every other price has what it had.
    find-update_bid :
        (p price size : D) (now : Timestamp) (b : OrderBook D)
        → IsNum p
        → IsNum price
        → IsValid b
        → length b.bids < b.max_levels
        → find bid_before p (update_bid price size now b).bids ≡ (
            if same bid_before p price
            then if size ≼ nought then none else some size
            else find bid_before p b.bids)
    unfolding update_bid
    find-update_bid p price size now b np n v room =
        let order = bid_before-IsKeyOrder laws in
        let sorted = v.bids_ladder.0 in
        elim (Bool-cases (size ≼ nought)) [
          | inl e ↦
              rw
                (
                  e,
                  trim-eq-take b.max_levels (erase bid_before price b.bids),
                  take_all b.max_levels (erase bid_before price b.bids)
                      (omega (arith, length-erase bid_before price b.bids)),
                )
                (find-erase bid_before order p price b.bids np n sorted)
          | inr e ↦
              rw
                (
                  e,
                  trim-eq-take b.max_levels (assign bid_before price size b.bids),
                  take_all b.max_levels (assign bid_before price size b.bids)
                      (omega (arith, length-assign bid_before price size b.bids)),
                )
                (find-assign bid_before order p price size b.bids np n
                  (IsSorted-Keys b.bids sorted))
        ]
