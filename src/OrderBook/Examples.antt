-- ===== src/OrderBook/Examples.antt =====
-- Runs of the order book, and its theorems at concrete books. Prices and sizes are ten-thousandths.
use cplusplus_arbitrage.Base.{ℕ, ◌≡◌, refl, some, List, [], ◌∷◌, arith}
use cplusplus_arbitrage.Base.Int.{pos}
use cplusplus_arbitrage.Double.Fixed.{Fixed, fixed_double, Fixed-IsOrdered}
use cplusplus_arbitrage.SortedMap.{assign, trim}
use cplusplus_arbitrage.Types.{PriceLevel}
use cplusplus_arbitrage.OrderBook.{
  OrderBook, create, clear, apply_snapshot, spread, mid_price, total_depth,
}
use cplusplus_arbitrage.OrderBook.Valid.{IsValid, apply_snapshot-IsValid}
use cplusplus_arbitrage.OrderBook.Snapshot.{apply_snapshot-replay, replay_bids, replay_asks}
use cplusplus_arbitrage.OrderBook.Binary.{BinaryMarketBook}

abbrev pub amount : ℕ → Fixed
amount n = some (pos n)

abbrev quote : ℕ → ℕ → PriceLevel Fixed
quote p s = record { price = amount p; size = amount s }

abbrev bids : List (PriceLevel Fixed)
bids = quote 4500 100 ∷ quote 4700 50 ∷ quote 4600 20 ∷ []

abbrev asks : List (PriceLevel Fixed)
asks = quote 4900 30 ∷ quote 4800 70 ∷ []

-- A book for two levels on each side, after the snapshot.
abbrev pub sample : OrderBook Fixed
sample = record {
  symbol = "m_YES";
  max_levels = 2;
  sequence = 0;
  last_update = 5;
  bids = (amount 4700, amount 50) ∷ (amount 4600, amount 20) ∷ [];
  asks = (amount 4800, amount 70) ∷ (amount 4900, amount 30) ∷ [];
}

snapshot_run : apply_snapshot bids asks 5 (create "m_YES" 2 0) ≡ sample
unfolding apply_snapshot create assign trim
snapshot_run = refl

queries_run :
    (spread sample ≡ amount 100)
    × (mid_price sample ≡ amount 4750)
    × (total_depth 1 sample ≡ amount 120)
    × (total_depth 9 sample ≡ amount 170)
unfolding spread mid_price total_depth
queries_run = (refl, refl, refl, refl)

abbrev pub sample-IsValid : IsValid sample
sample-IsValid = record {
  bids_ladder = ((refl, (refl, tt), (refl, tt, tt)), (refl, (refl, tt)));
  asks_ladder = ((refl, (refl, tt), (refl, tt, tt)), (refl, (refl, tt)));
  bids_within = omega arith;
  asks_within = omega arith;
}

apply_snapshot-IsValid_example : IsValid (apply_snapshot bids asks 7 sample)
apply_snapshot-IsValid_example =
    apply_snapshot-IsValid Fixed-IsOrdered bids asks 7 sample (refl, (refl, (refl, tt)))
      (refl, (refl, tt))

abbrev roomy : OrderBook Fixed
roomy = record sample { max_levels = 3 }

apply_snapshot-replay_example :
    apply_snapshot bids asks 7 sample ≡ replay_asks asks 7 (replay_bids bids 7 (clear 7 sample))
apply_snapshot-replay_example =
    apply_snapshot-replay Fixed-IsOrdered bids asks 7 sample (refl, (refl, (refl, tt)))
      (refl, (refl, tt))

abbrev pub market : BinaryMarketBook Fixed
market = record { market_id = "m"; yes_book = sample; no_book = record sample { symbol = "m_NO" } }

abbrev pub no_book-IsValid : IsValid market.no_book
no_book-IsValid = record {
  bids_ladder = sample-IsValid.bids_ladder;
  asks_ladder = sample-IsValid.asks_ladder;
  bids_within = omega arith;
  asks_within = omega arith;
}
