-- ===== src/Strategy/StaleOdds.antt =====
-- `StaleOddsStrategy` (S1) of strategy_base.cpp, with BtcPrice of include/common/types.hpp. The texts that fmt
-- makes are the arguments `up` and `down`. `clock` is the time that the books' staleness is measured at, and
-- `blank` is what a `Signal` holds that nothing has been written to.
use cplusplus_arbitrage.Base.{
  ℕ, zero, suc, ◌+◌, ◌-◌, ◌*◌, min, String, Bool, not, none, some, List, [], ◌∷◌, ◌++◌,
  if◌then◌else◌, ltb, length,
}
use cplusplus_arbitrage.Double.{
  Double, lit, nought, ◌⊕◌, ◌⊖◌, ◌⊗◌, ◌⊘◌, ◌≺◌, ◌≼◌, ◌≻◌, ◌≽◌, min_of, max_of,
}
use cplusplus_arbitrage.Types.{PriceLevel, Signal, Timestamp, buy}
use cplusplus_arbitrage.OrderBook.{best_ask}
use cplusplus_arbitrage.OrderBook.Binary.{BinaryMarketBook, has_liquidity, market_is_stale}
use cplusplus_arbitrage.Strategy.{StrategyBase}

pub record BtcPrice (D : Type 0) : Type 0 where
  pub bid : D
  pub ask : D
  pub mid : D
  pub last : D
  pub timestamp : Timestamp
  pub exchange_time_ms : ℕ

pub record PricePoint (D : Type 0) : Type 0 where
  pub btc_price : D
  pub time : Timestamp

pub record StaleOddsStrategy (D : Type 0) : Type 0 where
  pub base : StrategyBase D
  pub reference_btc : BtcPrice D
  pub reference_time : Timestamp
  pub btc_history : List (PricePoint D)

abbrev pub max_history : ℕ
max_history = 100

module _ {ℓ} {A : Type ℓ} where
  abbrev pub erase_begin : List A → List A
  erase_begin [] = []
  erase_begin (x ∷ xs) = xs

  abbrev pub drop : ℕ → List A → List A
  drop zero xs = xs
  drop (suc n) [] = []
  drop (suc n) (x ∷ xs) = drop n xs

  -- `back()`, of which `x` is the element before.
  abbrev pub last_after : A → List A → A
  last_after x [] = x
  last_after x (y ∷ ys) = last_after y ys

module _ {D : Type 0} where
  unfoldable pub update_btc_reference : BtcPrice D → StaleOddsStrategy D → StaleOddsStrategy D
  update_btc_reference price s =
      let history : List (PricePoint D) =
        s.btc_history ++ record { btc_price = price.mid; time = price.timestamp } ∷ [] in
      record s {
        btc_history = if ltb max_history (length history) then erase_begin history else history;
        reference_btc = price;
        reference_time = price.timestamp;
      }

module _ {D : Type 0} ⦃d : Double D⦄ where
  abbrev pub move_from : List (PricePoint D) → D
  move_from [] = nought
  move_from (p ∷ ps) =
      let old_price = p.btc_price in
      let new_price = (last_after p ps).btc_price in
      if old_price ≼ nought then nought else (new_price ⊖ old_price) ⊘ old_price ⊗ lit 10_000 1

  -- From the tenth price from the end on, or from the first.
  unfoldable pub detect_btc_move_bps : StaleOddsStrategy D → D
  detect_btc_move_bps s =
      let size = length s.btc_history in
      if ltb size 2 then nought else move_from (drop (size - min size 10) s.btc_history)

  unfoldable pub is_market_stale : BinaryMarketBook D → Timestamp → StaleOddsStrategy D → Bool
  unfolding market_is_stale
  is_market_stale m clock s =
      market_is_stale (s.base.config.staleness_window_ms * 1_000_000) clock m

  unfoldable pub calculate_implied_prob : D → D → D
  calculate_implied_prob yes_ask no_ask =
      let total = yes_ask ⊕ no_ask in if total ≼ nought then lit 5 10 else yes_ask ⊘ total

  unfoldable pub calculate_expected_prob : D → D → D
  calculate_expected_prob btc_move_bps current_implied =
      let prob_shift = (btc_move_bps ⊘ lit 100 1) ⊗ lit 1 100 in
      max_of (lit 5 100) (min_of (lit 95 100) (current_implied ⊕ prob_shift))

  -- The last part of `evaluate`, from the difference of the probabilities on.
  unfoldable pub signal_of :
      (up : D → D → D → String)
      → (down : D → D → String) → (blank : Signal D) → BinaryMarketBook D
      → Timestamp
      → (yes_ask no_ask : PriceLevel D) → StaleOddsStrategy D
      → Signal D
  unfolding detect_btc_move_bps calculate_implied_prob calculate_expected_prob
  signal_of up down blank m now yes_ask no_ask s =
      let move = detect_btc_move_bps s in
      let implied = calculate_implied_prob yes_ask.price no_ask.price in
      let expected = calculate_expected_prob move implied in
      let prob_diff = expected ⊖ implied in
      let signal : Signal D = record blank {
        strategy_name = s.base.name;
        market_id = m.market_id;
        generated_at = now;
        confidence = min_of (lit 1 1) (d.abs prob_diff ⊘ lit 1 10);
      } in
      if prob_diff ≻ lit 2 100
      then record signal {
        token_id = m.yes_book.symbol;
        side = buy;
        target_price = yes_ask.price;
        target_size = yes_ask.size;
        expected_edge = prob_diff ⊗ lit 100 1;
        reason = up move expected implied;
      }
      else if prob_diff ≺ d.neg (lit 2 100)
      then record signal {
        token_id = m.no_book.symbol;
        side = buy;
        target_price = no_ask.price;
        target_size = no_ask.size;
        expected_edge = d.neg prob_diff ⊗ lit 100 1;
        reason = down move implied;
      }
      else signal

  abbrev pub probability_gap : PriceLevel D → PriceLevel D → StaleOddsStrategy D → D
  probability_gap yes_ask no_ask s =
      let implied = calculate_implied_prob yes_ask.price no_ask.price in
      calculate_expected_prob (detect_btc_move_bps s) implied ⊖ implied

  abbrev pub give : Signal D → StaleOddsStrategy D → StaleOddsStrategy D × List (Signal D)
  give signal s =
      if signal.confidence ≽ s.base.config.min_confidence
      then (
        record s { base = record s.base { signals_generated = s.base.signals_generated + 1 } },
        signal ∷ [],
      )
      else (s, [])

  -- `s` has the new reference price. `has_liquidity` has seen to the two best bids.
  unfoldable pub evaluate_updated :
      (up : D → D → D → String)
      → (down : D → D → String) → (blank : Signal D) → BinaryMarketBook D
      → (now clock : Timestamp) → StaleOddsStrategy D
      → StaleOddsStrategy D × List (Signal D)
  unfolding signal_of detect_btc_move_bps is_market_stale has_liquidity best_ask
  evaluate_updated up down blank m now clock s =
      if ltb (length s.btc_history) 5
      then (s, [])
      else if not (is_market_stale m clock s)
      then (s, [])
      else if not (has_liquidity m)
      then (s, [])
      else elim (best_ask m.yes_book) [
        | none ↦ (s, [])
        | some yes_ask ↦ elim (best_ask m.no_book) [
          | none ↦ (s, [])
          | some no_ask ↦
              if d.abs (detect_btc_move_bps s) ≺ s.base.config.lag_move_threshold_bps
              then (s, [])
              else if d.abs (probability_gap yes_ask no_ask s) ≺ lit 2 100
              then (s, [])
              else give (signal_of up down blank m now yes_ask no_ask s) s
        ]
      ]

  unfoldable pub evaluate :
      (up : D → D → D → String)
      → (down : D → D → String) → (blank : Signal D) → BinaryMarketBook D
      → BtcPrice D
      → (now clock : Timestamp) → StaleOddsStrategy D
      → StaleOddsStrategy D × List (Signal D)
  unfolding evaluate_updated update_btc_reference
  evaluate up down blank m price now clock s =
      if s.base.enabled
      then evaluate_updated up down blank m now clock (update_btc_reference price s)
      else (s, [])
