-- ===== src/Strategy/Lag.antt =====
-- When `StaleOddsStrategy` signals, and what it remembers of the reference price.
use cplusplus_arbitrage.Base.{
  ℕ, ◌≡◌, refl, ◌+◌, ◌≤◌, min, String, true, false, List, [], ◌∷◌, ◌++◌, arith, if◌then◌else◌,
  length, length-append, Option-cases, Bool-cases, inl, inr, All, ltb, ◌<◌, ltb→lt, not-ltb→le,
}
use cplusplus_arbitrage.Double.{Double, ◌≺◌, ◌≽◌}
use cplusplus_arbitrage.Types.{Signal, Timestamp}
use cplusplus_arbitrage.OrderBook.{best_ask}
use cplusplus_arbitrage.OrderBook.Binary.{BinaryMarketBook, has_liquidity}
use cplusplus_arbitrage.Strategy.StaleOdds.{
  BtcPrice, PricePoint, StaleOddsStrategy, update_btc_reference, evaluate, evaluate_updated,
  detect_btc_move_bps, is_market_stale, erase_begin,
}

erase_begin-suffix {ℓ} :
    {A : Type ℓ} (xs : List A) → (front : List A) × (xs ≡ front ++ erase_begin xs)
erase_begin-suffix [] = ([], refl)
erase_begin-suffix (x ∷ xs) = (x ∷ [], refl)

erase_begin-length {ℓ} :
    {A : Type ℓ} (xs : List A) → 0 < length xs → length (erase_begin xs) + 1 ≡ length xs
erase_begin-length [] h = omega arith
erase_begin-length (x ∷ xs) h = omega arith

module _ {D : Type 0} where
  -- The strategy remembers the last hundred reference prices: each new one comes last, and the oldest
  -- goes when there are more.
  update_btc_reference_lem :
      (price : BtcPrice D) (s : StaleOddsStrategy D)
      → length s.btc_history ≤ 100
      → let history = (update_btc_reference price s).btc_history in
        let all = s.btc_history ++ record { btc_price = price.mid; time = price.timestamp } ∷ [] in
        (length history ≡ min 100 (length s.btc_history + 1))
        × ((front : List (PricePoint D)) × (all ≡ front ++ history))
  unfolding update_btc_reference
  update_btc_reference_lem price s h =
      let p : PricePoint D = record { btc_price = price.mid; time = price.timestamp } in
      let all : List (PricePoint D) = s.btc_history ++ p ∷ [] in
      let size : length all ≡ length s.btc_history + 1 = length-append s.btc_history (p ∷ []) in
      elim (Bool-cases (ltb 100 (length all))) [
        | inl e ↦ rw e (
          omega (
            arith,
            size,
            ltb→lt 100 (length all) e,
            erase_begin-length all (omega (arith, size)),
          ),
          erase_begin-suffix all,
        )
        | inr e ↦ rw e (omega (arith, size, not-ltb→le 100 (length all) e), ([], refl))
      ]

module _ {D : Type 0} ⦃d : Double D⦄ where
  -- What has to hold for a signal.
  pub record IsCalledFor (m : BinaryMarketBook D) (clock : Timestamp) (s : StaleOddsStrategy D)
      (g : Signal D) : Type 0 where
    pub stale : is_market_stale m clock s ≡ true
    pub liquid : has_liquidity m ≡ true
    pub moved : (d.abs (detect_btc_move_bps s) ≺ s.base.config.lag_move_threshold_bps) ≡ false
    pub confident : (g.confidence ≽ s.base.config.min_confidence) ≡ true

  -- The strategy with so many more signals counted, and nothing else changed.
  abbrev pub counted : ℕ → StaleOddsStrategy D → StaleOddsStrategy D
  counted n s = record s {
    base = record s.base { signals_generated = s.base.signals_generated + n };
  }

  evaluate_updated_lem :
      (up : D → D → D → String) (down : D → D → String) (blank : Signal D) (m : BinaryMarketBook D)
      (now clock : Timestamp) (s : StaleOddsStrategy D)
      → let (s', signals) = evaluate_updated up down blank m now clock s in
        (length signals ≤ 1)
        × (s' ≡ counted (length signals) s)
        × All (IsCalledFor m clock s) signals
  unfolding evaluate_updated
  evaluate_updated_lem up down blank m now clock s = elim (Option-cases (best_ask m.yes_book)) [
    | inl e ↦ ground arith
    | inr (y, e) ↦ elim (Option-cases (best_ask m.no_book)) [
      | inl f ↦ ground arith
      | inr (n, f) ↦ ground arith
    ]
  ]

  -- The strategy gives at most one signal. It gives one only if it is enabled, the market is stale and
  -- liquid, the reference price, with the new one, has moved by the threshold at least, and the signal's
  -- confidence reaches its minimum. All that an evaluation changes of an enabled strategy is that it
  -- takes in the new reference price and counts its signal; of a disabled one it changes nothing.
  pub signals-IsCalledFor :
      (up : D → D → D → String) (down : D → D → String) (blank : Signal D) (m : BinaryMarketBook D)
      (price : BtcPrice D) (now clock : Timestamp) (s : StaleOddsStrategy D)
      → let (s', signals) = evaluate up down blank m price now clock s in
        let seen = update_btc_reference price s in
        (length signals ≤ (if s.base.enabled then 1 else 0))
        × (s' ≡ (if s.base.enabled then counted (length signals) seen else s))
        × All (IsCalledFor m clock seen) signals
  unfolding evaluate update_btc_reference
  signals-IsCalledFor up down blank m price now clock s =
      ground (arith, evaluate_updated_lem up down blank m now clock (update_btc_reference price s))
