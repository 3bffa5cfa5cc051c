-- ===== src/Risk/Switch.antt =====
-- The kill switch, what throws it, and the window of slippage samples.
use cplusplus_arbitrage.Base.{
  ℕ, suc, ◌+◌, ◌≡◌, refl, ap, String, true, false, ◌&&◌, ◌||◌, List, [], ◌∷◌, ◌++◌, arith, length,
  length-append, min, Bool-cases, ltb, leb, inl, inr,
}
use cplusplus_arbitrage.Double.{Double, ◌≻◌}
use cplusplus_arbitrage.Types.{Fill, Signal, Timestamp}
use cplusplus_arbitrage.Risk.{
  RiskManager, max_slippage_samples, pop_beyond, activate_kill_switch, record_connectivity_issue,
  should_halt_trading, can_place_order, record_order_placed, update_balance, check_order,
  record_fill, record_pnl, count_above, record_slippage, reset_daily_counters,
}

-- One call of a method that changes the manager, other than `deactivate_kill_switch`.
pub data Call (D : Type 0) : Type 0 where
  fills : Fill D → Call D
  books_pnl : D → Call D
  sees_slippage : D → Call D
  loses_connection : Call D
  asks_to_place : Call D
  places : Call D
  resets : Call D
  sets_balance : D → Call D
  activates : String → Call D

pop_beyond-length {ℓ} :
    {A : Type ℓ} (n : ℕ) (xs : List A) → length (pop_beyond n xs) ≡ min n (length xs)
unfolding pop_beyond
pop_beyond-length n [] = omega arith
pop_beyond-length n (x ∷ xs) = ground (arith, pop_beyond-length n xs)

pop_beyond-suffix {ℓ} :
    {A : Type ℓ} (n : ℕ) (xs : List A) → (front : List A) × (xs ≡ front ++ pop_beyond n xs)
unfolding pop_beyond
pop_beyond-suffix n [] = ([], refl)
pop_beyond-suffix n (x ∷ xs) = elim (Bool-cases (ltb n (suc (length xs)))) [
  | inl e ↦ let (front, split) = pop_beyond-suffix n xs in rw e (x ∷ front, ap (◌∷◌ x) split)
  | inr e ↦ rw e ([], refl)
]

module _ {D : Type 0} ⦃d : Double D⦄ where
  unfoldable pub perform : Timestamp × Call D → RiskManager D → RiskManager D
  unfolding record_fill record_pnl record_slippage record_connectivity_issue can_place_order
      record_order_placed reset_daily_counters update_balance activate_kill_switch
  perform (now, fills f) r = record_fill f r
  perform (now, books_pnl p) r = record_pnl p r
  perform (now, sees_slippage s) r = record_slippage s now r
  perform (now, loses_connection) r = record_connectivity_issue now r
  perform (now, asks_to_place) r = (can_place_order now r).0
  perform (now, places) r = record_order_placed now r
  perform (now, resets) r = reset_daily_counters r
  perform (now, sets_balance b) r = update_balance b r
  perform (now, activates reason) r = activate_kill_switch reason r

  unfoldable pub perform_all : List (Timestamp × Call D) → RiskManager D → RiskManager D
  unfolding perform
  perform_all [] r = r
  perform_all (c ∷ cs) r = perform_all cs (perform c r)

  perform-on :
      (c : Timestamp × Call D) (r : RiskManager D)
      → r.kill_switch ≡ true
      → (perform c r).kill_switch ≡ true
  unfolding perform
  perform-on (now, fills f) r h = ground arith
  perform-on (now, books_pnl p) r h = ground arith
  perform-on (now, sees_slippage s) r h = ground arith
  perform-on (now, loses_connection) r h = ground arith
  perform-on (now, asks_to_place) r h = h
  perform-on (now, places) r h = h
  perform-on (now, resets) r h = h
  perform-on (now, sets_balance b) r h = h
  perform-on (now, activates reason) r h = refl

  perform_all-on :
      (cs : List (Timestamp × Call D)) (r : RiskManager D)
      → r.kill_switch ≡ true
      → (perform_all cs r).kill_switch ≡ true
  unfolding perform_all
  perform_all-on [] r h = h
  perform_all-on (c ∷ cs) r h = perform_all-on cs (perform c r) (perform-on c r h)

  -- Once the kill switch is on, no calls but `deactivate_kill_switch` turn it off, the daily reset
  -- included: after any of them no order is allowed, and trading is to halt.
  pub kill_switch_latches :
      (cs : List (Timestamp × Call D)) (r : RiskManager D) (signal : Signal D) (notional : D)
      (now : Timestamp)
      → r.kill_switch ≡ true
      → let r' = perform_all cs r in
        ((check_order signal notional r').allowed ≡ false) × (should_halt_trading now r' ≡ true)
  unfolding check_order should_halt_trading
  kill_switch_latches cs r signal notional now h = ground (arith, perform_all-on cs r h)

  recent_slippage-record_slippage :
      (slippage : D) (now : Timestamp) (r : RiskManager D)
      → (record_slippage slippage now r).recent_slippage
        ≡ pop_beyond max_slippage_samples (r.recent_slippage ++ (now, slippage) ∷ [])
  unfolding record_slippage
  recent_slippage-record_slippage slippage now r = ground arith

  -- The samples are the last 50 of those so far and the new one, or all if there are fewer; a sample
  -- turns the kill switch on exactly if it is above the threshold and at least five of the samples are.
  record_slippage_lem :
      (slippage : D) (now : Timestamp) (r : RiskManager D)
      → let r' = record_slippage slippage now r in
        let all = r.recent_slippage ++ (now, slippage) ∷ [] in
        let threshold = r.config.slippage_threshold_bps in
        ((front : List (Timestamp × D)) × (all ≡ front ++ r'.recent_slippage))
        × (length r'.recent_slippage ≡ min 50 (length r.recent_slippage + 1))
        × (r'.kill_switch ≡ (
            r.kill_switch
            || ((slippage ≻ threshold) && leb 5 (count_above threshold r'.recent_slippage))))
  unfolding record_slippage
  record_slippage_lem slippage now r =
      let all : List (Timestamp × D) = r.recent_slippage ++ (now, slippage) ∷ [] in
      (
        rw (recent_slippage-record_slippage slippage now r)
            (pop_beyond-suffix max_slippage_samples all),
        omega (
          arith,
          ap length (recent_slippage-record_slippage slippage now r),
          pop_beyond-length max_slippage_samples all,
          length-append r.recent_slippage ((now, slippage) ∷ []),
        ),
        ground arith,
      )
