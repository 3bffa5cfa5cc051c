-- ===== src/Dispersion/Decisions.antt =====
-- When the strategy enters and exits, and how large a position it recommends.
use text.Mathlib.Text.{◌==◌}
use cplusplus_arbitrage.Base.{
  ◌+◌, ◌≡◌, refl, ◌∙◌, Bool, true, false, ◌||◌, Option, none, some, arith, All, inl, inr,
  Bool-cases, if◌then◌else◌,
}
use cplusplus_arbitrage.Double.{
  Double, IsNum, nought, lit, ◌≼◌, ◌≺◌, ◌≻◌, ◌⊖◌, ◌⊗◌, ◌⊘◌, max_of, min_of,
}
use cplusplus_arbitrage.Double.Laws.{IsOrdered, le_of_lt, le_of_not_lt}
use cplusplus_arbitrage.SortedMap.{IsSorted, find}
use cplusplus_arbitrage.SortedMap.Text.{before, AnyKey}
use cplusplus_arbitrage.Dispersion.{FundingPosition, FundingDispersionStrategy, compute_best_spread}
use cplusplus_arbitrage.Dispersion.Signals.{
  evaluate_entry, evaluate_exit, spread_now, kelly_position_size, compute_spread_volatility,
}
use cplusplus_arbitrage.Dispersion.Spread.{
  IsWidest, InRange, Differ, find-mem, compute_best_spread-IsWidest,
}

module _ {D : Type 0} ⦃d : Double D⦄ where
  abbrev pub is_negative : Option D → Bool
  is_negative none = false
  is_negative (some x) = x ≺ nought

  -- The spread that the position earns at the current rates, if both are known.
  abbrev pub spread_of : FundingPosition D → FundingDispersionStrategy D → Option D
  spread_of p e =
      spread_now (find before p.long_exchange e.current_rates)
        (find before p.short_exchange e.current_rates)

  -- The exit signal is given exactly if the basis diverges by more than the limit, or the best spread is
  -- below the exit threshold, or the position's own spread is negative; it is counted, and the call
  -- changes nothing else.
  pub evaluate_exit_lem :
      (p : FundingPosition D) (e : FundingDispersionStrategy D)
      → let (e', signal) = evaluate_exit p e in
        (signal.should_exit ≡ (
          (d.abs p.current_basis_divergence ≻ e.config.max_basis_divergence)
          || ((compute_best_spread e).spread ≺ e.config.exit_spread_threshold)
          || is_negative (spread_of p e)))
        × (e'.stats.exits_signaled
            ≡ (if signal.should_exit then e.stats.exits_signaled + 1 else e.stats.exits_signaled))
        × (record e' { stats = e.stats } ≡ e)
  unfolding evaluate_exit
  evaluate_exit_lem p e = ground arith

module _ {D : Type 0} ⦃d : Double D⦄ (laws : IsOrdered D) where
  clamp_bounds :
      (x lo hi : D)
      → (lo ≼ hi) ≡ true
      → IsNum (max_of (min_of x hi) lo)
      → ((lo ≼ max_of (min_of x hi) lo) ≡ true) × ((max_of (min_of x hi) lo ≼ hi) ≡ true)
  clamp_bounds x lo hi h n =
      let (k, l) = laws.num_of_le lo hi h in
      ground (
        arith,
        le_of_lt laws x lo,
        le_of_not_lt laws lo hi k l,
        le_of_not_lt laws x hi,
        le_of_not_lt laws lo x k,
        laws.num_of_lt x lo,
        laws.num_of_lt hi x,
        laws.le-eq-not-lt lo hi k l,
      )

  module _ (sqrt : D → D) (available_capital : D) (e : FundingDispersionStrategy D) where
    abbrev too_narrow : Bool
    too_narrow = (compute_best_spread e).spread ≺ e.config.entry_spread_threshold

    -- The size before it is cut to the range.
    abbrev kelly : D
    kelly =
        let fee_cost = lit 2 1 ⊗ (e.config.maker_fee_bps ⊘ lit 10_000 1) in
        kelly_position_size available_capital
          ((compute_best_spread e).spread ⊖ fee_cost ⊘ lit 1095 1)
          (compute_spread_volatility sqrt e) e

    -- A size is recommended only if the best spread is not below the threshold. Unless it is NaN, it is at
    -- least the minimum and at most the maximum, whatever the capital.
    pub recommended_size_bounds :
        (size : D)
        → (e.config.min_position_usd ≼ e.config.max_position_usd) ≡ true
        → (evaluate_entry sqrt available_capital e).1.recommended_size ≡ some size
        → IsNum size
        → (((compute_best_spread e).spread ≺ e.config.entry_spread_threshold) ≡ false)
          × ((e.config.min_position_usd ≼ size) ≡ true)
          × ((size ≼ e.config.max_position_usd) ≡ true)
    unfolding evaluate_entry
    recommended_size_bounds size h r n = elim (Bool-cases too_narrow) [
      | inl b ↦ absurd (ground arith)
      | inr b ↦
          let c = e.config in
          ground (arith, clamp_bounds kelly c.min_position_usd c.max_position_usd h)
    ]

    entry-keeps :
        let e' = (evaluate_entry sqrt available_capital e).0 in
        (e'.config ≡ e.config)
        × (e'.current_rates ≡ e.current_rates)
        × (compute_best_spread e' ≡ compute_best_spread e)
    unfolding evaluate_entry compute_best_spread
    entry-keeps = elim (Bool-cases too_narrow) [
      | inl b ↦ rw b (refl, refl, refl)
      | inr b ↦ rw b (refl, refl, refl)
    ]

    entry-exchanges :
        (evaluate_entry sqrt available_capital e).1.should_enter ≡ true
        → let signal = (evaluate_entry sqrt available_capital e).1 in
          let best = compute_best_spread e in
          (too_narrow ≡ false)
          × (signal.long_exchange ≡ best.long_exchange)
          × (signal.short_exchange ≡ best.short_exchange)
    unfolding evaluate_entry
    entry-exchanges enters = ground arith

    -- A position at the two exchanges of the best spread earns that spread.
    spread_of-best :
        (p : FundingPosition D)
        → IsSorted before AnyKey e.current_rates
        → IsWidest (compute_best_spread e) e.current_rates
        → p.long_exchange ≡ (compute_best_spread e).long_exchange
        → p.short_exchange ≡ (compute_best_spread e).short_exchange
        → spread_of p e ≡ some (compute_best_spread e).spread
    spread_of-best p sorted w long short =
        let best = compute_best_spread e in
        let m = e.current_rates in
        let found_long =
          find-mem best.long_exchange w.long_leg.snapshot m sorted w.long_leg.among in
        let found_short =
          find-mem best.short_exchange w.short_leg.snapshot m sorted w.short_leg.among in
        rw (long, short, found_long, found_short)
          (ground (arith, w.spread_is, w.long_leg.rate_is, w.short_leg.rate_is))

    -- A position that is entered on a signal is not exited at once: at the same rates, and unless its
    -- basis diverges, evaluate_exit leaves it open, if the exit threshold is not above the one to enter
    -- and that is not negative.
    pub entered_not_exited :
        (p : FundingPosition D)
        → IsSorted before AnyKey e.current_rates
        → All (λ entry. (entry.0 == "") ≡ false) e.current_rates
        → InRange e.current_rates
        → Differ e.current_rates
        → (e.config.exit_spread_threshold ≼ e.config.entry_spread_threshold) ≡ true
        → (nought ≼ e.config.entry_spread_threshold) ≡ true
        → (d.abs p.current_basis_divergence ≻ e.config.max_basis_divergence) ≡ false
        → (evaluate_entry sqrt available_capital e).1.should_enter ≡ true
        → p.long_exchange ≡ (evaluate_entry sqrt available_capital e).1.long_exchange
        → p.short_exchange ≡ (evaluate_entry sqrt available_capital e).1.short_exchange
        → (evaluate_exit p (evaluate_entry sqrt available_capital e).0).1.should_exit ≡ false
    entered_not_exited p sorted named within differ h0 h1 h2 enters long short =
        let e' = (evaluate_entry sqrt available_capital e).0 in
        let (same_config, same_rates, same_best) = entry-keeps in
        let (wide, best_long, best_short) = entry-exchanges enters in
        let c = e.config in
        let spread = (compute_best_spread e).spread in
        let own =
          spread_of-best p sorted (compute_best_spread-IsWidest laws e sorted named within differ)
            (long ∙ best_long) (short ∙ best_short) in
        let exit_num = laws.num_of_le c.exit_spread_threshold c.entry_spread_threshold h0 in
        let zero_num = laws.num_of_le nought c.entry_spread_threshold h1 in
        let not_compressed : (spread ≺ c.exit_spread_threshold) ≡ false = ground (
          arith,
          laws.lt_cotrans spread c.entry_spread_threshold c.exit_spread_threshold exit_num.1,
          laws.le-eq-not-lt c.exit_spread_threshold c.entry_spread_threshold exit_num.0 exit_num.1,
        ) in
        let not_negative : (spread ≺ nought) ≡ false = ground (
          arith,
          laws.lt_cotrans spread c.entry_spread_threshold nought zero_num.1,
          laws.le-eq-not-lt nought c.entry_spread_threshold zero_num.0 zero_num.1,
        ) in
        (evaluate_exit_lem p e').0
        ∙ (λ i.
            (d.abs p.current_basis_divergence ≻ (same_config i).max_basis_divergence)
            || ((same_best i).spread ≺ (same_config i).exit_spread_threshold)
            || is_negative (
                spread_now (find before p.long_exchange (same_rates i))
                  (find before p.short_exchange (same_rates i))))
        ∙ rw (h2, not_compressed, own, not_negative) refl
