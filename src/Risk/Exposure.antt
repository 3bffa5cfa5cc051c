-- ===== src/Risk/Exposure.antt =====
-- The exposure of each market over the fills.
use cplusplus_arbitrage.Base.{
  ℕ, ◌+◌, ◌-◌, ◌≡◌, All, length, some, refl, String, true, false, List, [], ◌∷◌, arith,
  if◌then◌else◌,
}
use cplusplus_arbitrage.Base.Int.{pos, leb_ℤ}
use cplusplus_arbitrage.Double.{Double, nought, ◌⊕◌, ◌⊖◌, ◌⊗◌, ◌≼◌}
use cplusplus_arbitrage.SortedMap.{Map, assign, erase, find, same, IsSorted}
use cplusplus_arbitrage.SortedMap.Order.{assign-IsSorted, erase-IsSorted}
use cplusplus_arbitrage.SortedMap.Text.{
  before, AnyKey, before-IsKeyOrder, find-assign_text, find-erase_text, find-same,
}
use cplusplus_arbitrage.Types.{Fill, Side, buy, sell}
use cplusplus_arbitrage.Risk.{
  RiskManager, or_nought, touch, record_fill, exposure_for_market, check_position_limit,
}

module _ {D : Type 0} ⦃d : Double D⦄ where
  abbrev pub Exposures : Map String D → Type 0
  Exposures m = IsSorted before AnyKey m

  touch-Exposures : (k : String) (m : Map String D) → Exposures m → Exposures (touch k m)
  unfolding touch
  touch-Exposures k m s = ground (arith, assign-IsSorted before before-IsKeyOrder k nought m tt s)

  -- A lookup after `touch` gives what `or_nought` gave before it.
  find-touch :
      (p k : String) (m : Map String D)
      → or_nought (find before p (touch k m)) ≡ or_nought (find before p m)
  unfolding touch
  find-touch p k m = ground (arith, find-assign_text p k nought m, find-same p k m)

  -- What is left of the market's exposure after the fill.
  abbrev pub exposure_after : Side → D → D → D
  exposure_after buy held notional = held ⊕ notional
  exposure_after sell held notional = if (held ⊖ notional) ≼ nought then nought else held ⊖ notional

  abbrev pub positions_after : Side → (held notional : D) → ℕ → ℕ
  positions_after buy held notional n = n + 1
  positions_after sell held notional n = if (held ⊖ notional) ≼ nought then n - 1 else n

  -- A fill moves the exposure of its own market alone: a BUY adds the fill's size times its price, a SELL
  -- subtracts it, and what is then not above 0.0 counts as none.
  pub record_fill_exposure :
      (market : String) (f : Fill D) (r : RiskManager D)
      → Exposures r.market_exposure
      → exposure_for_market market (record_fill f r) ≡ (
          if same before market f.market_id
          then exposure_after f.side (exposure_for_market market r) (f.size ⊗ f.price)
          else exposure_for_market market r)
  unfolding record_fill exposure_for_market
  record_fill_exposure market f r s =
      let held = or_nought (find before f.market_id r.market_exposure) in
      let notional = f.size ⊗ f.price in
      let bought = assign before f.market_id (held ⊕ notional) r.market_exposure in
      let sold = assign before f.market_id (held ⊖ notional) r.market_exposure in
      ground (
        arith,
        find-same market f.market_id r.market_exposure,
        find-touch market f.market_id bought,
        find-touch market f.market_id sold,
        find-touch market f.market_id (erase before f.market_id sold),
        find-assign_text market f.market_id (held ⊕ notional) r.market_exposure,
        find-assign_text market f.market_id (held ⊖ notional) r.market_exposure,
        find-erase_text market f.market_id sold
            (assign-IsSorted before before-IsKeyOrder f.market_id (held ⊖ notional) _ tt s),
      )

  -- A fill keeps the exposures in order of the markets and changes the entry of its own market alone, which
  -- it has after it in every case: a BUY has added the fill's size times its price, a SELL has subtracted
  -- it, and where that leaves 0.0 or less the entry holds 0.0. It counts a BUY as one more open position
  -- and a SELL that leaves 0.0 or less as one less, and changes nothing else of the manager.
  pub record_fill-Exposures :
      (market : String) (f : Fill D) (r : RiskManager D)
      → Exposures r.market_exposure
      → Exposures (record_fill f r).market_exposure
        × (find before market (record_fill f r).market_exposure ≡ (
            if same before market f.market_id
            then some (exposure_after f.side (exposure_for_market f.market_id r) (f.size ⊗ f.price))
            else find before market r.market_exposure))
        × (record_fill f r ≡ record r {
          market_exposure = (record_fill f r).market_exposure;
          open_positions =
              positions_after f.side
                (exposure_for_market f.market_id r)
                (f.size ⊗ f.price)
                r.open_positions;
        })
  unfolding record_fill touch exposure_for_market
  record_fill-Exposures market f r s =
      let held = or_nought (find before f.market_id r.market_exposure) in
      let notional = f.size ⊗ f.price in
      let bought = assign before f.market_id (held ⊕ notional) r.market_exposure in
      let sold = assign before f.market_id (held ⊖ notional) r.market_exposure in
      let bought_sorted : Exposures bought =
        assign-IsSorted before before-IsKeyOrder f.market_id (held ⊕ notional) _ tt s in
      let sold_sorted : Exposures sold =
        assign-IsSorted before before-IsKeyOrder f.market_id (held ⊖ notional) _ tt s in
      let erased = erase before f.market_id sold in
      let erased_sorted : Exposures erased =
        erase-IsSorted before before-IsKeyOrder f.market_id sold sold_sorted in
      ground (
        arith,
        before-IsKeyOrder.irrefl f.market_id,
        bought_sorted,
        sold_sorted,
        touch-Exposures f.market_id bought bought_sorted,
        touch-Exposures f.market_id sold sold_sorted,
        touch-Exposures f.market_id erased erased_sorted,
        find-same market f.market_id r.market_exposure,
        find-assign_text market f.market_id (held ⊕ notional) r.market_exposure,
        find-assign_text market f.market_id (held ⊖ notional) r.market_exposure,
        find-assign_text f.market_id f.market_id (held ⊕ notional) r.market_exposure,
        find-assign_text f.market_id f.market_id (held ⊖ notional) r.market_exposure,
        find-assign_text market f.market_id nought bought,
        find-assign_text market f.market_id nought sold,
        find-assign_text market f.market_id nought erased,
        find-erase_text market f.market_id sold sold_sorted,
        find-erase_text f.market_id f.market_id sold sold_sorted,
      )

  -- One fill after the other.
  unfoldable pub record_fills : List (Fill D) → RiskManager D → RiskManager D
  record_fills [] r = r
  record_fills (f ∷ fs) r = record_fills fs (record_fill f r)

  record_fills-open_positions :
      (fs : List (Fill D)) (r : RiskManager D)
      → All (λ f. f.side ≡ buy) fs
      → ((record_fills fs r).open_positions ≡ r.open_positions + length fs)
        × ((record_fills fs r).config ≡ r.config)
  unfolding record_fills record_fill
  record_fills-open_positions [] r a = (omega arith, refl)
  record_fills-open_positions (f ∷ fs) r (a, rest) =
      ground (arith, record_fills-open_positions fs (record_fill f r) rest)

  -- Every BUY fill counts as one more open position, also in a market that has one: as many of them as
  -- `max_open_positions` make the manager refuse every market.
  record_fills-check_position_limit :
      (market : String) (fs : List (Fill D)) (r : RiskManager D)
      → All (λ f. f.side ≡ buy) fs
      → leb_ℤ (d.trunc r.config.max_open_positions) (pos (length fs)) ≡ true
      → (check_position_limit market (record_fills fs r)).allowed ≡ false
  unfolding check_position_limit
  record_fills-check_position_limit market fs r a h =
      ground (arith, record_fills-open_positions fs r a)
