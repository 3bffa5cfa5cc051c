-- ===== src/DeltaNeutral/Market.antt =====
-- The basis and the funding between the venues in include/arbitrage/delta_neutral_enforcer.hpp.
use cplusplus_arbitrage.Base.{ℕ, String, false, ◌&&◌, Option, none, some, [], ◌∷◌, if◌then◌else◌}
use cplusplus_arbitrage.Double.{
  Double, lit, nought, ◌⊖◌, ◌⊗◌, ◌⊘◌, ◌≼◌, ◌≻◌, ◌≺◌, ◌≽◌, max_of, min_of,
}
use cplusplus_arbitrage.SortedMap.{Map, assign, find}
use cplusplus_arbitrage.SortedMap.Text.{before}
use cplusplus_arbitrage.Funding.{Position, is_colon}
use cplusplus_arbitrage.DeltaNeutral.{BasisSnapshot, DeltaNeutralEnforcer}

-- The part of a key before its first colon, or all of it.
unfoldable pub venue_of : String → String
venue_of String.[] = String.[]
venue_of (String.◌∷◌ c s) = let rest = venue_of s in if is_colon c then "" else String.◌∷◌ c rest

module _ {D : Type 0} ⦃d : Double D⦄ where
  -- The extremes of the basis so far, and the snapshot.
  abbrev pub add_basis :
      (key : String) (mark index : D) → D × D × BasisSnapshot D → D × D × BasisSnapshot D
  add_basis key mark index (max_basis, min_basis, snap) =
      let basis = (mark ⊖ index) ⊘ index in
      let venue = venue_of key in
      let snap' : BasisSnapshot D = record snap {
        mark_price_by_venue = assign before venue mark snap.mark_price_by_venue;
        index_price_by_venue = assign before venue index snap.index_price_by_venue;
        high_basis_venue = if basis ≻ max_basis then venue else snap.high_basis_venue;
        low_basis_venue = if basis ≺ min_basis then venue else snap.low_basis_venue;
      } in
      (
        if basis ≻ max_basis then basis else max_basis,
        if basis ≺ min_basis then basis else min_basis,
        snap',
      )

  abbrev pub visit_mark : String → D → Option D → D × D × BasisSnapshot D → D × D × BasisSnapshot D
  visit_mark key mark none s = s
  visit_mark key mark (some index) s = if index ≼ nought then s else add_basis key mark index s

  unfoldable pub basis_loop :
      (indices marks : Map String D) → D × D × BasisSnapshot D → D × D × BasisSnapshot D
  unfolding venue_of
  basis_loop indices [] s = s
  basis_loop indices ((key, mark) ∷ m) s =
      basis_loop indices m (visit_mark key mark (find before key indices) s)

  unfoldable pub compute_basis : ℕ → DeltaNeutralEnforcer D → BasisSnapshot D
  unfolding basis_loop
  compute_basis now e =
      let start : BasisSnapshot D = record {
        timestamp = now;
        mark_price_by_venue = [];
        index_price_by_venue = [];
        max_basis_divergence = nought;
        high_basis_venue = "";
        low_basis_venue = "";
        basis_spread = nought;
        is_warning = false;
        is_critical = false;
      } in
      let (max_basis, min_basis, snap) =
        basis_loop e.index_prices e.mark_prices
          (d.neg (lit 1_000_000_000 1), lit 1_000_000_000 1, start) in
      let divergence = max_basis ⊖ min_basis in
      let filled : BasisSnapshot D = record snap {
        max_basis_divergence = divergence;
        basis_spread = divergence;
        is_warning = divergence ≽ e.config.basis_divergence_warning;
        is_critical = divergence ≽ e.config.basis_divergence_limit;
      } in
      if (max_basis ≻ d.neg (lit 100_000_000 1)) && (min_basis ≺ lit 100_000_000 1)
      then filled
      else snap

  unfoldable pub rate_loop : Map String D → D × D → D × D
  rate_loop [] s = s
  rate_loop ((venue, rate) ∷ m) (max_rate, min_rate) =
      rate_loop m (max_of max_rate rate, min_of min_rate rate)

  abbrev pub spread_of_rates : Map String D → D
  spread_of_rates [] = nought
  spread_of_rates (r ∷ rates) =
      let (max_rate, min_rate) =
        rate_loop (r ∷ rates) (d.neg (lit 1_000_000_000 1), lit 1_000_000_000 1) in
      max_rate ⊖ min_rate

  unfoldable pub get_funding_spread : DeltaNeutralEnforcer D → D
  unfolding rate_loop
  get_funding_spread e = spread_of_rates e.funding_rates

  abbrev pub pay : Position D → Option D → D → D
  pay p none net = net
  pay p (some rate) net = net ⊖ p.qty ⊗ rate

  unfoldable pub direction_loop : Map String D → Map String (Position D) → D → D
  direction_loop rates [] net = net
  direction_loop rates ((key, p) ∷ ps) net =
      direction_loop rates ps (pay p (find before p.venue rates) net)

  unfoldable pub get_net_funding_direction : DeltaNeutralEnforcer D → D
  unfolding direction_loop
  get_net_funding_direction e = direction_loop e.funding_rates e.positions nought
