-- ===== src/Dispersion/Analyze.antt =====
-- FundingDispersionStrategy::analyze of include/arbitrage/funding_dispersion.hpp. std::sort is a sort that
-- keeps the order of equal spreads; the library's may order those otherwise.
use cplusplus_arbitrage.Base.{
  ℕ, ◌+◌, String, Option, none, some, List, [], ◌∷◌, ◌++◌, if◌then◌else◌, ltb, length,
}
use cplusplus_arbitrage.Double.{Double, lit, nought, ◌⊕◌, ◌⊖◌, ◌⊘◌, ◌≻◌, ◌≺◌, ◌≽◌, max_of}
use cplusplus_arbitrage.SortedMap.{Map}
use cplusplus_arbitrage.SortedMap.Text.{before}
use cplusplus_arbitrage.Dispersion.{
  Analysis, FundingDispersionStrategy, FundingRateSnapshot, FundingSpread, compute_best_spread,
}

abbrev pub max_history : ℕ
max_history = 1000

-- `erase(begin())` of a vector that is not empty.
abbrev pub drop_first {ℓ} : {A : Type ℓ} → List A → List A
drop_first [] = []
drop_first (x ∷ xs) = xs

module _ {D : Type 0} ⦃d : Double D⦄ where
  abbrev pub pair_spread :
      (ex1 ex2 : String) (snap1 snap2 : FundingRateSnapshot D) → FundingSpread D
  pair_spread ex1 ex2 snap1 snap2 =
      let first_is_short = snap1.funding_rate ≻ snap2.funding_rate in
      let short_funding = if first_is_short then snap1.funding_rate else snap2.funding_rate in
      let long_funding = if first_is_short then snap2.funding_rate else snap1.funding_rate in
      record {
        long_exchange = if first_is_short then ex2 else ex1;
        short_exchange = if first_is_short then ex1 else ex2;
        symbol = snap1.symbol;
        long_funding = some long_funding;
        short_funding = some short_funding;
        spread = short_funding ⊖ long_funding;
      }

  unfoldable pub inner_loop :
      String → FundingRateSnapshot D → Map String (FundingRateSnapshot D) → List (FundingSpread D)
  inner_loop ex1 snap1 [] = []
  inner_loop ex1 snap1 ((ex2, snap2) ∷ m) =
      let rest = inner_loop ex1 snap1 m in
      if before ex1 ex2 then pair_spread ex1 ex2 snap1 snap2 ∷ rest else rest

  unfoldable pub outer_loop :
      (all rates : Map String (FundingRateSnapshot D)) → List (FundingSpread D)
  unfolding inner_loop
  outer_loop all [] = []
  outer_loop all ((ex1, snap1) ∷ m) = inner_loop ex1 snap1 all ++ outer_loop all m

  unfoldable pub insert_spread : FundingSpread D → List (FundingSpread D) → List (FundingSpread D)
  insert_spread a [] = a ∷ []
  insert_spread a (b ∷ bs) =
      let rest = insert_spread a bs in if a.spread ≺ b.spread then b ∷ rest else a ∷ b ∷ bs

  unfoldable pub sort_spreads : List (FundingSpread D) → List (FundingSpread D)
  unfolding insert_spread
  sort_spreads [] = []
  sort_spreads (a ∷ as_left) = insert_spread a (sort_spreads as_left)

  abbrev pub spreads_from : D → List (FundingSpread D) → D
  spreads_from total [] = total
  spreads_from total (a ∷ rest) = spreads_from (total ⊕ a.spread) rest

  abbrev pub average_of : List (FundingSpread D) → Option D
  average_of [] = none
  average_of (a ∷ rest) = some (spreads_from nought (a ∷ rest) ⊘ lit (length (a ∷ rest)) 1)

  abbrev pub record_spread : D → List D → List D
  record_spread spread history =
      let longer = history ++ spread ∷ [] in
      if spread ≻ nought
      then if ltb max_history (length longer) then drop_first longer else longer
      else history

  unfoldable pub analyze : FundingDispersionStrategy D → FundingDispersionStrategy D × Analysis D
  analyze e =
      let best = compute_best_spread e in
      let enter = best.spread ≽ e.config.entry_spread_threshold in
      let opportunities = sort_spreads (outer_loop e.current_rates e.current_rates) in
      let s = e.stats in
      (
        record e {
          spread_history = record_spread best.spread e.spread_history;
          stats = record s {
            opportunities_detected =
                if enter then s.opportunities_detected + 1 else s.opportunities_detected;
            best_spread_seen =
                if enter then max_of s.best_spread_seen best.spread else s.best_spread_seen;
          };
        },
        record {
          opportunities = opportunities;
          best_spread = best;
          average_spread = average_of opportunities;
          should_enter = enter;
          should_exit = best.spread ≺ e.config.exit_spread_threshold;
        },
      )
