-- ===== src/Scanner/Found.antt =====
-- What a scan over all exchanges finds, counts and tells.
use mathlib.Core.List.Perm
use cplusplus_arbitrage.Base.{ℕ, ◌≤◌, ◌≡◌, true, false, List, [], ◌∷◌, All, String}
use cplusplus_arbitrage.Double.{Double, IsNum, nought, ◌≻◌, ◌≺◌}
use cplusplus_arbitrage.Double.Laws.{IsOrdered}
use cplusplus_arbitrage.SortedMap.{Map}
use cplusplus_arbitrage.Base.Int.{pos_part}
use cplusplus_arbitrage.Scanner.{
  ExchangeQuote, CrossExchangeOpportunity, MultiExchangeScanner, age_us,
}
use cplusplus_arbitrage.Scanner.Evaluate.{evaluate_pair}
use cplusplus_arbitrage.Scanner.Scan.{is_usable}

module _ {D : Type 0} ⦃d : Double D⦄ where
  -- A valid quote that is not older than the limit.
  abbrev pub IsUsable : ℕ → MultiExchangeScanner D → ExchangeQuote D → Type 0
  IsUsable now e q =
      (q.is_valid ≡ true)
      × (age_us now q.timestamp_us ≤ pos_part (d.trunc e.config.max_quote_age_us))

  -- The opportunity pays after fees and comes from two quotes that are valid and fresh.
  pub record IsFound (now : ℕ) (e : MultiExchangeScanner D) (opp : CrossExchangeOpportunity D)
      : Type 0 where
    pub buy_quote : ExchangeQuote D
    pub sell_quote : ExchangeQuote D
    pub buy_usable : IsUsable now e buy_quote
    pub sell_usable : IsUsable now e sell_quote
    pub evaluated : opp ≡ evaluate_pair buy_quote sell_quote now e
    pub pays : (opp.net_spread_bps ≻ nought) ≡ true

  -- No later opportunity has a better net spread.
  abbrev pub IsDescending : List (CrossExchangeOpportunity D) → Type 0
  IsDescending [] = Unit
  IsDescending (a ∷ rest) =
      All (λ b. (a.net_spread_bps ≺ b.net_spread_bps) ≡ false) rest × IsDescending rest

  -- Every quote in a group is usable.
  abbrev AllUsable : ℕ → MultiExchangeScanner D → Map String (List (ExchangeQuote D)) → Type 0
  AllUsable now e = All λ group. All (λ q. is_usable now e q ≡ true) group.1

module _ {D : Type 0} ⦃d : Double D⦄ (laws : IsOrdered D) where
  abbrev HasNum : CrossExchangeOpportunity D → Type 0
  HasNum opp = IsNum opp.net_spread_bps
