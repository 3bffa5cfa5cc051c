-- ===== src/Scanner/Scan.antt =====
-- scan_cross_exchange and scan_triangular. The clock is read once in a scan.
use cplusplus_arbitrage.Base.{
  ℕ, ◌+◌, ltb, length, String, Bool, ◌&&◌, not, Option, none, some, List, [], ◌∷◌, ◌++◌,
  if◌then◌else◌,
}
use cplusplus_arbitrage.Double.{Double, nought, ◌⊕◌, ◌≻◌, ◌≺◌, max_of}
use cplusplus_arbitrage.SortedMap.{Map, assign, find}
use cplusplus_arbitrage.SortedMap.Text.{before}
use cplusplus_arbitrage.Scanner.{
  ExchangeQuote, CrossExchangeOpportunity, TriangularOpportunity, MultiExchangeScanner, is_stale,
  quotes_at,
}
use cplusplus_arbitrage.Scanner.Evaluate.{evaluate_pair, evaluate_triangle}

abbrev pub list_at {ℓ} : {A : Type ℓ} → String → Map String (List A) → List A
list_at k m = elim (find before k m) [ none ↦ [] | some l ↦ l ]

abbrev pub triangles : List (String × String × String)
triangles =
    ("BTC/USDT", "ETH/USDT", "ETH/BTC")
    ∷ ("BTC/USDT", "ETH/USDT", "BTC/ETH")
    ∷ ("BTC/USDT", "BNB/USDT", "BNB/BTC")
    ∷ ("ETH/USDT", "BNB/USDT", "BNB/ETH")
    ∷ []

module _ {D : Type 0} ⦃d : Double D⦄ where
  abbrev pub is_usable : ℕ → MultiExchangeScanner D → ExchangeQuote D → Bool
  is_usable now e q = q.is_valid && not (is_stale now e.config.max_quote_age_us q)

  -- `by_symbol[symbol].push_back(quote)` for each usable quote of one exchange, then of all.
  unfoldable pub group_symbols :
      ℕ
      → MultiExchangeScanner D
      → Map String (ExchangeQuote D)
      → Map String (List (ExchangeQuote D))
      → Map String (List (ExchangeQuote D))
  group_symbols now e [] grouped = grouped
  group_symbols now e ((symbol, q) ∷ m) grouped = group_symbols now e m (
      if is_usable now e q
      then assign before symbol (list_at symbol grouped ++ q ∷ []) grouped
      else grouped)

  unfoldable pub group_exchanges :
      ℕ
      → MultiExchangeScanner D
      → Map String (Map String (ExchangeQuote D))
      → Map String (List (ExchangeQuote D))
      → Map String (List (ExchangeQuote D))
  unfolding group_symbols
  group_exchanges now e [] grouped = grouped
  group_exchanges now e ((exchange, symbols) ∷ m) grouped =
      group_exchanges now e m (group_symbols now e symbols grouped)

  -- The inner loop for one quote to buy at: all others to sell at, in their order.
  unfoldable pub pairs_with :
      ExchangeQuote D
      → List (ExchangeQuote D)
      → ℕ
      → MultiExchangeScanner D
      → List (CrossExchangeOpportunity D)
  pairs_with buy_quote [] now e = []
  pairs_with buy_quote (q ∷ qs) now e =
      let rest = pairs_with buy_quote qs now e in
      let opp = evaluate_pair buy_quote q now e in
      if opp.net_spread_bps ≻ nought then opp ∷ rest else rest

  -- The outer loop, with the quotes before the one at hand.
  unfoldable pub pairs_from :
      (seen quotes : List (ExchangeQuote D))
      → ℕ
      → MultiExchangeScanner D
      → List (CrossExchangeOpportunity D)
  unfolding pairs_with
  pairs_from seen [] now e = []
  pairs_from seen (q ∷ qs) now e =
      pairs_with q (seen ++ qs) now e ++ pairs_from (seen ++ q ∷ []) qs now e

  -- A symbol with one quote has no pairs.
  unfoldable pub detect :
      Map String (List (ExchangeQuote D))
      → ℕ
      → MultiExchangeScanner D
      → List (CrossExchangeOpportunity D)
  unfolding pairs_from
  detect [] now e = []
  detect ((symbol, quotes) ∷ m) now e =
      let rest = detect m now e in
      if ltb (length quotes) 2 then rest else pairs_from [] quotes now e ++ rest

  -- What one detected opportunity does to the statistics, and to whom it is told.
  abbrev pub count : CrossExchangeOpportunity D → MultiExchangeScanner D → MultiExchangeScanner D
  count opp e =
      let s = e.stats in
      record e {
        stats = record s {
          opportunities_detected = s.opportunities_detected + 1;
          best_spread_seen_bps = max_of s.best_spread_seen_bps opp.net_spread_bps;
          actionable_opportunities =
              if opp.is_actionable
              then s.actionable_opportunities + 1
              else s.actionable_opportunities;
          total_theoretical_profit =
              if opp.is_actionable
              then s.total_theoretical_profit ⊕ opp.expected_profit_usd
              else s.total_theoretical_profit;
        };
        opportunity_log = if opp.is_actionable then opp ∷ e.opportunity_log else e.opportunity_log;
      }

  unfoldable pub count_all :
      List (CrossExchangeOpportunity D) → MultiExchangeScanner D → MultiExchangeScanner D
  count_all [] e = e
  count_all (opp ∷ opps) e = count_all opps (count opp e)

  unfoldable pub insert_opp :
      CrossExchangeOpportunity D
      → List (CrossExchangeOpportunity D)
      → List (CrossExchangeOpportunity D)
  insert_opp a [] = a ∷ []
  insert_opp a (b ∷ bs) =
      let rest = insert_opp a bs in
      if a.net_spread_bps ≺ b.net_spread_bps then b ∷ rest else a ∷ b ∷ bs

  unfoldable pub sort_opps : List (CrossExchangeOpportunity D) → List (CrossExchangeOpportunity D)
  unfolding insert_opp
  sort_opps [] = []
  sort_opps (a ∷ rest) = insert_opp a (sort_opps rest)

  unfoldable pub scan_cross_exchange :
      ℕ → MultiExchangeScanner D → MultiExchangeScanner D × List (CrossExchangeOpportunity D)
  unfolding group_exchanges detect count_all sort_opps
  scan_cross_exchange now e =
      let s = e.stats in
      let started : MultiExchangeScanner D = record e {
        stats = record s { scan_count = s.scan_count + 1 };
      } in
      let found = detect (group_exchanges now e e.quotes []) now e in
      (count_all found started, sort_opps found)

  abbrev pub triangle_of :
      String
      → (q1 q2 q3 : Option (ExchangeQuote D)) → ℕ
      → MultiExchangeScanner D
      → List (TriangularOpportunity D)
  triangle_of exchange (some q1) (some q2) (some q3) now e =
      let opp = evaluate_triangle exchange q1 q2 q3 now e in
      if q1.is_valid && q2.is_valid && q3.is_valid && (opp.gross_profit_bps ≻ nought)
      then opp ∷ []
      else []
  triangle_of exchange (some q1) (some q2) none now e = []
  triangle_of exchange (some q1) none q3 now e = []
  triangle_of exchange none q2 q3 now e = []

  unfoldable pub triangle_loop :
      String
      → Map String (ExchangeQuote D)
      → List (String × String × String)
      → ℕ
      → MultiExchangeScanner D
      → List (TriangularOpportunity D)
  triangle_loop exchange symbols [] now e = []
  triangle_loop exchange symbols ((p1, p2, p3) ∷ ts) now e =
      triangle_of exchange (find before p1 symbols) (find before p2 symbols)
        (find before p3 symbols) now e
      ++ triangle_loop exchange symbols ts now e

  unfoldable pub tell_triangles :
      List (TriangularOpportunity D) → MultiExchangeScanner D → MultiExchangeScanner D
  tell_triangles [] e = e
  tell_triangles (opp ∷ opps) e = tell_triangles opps (record e {
    triangular_log = if opp.is_actionable then opp ∷ e.triangular_log else e.triangular_log;
  })

  -- An exchange that has no quotes has no triangles either.
  unfoldable pub scan_triangular :
      String → ℕ → MultiExchangeScanner D → MultiExchangeScanner D × List (TriangularOpportunity D)
  unfolding triangle_loop tell_triangles
  scan_triangular exchange now e =
      let found = triangle_loop exchange (quotes_at exchange e.quotes) triangles now e in
      (tell_triangles found e, found)
