-- ===== src/Funding/Totals.antt =====
-- The funding settlement engine's statistics against the events that it has told.
use cplusplus_arbitrage.Base.{
  ℕ, ◌≡◌, ◌+◌, refl, String, Bool, true, false, Option, none, some, List, [], ◌∷◌, arith, length,
  if◌then◌else◌,
}
use cplusplus_arbitrage.Double.{Double, nought, ◌⊕◌, ◌≻◌}
use cplusplus_arbitrage.Funding.{
  FundingSettlementEngine, FundingRate, FundingEvent, Position, DemoFillConfig, create,
  update_funding_rate, settle_funding, settle_positions, settle_keys, settle_all_funding, mark_of,
  matches, parse_key, check_funding_due,
}
use cplusplus_arbitrage.Funding.Fills.{FillDraw, FillRequest, simulate_fill}

-- One call of the engine.
pub data Call (D : Type 0) : Type 0 where
  updates : FundingRate D → Call D
  settles : String → String → D → D → Call D
  settles_all : List (Position D) → Call D
  simulates : FillDraw D → FillRequest D → Call D

module _ {D : Type 0} ⦃d : Double D⦄ where
  unfoldable pub perform : ℕ → Call D → FundingSettlementEngine D → FundingSettlementEngine D
  unfolding update_funding_rate settle_funding settle_all_funding simulate_fill
  perform now (updates rate) e = update_funding_rate rate e
  perform now (settles venue instrument qty mark) e =
      (settle_funding venue instrument qty mark now e).0
  perform now (settles_all ps) e = (settle_all_funding ps now e).0
  perform now (simulates draw q) e = (simulate_fill draw q now e).0

  unfoldable pub perform_all :
      List (ℕ × Call D) → FundingSettlementEngine D → FundingSettlementEngine D
  unfolding perform
  perform_all [] e = e
  perform_all ((now, call) ∷ calls) e = perform_all calls (perform now call e)

  -- The payments of the events, from the latest one back, added up in the order in which they were told.
  abbrev pub net : List (FundingEvent D) → D
  net [] = nought
  net (v ∷ log) = net log ⊕ v.payment_amount

  abbrev pub received : List (FundingEvent D) → D
  received [] = nought
  received (v ∷ log) =
      if v.payment_amount ≻ nought then received log ⊕ v.payment_amount else received log

  abbrev pub paid : List (FundingEvent D) → D
  paid [] = nought
  paid (v ∷ log) = if v.payment_amount ≻ nought then paid log else paid log ⊕ d.abs v.payment_amount

  -- The statistics recount what the callbacks were told, and orders come out in one of two ways.
  pub record IsCounted (e : FundingSettlementEngine D) : Type 0 where
    pub settlements : e.stats.funding_settlements ≡ length e.funding_log
    pub net_total : e.stats.net_funding ≡ net e.funding_log
    pub received_total : e.stats.total_funding_received ≡ received e.funding_log
    pub paid_total : e.stats.total_funding_paid ≡ paid e.funding_log
    pub orders : e.stats.orders_simulated ≡ e.stats.orders_filled + e.stats.orders_rejected

  settle_funding-IsCounted :
      (venue instrument : String) (qty mark : D) (now : ℕ) (e : FundingSettlementEngine D)
      → IsCounted e
      → IsCounted (settle_funding venue instrument qty mark now e).0
  unfolding settle_funding
  settle_funding-IsCounted venue instrument qty mark now e c = ground arith

  either-IsCounted :
      (b : Bool) (s t : FundingSettlementEngine D × D)
      → IsCounted s.0
      → IsCounted t.0
      → IsCounted (if b then s else t).0
  either-IsCounted true s t p q = p
  either-IsCounted false s t p q = q

  settle_positions-IsCounted :
      (venue instrument : String) (ps : List (Position D)) (now : ℕ)
      (s : FundingSettlementEngine D × D)
      → IsCounted s.0
      → IsCounted (settle_positions venue instrument ps now s).0
  unfolding settle_positions
  settle_positions-IsCounted venue instrument [] now (e, total) c = c
  settle_positions-IsCounted venue instrument (p ∷ ps) now (e, total) c =
      settle_positions-IsCounted venue instrument ps now _ (
        either-IsCounted (matches venue instrument p) _ (e, total)
          (settle_funding-IsCounted venue instrument p.qty (mark_of p e) now e c) c)

  parsed-IsCounted :
      (key : Option (String × String)) (ps : List (Position D)) (now : ℕ)
      (s : FundingSettlementEngine D × D)
      → IsCounted s.0
      → IsCounted
          (elim key as (λ _. FundingSettlementEngine D × D) [
            | none ↦ s
            | some (venue, instrument) ↦ settle_positions venue instrument ps now s
          ]).0
  parsed-IsCounted none ps now s c = c
  parsed-IsCounted (some (venue, instrument)) ps now s c =
      settle_positions-IsCounted venue instrument ps now s c

  settle_keys-IsCounted :
      (keys : List String) (ps : List (Position D)) (now : ℕ) (s : FundingSettlementEngine D × D)
      → IsCounted s.0
      → IsCounted (settle_keys keys ps now s).0
  unfolding settle_keys
  settle_keys-IsCounted [] ps now s c = c
  settle_keys-IsCounted (key ∷ keys) ps now s c =
      settle_keys-IsCounted keys ps now _ (parsed-IsCounted (parse_key key) ps now s c)

  perform-IsCounted :
      (now : ℕ) (call : Call D) (e : FundingSettlementEngine D)
      → IsCounted e
      → IsCounted (perform now call e)
  unfolding perform update_funding_rate settle_all_funding simulate_fill
  perform-IsCounted now (updates rate) e c = ground arith
  perform-IsCounted now (settles venue instrument qty mark) e c =
      settle_funding-IsCounted venue instrument qty mark now e c
  perform-IsCounted now (settles_all ps) e c =
      settle_keys-IsCounted (check_funding_due now e) ps now (e, nought) c
  perform-IsCounted now (simulates draw q) e c = ground arith

  perform_all-IsCounted :
      (calls : List (ℕ × Call D)) (e : FundingSettlementEngine D)
      → IsCounted e
      → IsCounted (perform_all calls e)
  unfolding perform_all
  perform_all-IsCounted [] e c = c
  perform_all-IsCounted ((now, call) ∷ calls) e c =
      perform_all-IsCounted calls (perform now call e) (perform-IsCounted now call e c)

  -- After any calls of a new engine its statistics agree with the funding events it has told: their number,
  -- the sum of their payments, and the sums of what was received and of what was paid. Each simulated
  -- order is counted as filled or as rejected.
  pub calls-IsCounted :
      (has_db : Bool) (session_id : String) (config : DemoFillConfig D) (calls : List (ℕ × Call D))
      → IsCounted (perform_all calls (create has_db session_id config))
  unfolding create
  calls-IsCounted has_db session_id config calls =
      perform_all-IsCounted calls (create has_db session_id config) (record {
        settlements = refl;
        net_total = refl;
        received_total = refl;
        paid_total = refl;
        orders = omega arith;
      })
