-- ===== src/Funding.antt =====
-- include/arbitrage/funding_settlement_engine.hpp, with the structs Position, Fill and FundingEvent of
-- include/persistence/session_database.hpp. `now` is the clock in microseconds during a call; the draws
-- of the random generators are arguments of `simulate_fill`. Times are not negative.
mod Data
pub mod Due
pub mod Totals
pub mod Fills
pub mod Examples
pub use Data.*
use Prim.Native.Char.{Char}
use Prim.Native.String
use Prim.Native.String.{◌++◌}
use text.Mathlib.Text.{◌==◌}
use cplusplus_arbitrage.Base.{
  ℕ, ◌+◌, ◌*◌, String, Bool, true, false, ◌&&◌, not, Option, none, some, List, [], ◌∷◌,
  if◌then◌else◌, ltb, leb, length,
}
use cplusplus_arbitrage.Base.Int.{ℤ, pos, ltb_ℤ}
use cplusplus_arbitrage.Double.{
  Double, lit, nought, ◌⊕◌, ◌⊖◌, ◌⊗◌, ◌⊘◌, ◌≼◌, ◌≻◌, ◌≺◌, max_of, min_of,
}
use cplusplus_arbitrage.SortedMap.{Map, assign, find}
use cplusplus_arbitrage.SortedMap.Text.{before}
use cplusplus_arbitrage.Types.{Side, buy, sell}

abbrev pub one_second : ℕ
one_second = 1_000_000

unfoldable pub make_key : String → String → String
make_key venue instrument = venue ++ (":" ++ instrument)

abbrev pub is_colon : Char → Bool
is_colon c = String.◌∷◌ c "" == ":"

-- `find(':')` and the two calls of `substr`.
unfoldable pub parse_key : String → Option (String × String)
parse_key String.[] = none
parse_key (String.◌∷◌ c s) =
    let rest = parse_key s in
    if is_colon c then some ("", s) else elim rest [
      | none ↦ none
      | some (venue, instrument) ↦ some (String.◌∷◌ c venue, instrument)
    ]

module _ {D : Type 0} where
  unfoldable pub update_funding_rate :
      FundingRate D → FundingSettlementEngine D → FundingSettlementEngine D
  unfolding make_key
  update_funding_rate rate e = record e {
    funding_rates = assign before (make_key rate.venue rate.instrument) rate e.funding_rates;
  }

  unfoldable pub get_funding_rate :
      String → String → FundingSettlementEngine D → Option (FundingRate D)
  unfolding make_key
  get_funding_rate venue instrument e = find before (make_key venue instrument) e.funding_rates

  -- Whether nothing has been settled since the current rate was applied.
  abbrev pub unsettled : Option ℕ → FundingRate D → Bool
  unsettled none rate = true
  unsettled (some last) rate = ltb last (rate.current_funding_time * one_second)

  abbrev pub is_due : ℕ → Option ℕ → FundingRate D → Bool
  is_due now last rate =
      ltb 0 rate.next_funding_time
      && leb (rate.next_funding_time * one_second) now
      && unsettled last rate

  unfoldable pub due_loop : ℕ → Map String ℕ → Map String (FundingRate D) → List String
  due_loop now last [] = []
  due_loop now last ((key, rate) ∷ m) =
      let rest = due_loop now last m in
      if is_due now (find before key last) rate then key ∷ rest else rest

  unfoldable pub check_funding_due : ℕ → FundingSettlementEngine D → List String
  unfolding due_loop
  check_funding_due now e = due_loop now e.last_settlement_time e.funding_rates

module _ {D : Type 0} ⦃d : Double D⦄ where
  unfoldable pub create : Bool → String → DemoFillConfig D → FundingSettlementEngine D
  create has_db session_id config = record {
    has_db = has_db;
    session_id = session_id;
    config = config;
    stats = record {
      funding_settlements = 0;
      total_funding_received = nought;
      total_funding_paid = nought;
      net_funding = nought;
      orders_simulated = 0;
      orders_filled = 0;
      orders_rejected = 0;
      total_slippage_cost = nought;
      total_fees_paid = nought;
    };
    funding_rates = [];
    last_settlement_time = [];
    funding_log = [];
    fill_log = [];
  }

  abbrev pub count_payment : D → Stats D → Stats D
  count_payment payment s = record s {
    funding_settlements = s.funding_settlements + 1;
    total_funding_received =
        if payment ≻ nought then s.total_funding_received ⊕ payment else s.total_funding_received;
    total_funding_paid =
        if payment ≻ nought then s.total_funding_paid else s.total_funding_paid ⊕ d.abs payment;
    net_funding = s.net_funding ⊕ payment;
  }

  unfoldable pub settle_funding :
      (venue instrument : String) (position_qty mark_price : D)
      → ℕ
      → FundingSettlementEngine D
      → FundingSettlementEngine D × D
  unfolding make_key
  settle_funding venue instrument position_qty mark_price now e =
      elim (find before (make_key venue instrument) e.funding_rates) [
        | none ↦ (e, nought)
        | some rate ↦
            let payment = d.neg position_qty ⊗ mark_price ⊗ rate.rate in
            let event : FundingEvent D = record {
              session_id = e.session_id;
              venue = venue;
              instrument = instrument;
              funding_rate = rate.rate;
              position_qty = position_qty;
              notional = d.abs position_qty ⊗ mark_price;
              payment_amount = payment;
              timestamp = now;
              next_funding_time = rate.next_funding_time;
            } in
            (
              record e {
                last_settlement_time =
                    assign before (make_key venue instrument) now e.last_settlement_time;
                stats = count_payment payment e.stats;
                funding_log = event ∷ e.funding_log;
              },
              payment,
            )
      ]

  abbrev pub rate_mark : Option (FundingRate D) → Position D → D
  rate_mark none p = p.mark_price
  rate_mark (some rate) p = rate.mark_price

  unfoldable pub mark_of : Position D → FundingSettlementEngine D → D
  unfolding get_funding_rate
  mark_of p e =
      let mark = rate_mark (get_funding_rate p.venue p.instrument e) p in
      if mark ≼ nought then p.avg_price else mark

  abbrev pub matches : String → String → Position D → Bool
  matches venue instrument p =
      (p.venue == venue) && (p.instrument == instrument) && not (d.eqv p.qty nought)

  -- The inner loop of `settle_all_funding`, with the total so far.
  unfoldable pub settle_positions :
      (venue instrument : String)
      → List (Position D)
      → ℕ
      → FundingSettlementEngine D × D
      → FundingSettlementEngine D × D
  unfolding settle_funding mark_of
  settle_positions venue instrument [] now (e, total) = (e, total)
  settle_positions venue instrument (p ∷ ps) now (e, total) =
      let (e', payment) = settle_funding venue instrument p.qty (mark_of p e) now e in
      settle_positions venue instrument ps now
        (if matches venue instrument p then (e', total ⊕ payment) else (e, total))

  unfoldable pub settle_keys :
      List String
      → List (Position D)
      → ℕ
      → FundingSettlementEngine D × D
      → FundingSettlementEngine D × D
  unfolding settle_positions parse_key
  settle_keys [] ps now s = s
  settle_keys (key ∷ keys) ps now s = settle_keys keys ps now (elim (parse_key key) [
    | none ↦ s
    | some (venue, instrument) ↦ settle_positions venue instrument ps now s
  ])

  unfoldable pub settle_all_funding :
      List (Position D) → ℕ → FundingSettlementEngine D → FundingSettlementEngine D × D
  unfolding settle_keys check_funding_due
  settle_all_funding ps now e = settle_keys (check_funding_due now e) ps now (e, nought)
