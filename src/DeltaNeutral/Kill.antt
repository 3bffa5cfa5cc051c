-- ===== src/DeltaNeutral/Kill.antt =====
-- What include/arbitrage/delta_neutral_enforcer.hpp makes of the kill conditions: the most urgent signal,
-- the orders that close all positions, and the record of the kill. `show` is std::to_string.
use Prim.Native.String.{◌++◌}
use cplusplus_arbitrage.Base.{
  ℕ, ◌+◌, String, Bool, true, false, Option, none, some, List, [], ◌∷◌, if◌then◌else◌,
}
use cplusplus_arbitrage.Double.{Double, lit, nought, ◌≻◌}
use cplusplus_arbitrage.SortedMap.{Map}
use cplusplus_arbitrage.Types.{buy, sell}
use cplusplus_arbitrage.Funding.{Position}
use cplusplus_arbitrage.DeltaNeutral.{
  KillReason, basis_divergence, funding_flip, spread_collapse, exchange_halt, drawdown_limit,
  adl_risk, stablecoin_depeg, liquidation_cascade, DeltaNeutralEnforcer, KillSignal, KillEvent,
  HedgeOrder, close_all_positions,
}
use cplusplus_arbitrage.DeltaNeutral.Checks.{
  check_basis_divergence, check_funding_flip, check_spread_collapse, check_exchange_halt,
  check_drawdown_limit, check_adl_risk, check_stablecoin_depeg, check_liquidation_cascade,
}

unfoldable pub reason_to_string : KillReason → String
reason_to_string basis_divergence = "BASIS_DIVERGENCE"
reason_to_string funding_flip = "FUNDING_FLIP"
reason_to_string spread_collapse = "SPREAD_COLLAPSE"
reason_to_string exchange_halt = "EXCHANGE_HALT"
reason_to_string drawdown_limit = "DRAWDOWN_LIMIT"
reason_to_string adl_risk = "ADL_RISK"
reason_to_string stablecoin_depeg = "STABLECOIN_DEPEG"
reason_to_string liquidation_cascade = "LIQUIDATION_CASCADE"

module _ {D : Type 0} ⦃d : Double D⦄ where
  -- One turn of the loop that keeps the most urgent signal.
  abbrev pub worse : Option (KillSignal D) → Option (KillSignal D) → Option (KillSignal D)
  worse worst none = worst
  worse none (some s) = some s
  worse (some w) (some s) = if s.urgency ≻ w.urgency then some s else some w

  unfoldable pub worst_signal :
      List (Option (KillSignal D)) → Option (KillSignal D) → Option (KillSignal D)
  worst_signal [] worst = worst
  worst_signal (s ∷ signals) worst = worst_signal signals (worse worst s)

  -- The enforcer after the eight checks, and their results in the order of the source.
  unfoldable pub all_checks :
      ℕ → DeltaNeutralEnforcer D → DeltaNeutralEnforcer D × List (Option (KillSignal D))
  unfolding check_basis_divergence check_funding_flip check_spread_collapse check_exchange_halt
      check_drawdown_limit check_adl_risk check_stablecoin_depeg check_liquidation_cascade
  all_checks now e0 =
      let (e1, s1) = check_basis_divergence now e0 in
      let (e2, s2) = check_funding_flip e1 in
      let (e3, s3) = check_spread_collapse e2 in
      let (e4, s4) = check_exchange_halt now e3 in
      let (e5, s5) = check_drawdown_limit e4 in
      let (e6, s6) = check_adl_risk now e5 in
      let (e7, s7) = check_stablecoin_depeg e6 in
      let (e8, s8) = check_liquidation_cascade e7 in
      (e8, s1 ∷ s2 ∷ s3 ∷ s4 ∷ s5 ∷ s6 ∷ s7 ∷ s8 ∷ [])

  abbrev pub tell_kill : Option (KillSignal D) → DeltaNeutralEnforcer D → DeltaNeutralEnforcer D
  tell_kill none e = e
  tell_kill (some w) e =
      let s = e.stats in
      record e { stats = record s { kill_signals = s.kill_signals + 1 }; kill_log = w ∷ e.kill_log }

  unfoldable pub check_kill_conditions :
      ℕ → DeltaNeutralEnforcer D → DeltaNeutralEnforcer D × Option (KillSignal D)
  unfolding all_checks worst_signal
  check_kill_conditions now e =
      let (e', signals) = all_checks now e in
      let worst = worst_signal signals none in (tell_kill worst e', worst)

  abbrev pub kill_order : Position D → HedgeOrder D
  kill_order p = record {
    venue = p.venue;
    instrument = p.instrument;
    side = if p.qty ≻ nought then sell else buy;
    qty = d.abs p.qty;
    urgency = lit 1 1;
    reason = close_all_positions;
  }

  unfoldable pub kill_loop : Map String (Position D) → List (HedgeOrder D)
  kill_loop [] = []
  kill_loop ((key, p) ∷ ps) =
      let rest = kill_loop ps in if d.eqv p.qty nought then rest else kill_order p ∷ rest

  unfoldable pub generate_kill_orders : DeltaNeutralEnforcer D → List (HedgeOrder D)
  unfolding kill_loop
  generate_kill_orders e = kill_loop e.positions

module _ {D : Type 0} (show : D → String) where
  abbrev position_json : Position D → String
  position_json p = "{\"venue\":\"" ++ (p.venue ++ ("\",\"qty\":" ++ (show p.qty ++ "}")))

  -- The loop over the positions, each after the first with a comma before it.
  unfoldable pub positions_json : Bool → List (Position D) → String
  positions_json first [] = ""
  positions_json first (p ∷ ps) =
      (if first then "" else ",") ++ (position_json p ++ positions_json false ps)

  unfoldable pub record_kill :
      KillSignal D → List (Position D) → ℕ → DeltaNeutralEnforcer D → DeltaNeutralEnforcer D
  unfolding positions_json reason_to_string
  record_kill s closed_positions now e =
      let event : KillEvent D = record {
        session_id = e.session_id;
        reason_code = reason_to_string s.reason;
        reason_detail = s.detail;
        positions_closed_json = "[" ++ (positions_json true closed_positions ++ "]");
        timestamp = now;
        pnl_impact = s.estimated_loss;
      } in
      if e.has_db then record e { event_log = event ∷ e.event_log } else e
