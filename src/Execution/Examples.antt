-- ===== src/Execution/Examples.antt =====
-- The execution engine's theorems at concrete engines. Amounts are ten-thousandths of a dollar.
use cplusplus_arbitrage.Base.{
  ◌≡◌, refl, ◌≤◌, ◌<◌, ◌+◌, ◌*◌, ◌/◌, ℕ, true, false, ◌&&◌, not, some, [], ◌∷◌, ◌++◌, map,
  if◌then◌else◌, arith, length, All, ltb, leb,
}
use cplusplus_arbitrage.Base.Int.{pos}
use cplusplus_arbitrage.Double.{nought, ◌⊗◌, ◌⊕◌}
use cplusplus_arbitrage.Double.Fixed.{Fixed, fixed_double}
use cplusplus_arbitrage.SortedMap.{find, same}
use cplusplus_arbitrage.SortedMap.Text.{before}
use cplusplus_arbitrage.Types.{TradingMode, paper, live}
use cplusplus_arbitrage.Order.{Order, new_order, mark_canceled}
use cplusplus_arbitrage.Order.Pair.{PairedOrder, needs_unwind, net_exposure}
use cplusplus_arbitrage.Risk.{check_order, can_place_order}
use cplusplus_arbitrage.Risk.Examples
use cplusplus_arbitrage.Execution.{
  delay, Engine, submit_order, cancel_order, cancel_all, get_order, get_open_orders, by_risk,
  not_rejected, rate_limit_exceeded,
}
use cplusplus_arbitrage.Execution.Exchange.{Client, OrderResponse, names, request_of}
use cplusplus_arbitrage.Execution.Change.{on_found}
use cplusplus_arbitrage.Execution.Submit.{
  outcome, order_of, submit_order_lem, submit_order_accepted,
}
use cplusplus_arbitrage.Execution.Cancel.{
  may_cancel, to_list, end_open, cancel_order_lem, cancel_all_lem,
}
use cplusplus_arbitrage.Execution.Simulation.{
  Draw, PairRun, submit_paired_order, process_paired_order, pair_of,
}
use cplusplus_arbitrage.Execution.Paired.{filled_after, submit_paired_order_lem, paper_pair}
use cplusplus_arbitrage.Execution.Paper.{paper_run, found, found_served, paper_run-served}
use cplusplus_arbitrage.Execution.Latency.{
  LatencyMetrics, get_latency_metrics, count, get_latency_metrics_lem,
}
use cplusplus_arbitrage.Execution.Counters.{submits, cancels, perform_all, perform_all-filled_part}

abbrev amount : ℕ → Fixed
amount n = some (pos n)

-- One order of twenty tokens at half a dollar, as the signal of the risk manager's examples has it.
abbrev order : Order Fixed
order = order_of "o1" Examples.signal 5

abbrev client : Client Fixed
client = record { api_key = "key"; post = λ req. names "x1" }

abbrev engine : TradingMode → Engine Fixed
engine mode = record {
  mode = mode;
  risk = Examples.manager;
  client = some client;
  orders = ("o1", order) ∷ [];
  paired_orders = [];
  orders_submitted = 1;
  orders_filled = 0;
  orders_rejected = 0;
  decision_to_send_times = 30 ∷ 10 ∷ 20 ∷ [];
  pending_paper_orders = [];
  fill_log = [];
  order_log = [];
}

abbrev waiting : Engine Fixed
waiting = record (engine paper) { pending_paper_orders = "o1" ∷ [] }

-- A draw that fills half of an order, and one that fills nothing.
abbrev hit : Draw Fixed
hit = record {
  fill_roll = amount 1000;
  fill_ratio = amount 5000;
  slippage = amount 200;
  trade_id = "t1";
  exchange_time_ms = 7;
  acknowledged_ms = 6;
}

abbrev miss : Draw Fixed
miss = record hit { fill_roll = amount 9000 }

abbrev run : PairRun Fixed
run = record { pair_id = "p"; yes_id = "y"; no_id = "n"; yes_draw = hit; no_draw = miss; took = 3 }

abbrev late : OrderResponse
late = record { success = true; order_id = "x1"; error_message = ""; exchange_time_ms = 0 }

abbrev pair : PairedOrder Fixed
pair = pair_of run Examples.signal Examples.signal 8

submit_order_lem_example :
    let (e', result) = submit_order "o2" Examples.signal 8 3 (engine live) in
    let risk_check =
      check_order Examples.signal
        (Examples.signal.target_price ⊗ Examples.signal.target_size)
        (engine live).risk in
    let may = (can_place_order 8 (engine live).risk).1 in
    (result.accepted ≡ (risk_check.allowed && may))
    × (result.rejection_reason ≡ (
        if not risk_check.allowed
        then by_risk risk_check.reason
        else if may
        then not_rejected
        else rate_limit_exceeded))
    × (e'.orders_submitted ≡ (engine live).orders_submitted + (if result.accepted then 1 else 0))
    × (e'.orders_rejected ≡ (engine live).orders_rejected + (if result.accepted then 0 else 1))
submit_order_lem_example = submit_order_lem "o2" Examples.signal 8 3 (engine live)

submit_order_accepted_example :
    let e' = (submit_order "o2" Examples.signal 8 3 (engine live)).0 in
    on_found (λ o. o.state) (get_order "o2" e')
    ≡ some (
        outcome
          (engine live).mode
          (engine live).client
          (request_of (order_of "o2" Examples.signal 8)))
unfolding submit_order check_order find before can_place_order
submit_order_accepted_example = submit_order_accepted "o2" Examples.signal 8 3 (engine live) refl

cancel_order_lem_example :
    let (e', done) = cancel_order "o1" 9 (engine live) in
    (done ≡ may_cancel (engine live) (get_order "o1" (engine live)))
    × (get_order "o1" e' ≡ (
        if done && same before "o1" "o1"
        then on_found (mark_canceled 9) (get_order "o1" (engine live))
        else get_order "o1" (engine live)))
    × (e'.order_log ≡ (engine live).order_log ++ (if done then to_list (get_order "o1" e') else []))
    × (e' ≡ (
        if done
        then record (engine live) { orders = e'.orders; order_log = e'.order_log }
        else engine live))
cancel_order_lem_example = cancel_order_lem "o1" "o1" 9 (engine live)

cancel_all_lem_example :
    let e' = (cancel_all 9 (engine paper)).0 in
    (get_open_orders e' ≡ [])
    × (get_order "o1" e' ≡ on_found (end_open 9) (get_order "o1" (engine paper)))
    × (e'.order_log
        ≡ (engine paper).order_log ++ map (mark_canceled 9) (get_open_orders (engine paper)))
cancel_all_lem_example = cancel_all_lem "o1" 9 (engine paper)

submit_paired_order_lem_example :
    let (e', result) = submit_paired_order run Examples.signal Examples.signal 8 (engine paper) in
    let total =
      Examples.signal.target_price ⊗ Examples.signal.target_size
      ⊕ Examples.signal.target_price ⊗ Examples.signal.target_size in
    (result.accepted ≡ (check_order Examples.signal total (engine paper).risk).allowed)
    × (e'.orders_submitted ≡ (engine paper).orders_submitted + (if result.accepted then 2 else 0))
    × (e'.orders_rejected ≡ (engine paper).orders_rejected + (if result.accepted then 0 else 1))
    × (e'.risk.order_timestamps
        ≡ (engine paper).risk.order_timestamps ++ (if result.accepted then 8 ∷ 8 ∷ [] else []))
unfolding delay
submit_paired_order_lem_example =
    submit_paired_order_lem run Examples.signal Examples.signal 8 (engine paper)

paper_pair_example :
    let p' = (process_paired_order hit miss 8 pair (engine paper)).1 in
    (needs_unwind p' ≡ false)
    × (p'.state ≡ pair.state)
    × (net_exposure p' ≡ nought)
    × (p'.yes_order.filled_size ≡ filled_after hit pair.yes_order)
    × (p'.no_order.filled_size ≡ filled_after miss pair.no_order)
unfolding new_order
paper_pair_example = paper_pair hit miss 8 pair (engine paper) refl refl

paper_run-served_example :
    let e' = paper_run (("x1", hit, 9) ∷ []) waiting in
    (e'.pending_paper_orders ≡ [])
    × All (λ id. found_served id e' ≡ found id waiting) waiting.pending_paper_orders
paper_run-served_example = paper_run-served (("x1", hit, 9) ∷ []) waiting (omega arith)

abbrev no_metrics : LatencyMetrics
no_metrics = record {
  market_update_to_decision = 0;
  decision_to_order_send = 0;
  order_send_to_ack = 0;
  ack_to_fill = 0;
  total_round_trip = 0;
  p50_decision_to_send = 0;
  p95_decision_to_send = 0;
  samples = 0;
}

get_latency_metrics_lem_example :
    let m = get_latency_metrics no_metrics (engine live) in
    let times = (engine live).decision_to_send_times in
    (m.samples ≡ length times)
    × (count (λ t. ltb t m.p50_decision_to_send) times ≤ length times * 50 / 100)
    × (length times * 50 / 100 < count (λ t. leb t m.p50_decision_to_send) times)
    × (count (λ t. ltb t m.p95_decision_to_send) times ≤ length times * 95 / 100)
    × (length times * 95 / 100 < count (λ t. leb t m.p95_decision_to_send) times)
    × (m.p50_decision_to_send ≤ m.p95_decision_to_send)
get_latency_metrics_lem_example = get_latency_metrics_lem no_metrics (engine live) (omega arith)

perform_all-filled_part_example :
    let e' =
      perform_all ((6, submits "o2" Examples.signal 3) ∷ (7, cancels "o1") ∷ []) (engine live) in
    (e'.risk.market_exposure ≡ (engine live).risk.market_exposure)
    × (e'.risk.open_positions ≡ (engine live).risk.open_positions)
    × (e'.fill_log ≡ (engine live).fill_log)
perform_all-filled_part_example =
    perform_all-filled_part ((6, submits "o2" Examples.signal 3) ∷ (7, cancels "o1") ∷ [])
      (engine live) refl refl
