-- ===== src/Execution/Simulation.antt =====
-- The paper simulation of the execution engine (execution_engine.cpp): `simulate_fill`, one turn of
-- `paper_simulation_loop`, and `submit_paired_order` with what it calls. What the random generators
-- yield is an argument, a `Draw` for each simulated fill.
use cplusplus_arbitrage.Base.{ℕ, ◌+◌, String, ◌&&◌, not, none, some, [], ◌∷◌, ◌++◌, if◌then◌else◌}
use cplusplus_arbitrage.Double.{Double, lit, ◌⊗◌, ◌⊕◌, ◌⊖◌, ◌≻◌}
use cplusplus_arbitrage.SortedMap.{assign, find}
use cplusplus_arbitrage.SortedMap.Text.{before}
use cplusplus_arbitrage.Types.{
  Fill, Signal, Timestamp, Duration, buy, sell, ioc, dry_run, paper, live,
}
use cplusplus_arbitrage.Order.{
  Order, new_order, is_terminal, is_filled, mark_acknowledged, mark_canceled, mark_partial_fill,
}
use cplusplus_arbitrage.Order.Pair
use cplusplus_arbitrage.Order.Pair.{PairedOrder, needs_unwind}
use cplusplus_arbitrage.Risk.{check_order, record_order_placed}
use cplusplus_arbitrage.Risk
use cplusplus_arbitrage.Execution.{
  Engine, delay, SubmitResult, store, send_live_order, by_risk, reject, acceptance,
}

-- `fill_roll` is uniform in [0, 1), `fill_ratio` in [0.2, 0.6), `slippage` in [0.01, 0.03). The
-- clock in milliseconds is read for the fill, and for the worker's acknowledgement before it.
pub record Draw (D : Type 0) : Type 0 where
  pub fill_roll : D
  pub fill_ratio : D
  pub slippage : D
  pub trade_id : String
  pub exchange_time_ms : ℕ
  pub acknowledged_ms : ℕ

-- What a call of `submit_paired_order` takes from outside: names, draws, and the exchange's delay.
pub record PairRun (D : Type 0) : Type 0 where
  pub pair_id : String
  pub yes_id : String
  pub no_id : String
  pub yes_draw : Draw D
  pub no_draw : Draw D
  pub took : Duration

module _ {D : Type 0} ⦃d : Double D⦄ where
  unfoldable pub adverse_price : Draw D → Order D → D
  adverse_price draw o = elim o.side [
    | buy ↦ o.price ⊗ (lit 1 1 ⊕ draw.slippage)
    | sell ↦ o.price ⊗ (lit 1 1 ⊖ draw.slippage)
  ]

  unfoldable pub simulated_fill : Draw D → Timestamp → Order D → Fill D
  unfolding adverse_price
  simulated_fill draw now o =
      let price = adverse_price draw o in
      let size = o.original_size ⊗ draw.fill_ratio in
      record {
        order_id = o.client_order_id;
        trade_id = draw.trade_id;
        market_id = o.market_id;
        token_id = o.token_id;
        side = o.side;
        price = price;
        size = size;
        notional = price ⊗ size;
        fee = price ⊗ (lit 1 1 ⊖ price) ⊗ lit 624 10_000 ⊗ size;
        fill_time = now;
        exchange_time_ms = draw.exchange_time_ms;
      }

  -- The engine, and the order that the caller passes by reference.
  unfoldable pub simulate_fill : Draw D → Timestamp → Order D → Engine D → Engine D × Order D
  unfolding simulated_fill mark_canceled mark_partial_fill
  simulate_fill draw now o e =
      if draw.fill_roll ≻ lit 4 10
      then (e, mark_canceled now o)
      else let f = simulated_fill draw now o in
        (
          record e { fill_log = e.fill_log ++ f ∷ []; risk = Risk.record_fill f e.risk },
          mark_partial_fill f now o,
        )

  unfoldable pub check_unwind_needed : PairedOrder D → PairedOrder D
  unfolding needs_unwind
  check_unwind_needed p =
      if needs_unwind p
      then record p { state = Pair.partial }
      else if is_filled p.yes_order.state && is_filled p.no_order.state
      then record p { state = Pair.both_filled }
      else p

  -- The engine, and the caller's own copy of the pair.
  unfoldable pub process_paired_order :
      Draw D → Draw D → Timestamp → PairedOrder D → Engine D → Engine D × PairedOrder D
  unfolding simulate_fill check_unwind_needed store
  process_paired_order yes_draw no_draw now p e =
      let (e1, yes_order) = simulate_fill yes_draw now p.yes_order e in
      let (e2, no_order) = simulate_fill no_draw now p.no_order e1 in
      let p' : PairedOrder D = record p { yes_order = yes_order; no_order = no_order } in
      (store no_order (store yes_order e2), check_unwind_needed p')

  abbrev pub leg : String → Signal D → Timestamp → Order D
  leg id s now =
      new_order id s.strategy_name s.market_id s.token_id s.side ioc s.target_price s.target_size
        now

  abbrev pub pair_of : PairRun D → Signal D → Signal D → Timestamp → PairedOrder D
  pair_of run yes_signal no_signal now = record {
    pair_id = run.pair_id;
    yes_order = leg run.yes_id yes_signal now;
    no_order = leg run.no_id no_signal now;
    state = Pair.pending;
    created_at = now;
  }

  unfoldable pub store_pair : PairedOrder D → Engine D → Engine D
  unfolding store
  store_pair p e =
      let e' = store p.no_order (store p.yes_order e) in
      record e' { paired_orders = assign before p.pair_id p e'.paired_orders }

  -- The switch on the mode in `submit_paired_order`, whose copy of the pair is dropped after it.
  unfoldable pub execute_pair : PairRun D → Timestamp → PairedOrder D → Engine D → Engine D
  unfolding process_paired_order send_live_order delay
  execute_pair run now p e = elim e.mode [
    | dry_run ↦ e
    | paper ↦ (process_paired_order run.yes_draw run.no_draw now p e).0
    | live ↦
        (send_live_order p.no_order (now + delay e run.took) run.took
          (send_live_order p.yes_order now run.took e).0).0
  ]

  -- The two orders go out one after the other.
  abbrev pub placed_at : PairRun D → Timestamp → Engine D → Timestamp
  placed_at run now e = now + delay e run.took + delay e run.took

  unfoldable pub submit_paired_order :
      PairRun D → Signal D → Signal D → Timestamp → Engine D → Engine D × SubmitResult D
  unfolding execute_pair store_pair record_order_placed delay
  submit_paired_order run yes_signal no_signal now e =
      let total_notional =
        yes_signal.target_price ⊗ yes_signal.target_size
        ⊕ no_signal.target_price ⊗ no_signal.target_size in
      let risk_check = check_order yes_signal total_notional e.risk in
      if not risk_check.allowed
      then reject (by_risk risk_check.reason) e
      else let p = pair_of run yes_signal no_signal now in
        let e' = execute_pair run now p (store_pair p e) in
        (
          record e' {
            risk =
                record_order_placed (placed_at run now e)
                  (record_order_placed (placed_at run now e) e'.risk);
            orders_submitted = e'.orders_submitted + 2;
          },
          acceptance run.pair_id,
        )

  -- One turn of the worker, which takes the first waiting order, if there is one.
  unfoldable pub paper_step : String → Draw D → Timestamp → Engine D → Engine D
  unfolding simulate_fill mark_acknowledged is_terminal
  paper_step exchange_id draw now e = elim e.pending_paper_orders [
    | [] ↦ e
    | id ∷ waiting ↦
        let e' : Engine D = record e { pending_paper_orders = waiting } in
        elim (find before id e.orders) [
          | none ↦ e'
          | some o ↦
              if is_terminal o
              then e'
              else let acked = mark_acknowledged exchange_id draw.acknowledged_ms now o in
                let (e'', o') = simulate_fill draw now acked e' in
                record e'' {
                  orders = assign before id o' e''.orders;
                  order_log = e''.order_log ++ o' ∷ [];
                }
        ]
  ]
