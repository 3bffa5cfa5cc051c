-- ===== src/Execution/Counters.antt =====
-- What no public call of the engine and no turn of its worker changes.
use cplusplus_arbitrage.Base.{
  ◌≡◌, refl, ap, ◌∙◌, ℕ, ◌+◌, String, Bool, true, false, List, [], ◌∷◌, arith,
}
use cplusplus_arbitrage.Double.{Double}
use cplusplus_arbitrage.SortedMap.{Map}
use cplusplus_arbitrage.Types.{Signal, Timestamp, Duration, TradingMode, Fill}
use cplusplus_arbitrage.Order.{Order}
use cplusplus_arbitrage.Order.Pair.{PairedOrder}
use cplusplus_arbitrage.Risk.{can_place_order, record_order_placed}
use cplusplus_arbitrage.Execution.{
  Engine, delay, store, execute, conclude, submit_order, cancel_order, cancel_all, send_live_order,
  handle_order_response, update_order_state, change_order,
}
use cplusplus_arbitrage.Execution.Simulation.{
  Draw, PairRun, simulate_fill, execute_pair, store_pair, submit_paired_order, paper_step, pair_of,
}
use cplusplus_arbitrage.Execution.Paired.{execute_pair-counts}

-- A call from outside, or a turn of the worker.
pub data Call (D : Type 0) : Type 0 where
  submits : String → Signal D → Duration → Call D
  submits_pair : PairRun D → Signal D → Signal D → Call D
  cancels : String → Call D
  cancels_all : Call D
  works : String → Draw D → Call D

abbrev pub is_paper : TradingMode → Bool
is_paper TradingMode.paper = true
is_paper _ = false

module _ {D : Type 0} ⦃d : Double D⦄ where
  unfoldable pub perform : Timestamp → Call D → Engine D → Engine D
  unfolding submit_order submit_paired_order cancel_order cancel_all paper_step
  perform now (submits id s took) e = (submit_order id s now took e).0
  perform now (submits_pair run y n) e = (submit_paired_order run y n now e).0
  perform now (cancels id) e = (cancel_order id now e).0
  perform now cancels_all e = (cancel_all now e).0
  perform now (works exchange_id draw) e = paper_step exchange_id draw now e

  unfoldable pub perform_all : List (Timestamp × Call D) → Engine D → Engine D
  unfolding perform
  perform_all [] e = e
  perform_all ((now, call) ∷ calls) e = perform_all calls (perform now call e)

  -- What the fills of the simulation move, and the queue that leads to them.
  abbrev pub filled_part : Engine D → TradingMode × Map String D × ℕ × List (Fill D) × List String
  filled_part e =
      (e.mode, e.risk.market_exposure, e.risk.open_positions, e.fill_log, e.pending_paper_orders)

  send_live_order-filled_part :
      (o : Order D) (now : Timestamp) (took : Duration) (e : Engine D)
      → filled_part (send_live_order o now took e).0 ≡ filled_part e
  unfolding send_live_order handle_order_response change_order
  send_live_order-filled_part o now took e = ground arith

  submit_order-filled_part :
      (id : String) (s : Signal D) (now : Timestamp) (took : Duration) (e : Engine D)
      → is_paper e.mode ≡ false
      → filled_part (submit_order id s now took e).0 ≡ filled_part e
  unfolding submit_order conclude execute store send_live_order handle_order_response
      update_order_state change_order can_place_order record_order_placed
  submit_order-filled_part id s now took e h = ground arith

  execute_pair-filled_part :
      (run : PairRun D) (now : Timestamp) (p : PairedOrder D) (e : Engine D)
      → is_paper e.mode ≡ false
      → filled_part (execute_pair run now p e) ≡ filled_part e
  unfolding execute_pair
  execute_pair-filled_part run now p e h =
      let e1 = (send_live_order p.yes_order now run.took e).0 in
      ground (
        arith,
        send_live_order-filled_part p.no_order (now + delay e run.took) run.took e1,
        send_live_order-filled_part p.yes_order now run.took e,
      )

  submit_paired_order-filled_part :
      (run : PairRun D) (y n : Signal D) (now : Timestamp) (e : Engine D)
      → is_paper e.mode ≡ false
      → filled_part (submit_paired_order run y n now e).0 ≡ filled_part e
  unfolding submit_paired_order store_pair store record_order_placed
  submit_paired_order-filled_part run y n now e h =
      let p = pair_of run y n now in
      ground (arith, execute_pair-filled_part run now p (store_pair p e))

  perform-filled_part :
      (now : Timestamp) (call : Call D) (e : Engine D)
      → is_paper e.mode ≡ false
      → e.pending_paper_orders ≡ []
      → filled_part (perform now call e) ≡ filled_part e
  unfolding perform cancel_order cancel_all paper_step
  perform-filled_part now (submits id s took) e h q = submit_order-filled_part id s now took e h
  perform-filled_part now (submits_pair run y n) e h q =
      submit_paired_order-filled_part run y n now e h
  perform-filled_part now (cancels id) e h q = ground arith
  perform-filled_part now cancels_all e h q = ground arith
  perform-filled_part now (works exchange_id draw) e h q = ground arith

  -- Outside of PAPER no call ever records a fill: from an engine with no waiting paper orders, the market
  -- exposures and open positions that the risk checks go by stay what they were, and the callback gets
  -- no fill, however many orders the exchange takes.
  pub perform_all-filled_part :
      (calls : List (Timestamp × Call D)) (e : Engine D)
      → is_paper e.mode ≡ false
      → e.pending_paper_orders ≡ []
      → let e' = perform_all calls e in
        (e'.risk.market_exposure ≡ e.risk.market_exposure)
        × (e'.risk.open_positions ≡ e.risk.open_positions)
        × (e'.fill_log ≡ e.fill_log)
  unfolding perform_all
  perform_all-filled_part [] e h q = (refl, refl, refl)
  perform_all-filled_part ((now, call) ∷ calls) e h q =
      let step = perform-filled_part now call e h q in
      let e1 = perform now call e in
      let (exposures, positions, fills) =
        perform_all-filled_part calls e1 (ap (λ x. is_paper x.0) step ∙ h)
          (ap (λ x. x.4) step ∙ q) in
      (exposures ∙ ap (λ x. x.1) step, positions ∙ ap (λ x. x.2) step, fills ∙ ap (λ x. x.3) step)

  submit_order-orders_filled :
      (id : String) (s : Signal D) (now : Timestamp) (took : Duration) (e : Engine D)
      → (submit_order id s now took e).0.orders_filled ≡ e.orders_filled
  unfolding submit_order conclude execute store send_live_order handle_order_response
      update_order_state change_order
  submit_order-orders_filled id s now took e = ground arith

  submit_paired_order-orders_filled :
      (run : PairRun D) (y n : Signal D) (now : Timestamp) (e : Engine D)
      → (submit_paired_order run y n now e).0.orders_filled ≡ e.orders_filled
  unfolding submit_paired_order store_pair store
  submit_paired_order-orders_filled run y n now e =
      let p = pair_of run y n now in ground (arith, execute_pair-counts run now p (store_pair p e))

  perform-orders_filled :
      (now : Timestamp) (call : Call D) (e : Engine D)
      → (perform now call e).orders_filled ≡ e.orders_filled
  unfolding perform cancel_order cancel_all paper_step simulate_fill
  perform-orders_filled now (submits id s took) e = submit_order-orders_filled id s now took e
  perform-orders_filled now (submits_pair run y n) e =
      submit_paired_order-orders_filled run y n now e
  perform-orders_filled now (cancels id) e = ground arith
  perform-orders_filled now cancels_all e = ground arith
  perform-orders_filled now (works exchange_id draw) e = ground arith

  -- The count of filled orders never moves, whatever is called and however the worker's draws fall.
  perform_all-orders_filled :
      (calls : List (Timestamp × Call D)) (e : Engine D)
      → (perform_all calls e).orders_filled ≡ e.orders_filled
  unfolding perform_all
  perform_all-orders_filled [] e = refl
  perform_all-orders_filled ((now, call) ∷ calls) e =
      perform_all-orders_filled calls (perform now call e) ∙ perform-orders_filled now call e
