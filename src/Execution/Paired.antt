-- ===== src/Execution/Paired.antt =====
-- What `submit_paired_order` does, and what the paper simulation makes of a pair.
use cplusplus_arbitrage.Base.{
  ◌≡◌, ◌∙◌, ℕ, ◌+◌, String, false, List, [], ◌∷◌, ◌++◌, arith, if◌then◌else◌,
}
use mathlib.Core.List.{append-nil, append_assoc}
use cplusplus_arbitrage.Double.{Double, lit, nought, ◌⊗◌, ◌⊕◌, ◌⊖◌, ◌≼◌, ◌≻◌}
use cplusplus_arbitrage.Types.{Signal, Timestamp, Duration, Fill}
use cplusplus_arbitrage.Order.{Order, mark_canceled, mark_partial_fill}
use cplusplus_arbitrage.Order.Pair.{PairedOrder, needs_unwind, net_exposure}
use cplusplus_arbitrage.Risk.{check_order, record_order_placed}
use cplusplus_arbitrage.Risk
use cplusplus_arbitrage.Execution.{
  Engine, delay, send_live_order, store, handle_order_response, change_order,
}
use cplusplus_arbitrage.Execution.Simulation.{
  Draw, PairRun, simulate_fill, simulated_fill, process_paired_order, check_unwind_needed,
  execute_pair, store_pair, submit_paired_order, placed_at, pair_of,
}

-- The parts of the engine that `execute_pair` leaves alone.
module _ {D : Type 0} where
  abbrev pub counts : Engine D → ℕ × ℕ × ℕ × List Timestamp
  counts e = (e.orders_submitted, e.orders_filled, e.orders_rejected, e.risk.order_timestamps)

  pub change_order-counts :
      (id : String) (f : Order D → Order D) (e : Engine D) → counts (change_order id f e) ≡ counts e
  unfolding change_order
  change_order-counts id f e = ground arith

  pub send_live_order-counts :
      (o : Order D) (now : Timestamp) (took : Duration) (e : Engine D)
      → counts (send_live_order o now took e).0 ≡ counts e
  unfolding send_live_order handle_order_response change_order
  send_live_order-counts o now took e = ground arith

module _ {D : Type 0} ⦃d : Double D⦄ where
  record_fill-order_timestamps :
      (f : Fill D) (r : Risk.RiskManager D)
      → (Risk.record_fill f r).order_timestamps ≡ r.order_timestamps
  unfolding Risk.record_fill Risk.sell_down
  record_fill-order_timestamps f r = ground arith

  pub simulate_fill-counts :
      (draw : Draw D) (now : Timestamp) (o : Order D) (e : Engine D)
      → counts (simulate_fill draw now o e).0 ≡ counts e
  unfolding simulate_fill
  simulate_fill-counts draw now o e =
      ground (arith, record_fill-order_timestamps (simulated_fill draw now o) e.risk)

  pub process_paired_order-counts :
      (yes_draw no_draw : Draw D) (now : Timestamp) (p : PairedOrder D) (e : Engine D)
      → counts (process_paired_order yes_draw no_draw now p e).0 ≡ counts e
  unfolding process_paired_order store
  process_paired_order-counts yes_draw no_draw now p e =
      let e1 = (simulate_fill yes_draw now p.yes_order e).0 in
      simulate_fill-counts no_draw now p.no_order e1
      ∙ simulate_fill-counts yes_draw now p.yes_order e

  pub execute_pair-counts :
      (run : PairRun D) (now : Timestamp) (p : PairedOrder D) (e : Engine D)
      → counts (execute_pair run now p e) ≡ counts e
  unfolding execute_pair
  execute_pair-counts run now p e =
      let e1 = (send_live_order p.yes_order now run.took e).0 in
      ground (
        arith,
        send_live_order-counts p.no_order (now + delay e run.took) run.took e1,
        send_live_order-counts p.yes_order now run.took e,
        process_paired_order-counts run.yes_draw run.no_draw now p e,
      )

  -- A pair is accepted exactly if the risk check allows the YES signal with both notionals. The rate limit
  -- is not asked, but both orders are added to its times, and both count as submitted.
  pub submit_paired_order_lem :
      (run : PairRun D) (yes_signal no_signal : Signal D) (now : Timestamp) (e : Engine D)
      → let (e', result) = submit_paired_order run yes_signal no_signal now e in
        let total =
          yes_signal.target_price ⊗ yes_signal.target_size
          ⊕ no_signal.target_price ⊗ no_signal.target_size in
        let placed = placed_at run now e in
        (result.accepted ≡ (check_order yes_signal total e.risk).allowed)
        × (e'.orders_submitted ≡ e.orders_submitted + (if result.accepted then 2 else 0))
        × (e'.orders_rejected ≡ e.orders_rejected + (if result.accepted then 0 else 1))
        × (e'.risk.order_timestamps
            ≡ e.risk.order_timestamps ++ (if result.accepted then placed ∷ placed ∷ [] else []))
  unfolding submit_paired_order store_pair store record_order_placed
  submit_paired_order_lem run yes_signal no_signal now e =
      let p = pair_of run yes_signal no_signal now in
      ground (
        arith,
        execute_pair-counts run now p (store_pair p e),
        append_assoc e.risk.order_timestamps (placed_at run now e ∷ []) (placed_at run now e ∷ []),
        append-nil e.risk.order_timestamps,
      )

  -- What is left of an order after a simulated fill.
  abbrev pub left_after : Draw D → Order D → D
  left_after draw o = o.original_size ⊖ (o.filled_size ⊕ o.original_size ⊗ draw.fill_ratio)

  abbrev pub filled_after : Draw D → Order D → D
  filled_after draw o =
      if draw.fill_roll ≻ lit 4 10
      then o.filled_size
      else o.filled_size ⊕ o.original_size ⊗ draw.fill_ratio

  -- A simulated pair whose legs would have more than 0.0001 left after their fills is
  -- never unwound, keeps its state and reports no exposure, whatever its legs have then bought, also if
  -- one of them was canceled.
  pub paper_pair :
      (yes_draw no_draw : Draw D) (now : Timestamp) (p : PairedOrder D) (e : Engine D)
      → (left_after yes_draw p.yes_order ≼ lit 1 10_000) ≡ false
      → (left_after no_draw p.no_order ≼ lit 1 10_000) ≡ false
      → let p' = (process_paired_order yes_draw no_draw now p e).1 in
        (needs_unwind p' ≡ false)
        × (p'.state ≡ p.state)
        × (net_exposure p' ≡ nought)
        × (p'.yes_order.filled_size ≡ filled_after yes_draw p.yes_order)
        × (p'.no_order.filled_size ≡ filled_after no_draw p.no_order)
  unfolding process_paired_order simulate_fill check_unwind_needed needs_unwind net_exposure
      mark_canceled mark_partial_fill simulated_fill
  paper_pair yes_draw no_draw now p e h k = ground arith
