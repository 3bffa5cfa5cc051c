-- ===== src/Execution.antt =====
-- include/execution/execution_engine.hpp and src/execution/execution_engine.cpp, with the two order calls
-- of src/market_data/polymarket_client.cpp. One call of the engine is one step; `now` is the clock's
-- time in it, and `took` how long the exchange took to answer. What is random is an argument: the
-- orders' names, and the draws of the paper simulation.
pub mod Exchange
pub mod Simulation
pub mod Change
pub mod Submit
pub mod Cancel
pub mod Paired
pub mod Paper
pub mod Latency
pub mod Counters
pub mod Examples
use cplusplus_arbitrage.Base.{
  ℕ, ◌+◌, String, Bool, true, false, ◌&&◌, not, Option, none, some, List, [], ◌∷◌, ◌++◌,
  if◌then◌else◌,
}
use text.Mathlib.Text.{◌==◌}
use cplusplus_arbitrage.Double.{Double, ◌⊗◌, ◌⊕◌}
use cplusplus_arbitrage.SortedMap.{Map, assign, find}
use cplusplus_arbitrage.SortedMap.Text.{before}
use cplusplus_arbitrage.Types.{
  Fill, Signal, Timestamp, Duration, OrderState, TradingMode, acknowledged, limit, dry_run, paper,
  live,
}
use cplusplus_arbitrage.Order.{
  Order, new_order, is_terminal, is_filled, mark_sent, mark_acknowledged, mark_canceled,
  mark_rejected, mark_partial_fill,
}
use cplusplus_arbitrage.Order.Pair.{PairedOrder}
use cplusplus_arbitrage.Risk.{
  RiskManager, Reason, none_given, check_order, can_place_order, record_order_placed,
}
use cplusplus_arbitrage.Risk
use Exchange.{Client, OrderResponse, has_credentials, place_order, cancel_on_exchange, request_of}

-- `fill_log` and `order_log` are what the callbacks `on_fill_` and `on_order_update_` have been given.
pub record Engine (D : Type 0) : Type 0 where
  pub mode : TradingMode
  pub risk : RiskManager D
  pub client : Option (Client D)
  pub orders : Map String (Order D)
  pub paired_orders : Map String (PairedOrder D)
  pub orders_submitted : ℕ
  pub orders_filled : ℕ
  pub orders_rejected : ℕ
  pub decision_to_send_times : List Duration
  pub pending_paper_orders : List String
  pub fill_log : List (Fill D)
  pub order_log : List (Order D)

pub data Rejection (D : Type 0) : Type 0 where
  not_rejected : Rejection D
  by_risk : Reason D → Rejection D
  rate_limit_exceeded : Rejection D

pub record SubmitResult (D : Type 0) : Type 0 where
  pub accepted : Bool
  pub order_id : String
  pub rejection_reason : Rejection D

module _ {D : Type 0} where
  abbrev pub refusal : Rejection D → SubmitResult D
  refusal reason = record { accepted = false; order_id = ""; rejection_reason = reason }

  abbrev pub acceptance : String → SubmitResult D
  acceptance id = record { accepted = true; order_id = id; rejection_reason = not_rejected }

  abbrev pub reject : Rejection D → Engine D → Engine D × SubmitResult D
  reject reason e = (record e { orders_rejected = e.orders_rejected + 1 }, refusal reason)

  unfoldable pub store : Order D → Engine D → Engine D
  store o e = record e { orders = assign before o.client_order_id o e.orders }

  -- A stored order is changed, and its new state is told to the callback.
  unfoldable pub change_order : String → (Order D → Order D) → Engine D → Engine D
  change_order id f e = elim (find before id e.orders) [
    | none ↦ e
    | some o ↦ record e {
      orders = assign before id (f o) e.orders;
      order_log = e.order_log ++ f o ∷ [];
    }
  ]

  unfoldable pub update_order_state : String → OrderState → Engine D → Engine D
  unfolding change_order
  update_order_state id new_state e = change_order id (λ o. record o { state = new_state }) e

  abbrev pub respond : OrderResponse → Timestamp → Order D → Order D
  respond response now o =
      if response.success
      then mark_acknowledged response.order_id response.exchange_time_ms now o
      else mark_rejected response.error_message now o

  unfoldable pub handle_order_response : String → OrderResponse → Timestamp → Engine D → Engine D
  unfolding change_order mark_acknowledged mark_rejected
  handle_order_response id response now e = change_order id (respond response now) e

  -- The engine, and the caller's own copy of the order.
  unfoldable pub send_live_order : Order D → Timestamp → Duration → Engine D → Engine D × Order D
  unfolding handle_order_response mark_rejected mark_sent has_credentials
  send_live_order o now took e = elim e.client [
    | none ↦ (e, mark_rejected "No exchange connection" now o)
    | some c ↦
        if has_credentials c
        then (
          handle_order_response o.client_order_id (place_order c (request_of o)) (now + took)
              (record e { decision_to_send_times = e.decision_to_send_times ++ took ∷ [] }),
          mark_sent now o,
        )
        else (e, mark_rejected "Missing API credentials" now o)
  ]

  -- How long a call waits for the exchange: where no order is sent, not at all.
  unfoldable pub delay : Engine D → Duration → Duration
  unfolding has_credentials
  delay e took = elim e.mode [
    | live ↦ elim e.client [ none ↦ 0 | some c ↦ if has_credentials c then took else 0 ]
    | _ ↦ 0
  ]

  unfoldable pub get_order : String → Engine D → Option (Order D)
  get_order id e = find before id e.orders

  unfoldable pub select : (Order D → Bool) → Map String (Order D) → List (Order D)
  select test [] = []
  select test ((id, o) ∷ m) = let rest = select test m in if test o then o ∷ rest else rest

  unfoldable pub get_open_orders : Engine D → List (Order D)
  unfolding select is_terminal
  get_open_orders e = select (λ o. not (is_terminal o)) e.orders

  unfoldable pub get_orders_for_market : String → Engine D → List (Order D)
  unfolding select
  get_orders_for_market market_id e = select (λ o. o.market_id == market_id) e.orders

  -- Whether the exchange lets go of the order; outside of LIVE, or without a client, nobody is asked.
  unfoldable pub exchange_cancels : Order D → Engine D → Bool
  exchange_cancels o e = elim e.mode [
    | live ↦ elim e.client [ none ↦ true | some c ↦ cancel_on_exchange c o.exchange_order_id ]
    | _ ↦ true
  ]

  unfoldable pub cancel_order : String → Timestamp → Engine D → Engine D × Bool
  unfolding is_terminal exchange_cancels mark_canceled
  cancel_order id now e = elim (find before id e.orders) [
    | none ↦ (e, false)
    | some o ↦
        if is_terminal o
        then (e, false)
        else if exchange_cancels o e
        then (
          record e {
            orders = assign before id (mark_canceled now o) e.orders;
            order_log = e.order_log ++ mark_canceled now o ∷ [];
          },
          true,
        )
        else (e, false)
  ]

  -- The loop of `cancel_all`: the map after it, and what it tells the callback.
  unfoldable pub cancel_loop :
      Timestamp → Map String (Order D) → Map String (Order D) × List (Order D)
  unfolding is_terminal mark_canceled
  cancel_loop now [] = ([], [])
  cancel_loop now ((id, o) ∷ m) =
      let (m', told) = cancel_loop now m in
      if is_terminal o
      then ((id, o) ∷ m', told)
      else ((id, mark_canceled now o) ∷ m', mark_canceled now o ∷ told)

  unfoldable pub cancel_all : Timestamp → Engine D → Engine D × Bool
  unfolding cancel_loop
  cancel_all now e =
      let (orders, told) = cancel_loop now e.orders in
      (record e { orders = orders; order_log = e.order_log ++ told }, true)

module _ {D : Type 0} ⦃d : Double D⦄ where
  -- The switch on the mode in `submit_order`. The caller's copy of the order is dropped after it.
  unfoldable pub execute : Order D → Timestamp → Duration → Engine D → Engine D
  unfolding update_order_state send_live_order
  execute o now took e = elim e.mode [
    | dry_run ↦ update_order_state o.client_order_id acknowledged e
    | paper ↦ record e { pending_paper_orders = e.pending_paper_orders ++ o.client_order_id ∷ [] }
    | live ↦ (send_live_order o now took e).0
  ]

  -- What follows the switch.
  unfoldable pub conclude : String → Timestamp → Engine D → Engine D × SubmitResult D
  unfolding change_order record_order_placed
  conclude id now e = (
    change_order id (λ o. o)
        (record e {
          risk = record_order_placed now e.risk;
          orders_submitted = e.orders_submitted + 1;
        }),
    acceptance id,
  )

  unfoldable pub submit_order :
      String → Signal D → Timestamp → Duration → Engine D → Engine D × SubmitResult D
  unfolding store execute conclude new_order delay
  submit_order id s now took e =
      let notional = s.target_price ⊗ s.target_size in
      let risk_check = check_order s notional e.risk in
      let (risk, may) = can_place_order now e.risk in
      if not risk_check.allowed
      then reject (by_risk risk_check.reason) e
      else if not may
      then reject rate_limit_exceeded (record e { risk = risk })
      else let o : Order D =
          new_order id s.strategy_name s.market_id s.token_id s.side limit s.target_price
            s.target_size now in
        conclude id (now + delay e took) (execute o now took (store o (record e { risk = risk })))

  -- `record_fill` of the engine, which none of its other methods calls.
  unfoldable pub record_fill : String → Fill D → Timestamp → Engine D → Engine D
  unfolding mark_partial_fill
  record_fill id fill now e =
      let e' : Engine D = elim (find before id e.orders) [
        | none ↦ e
        | some o ↦
            let o' = mark_partial_fill fill now o in
            record e {
              orders = assign before id o' e.orders;
              orders_filled = if is_filled o'.state then e.orders_filled + 1 else e.orders_filled;
            }
      ] in
      record e' { risk = Risk.record_fill fill e'.risk; fill_log = e'.fill_log ++ fill ∷ [] }
