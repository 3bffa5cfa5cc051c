-- ===== src/Execution/Submit.antt =====
-- What `submit_order` does, on each of its branches.
use cplusplus_arbitrage.Base.{
  ◌≡◌, refl, ap, ◌∙◌, ◌+◌, String, true, ◌&&◌, not, Option, none, some, [], ◌∷◌, ◌++◌, arith,
  Option-cases, inl, inr, if◌then◌else◌,
}
use cplusplus_arbitrage.Double.{Double, ◌⊗◌}
use cplusplus_arbitrage.Types.{
  Signal, Timestamp, Duration, OrderState, TradingMode, pending, acknowledged, rejected, limit,
  live,
}
use cplusplus_arbitrage.Order.{Order, new_order, mark_acknowledged, mark_rejected}
use cplusplus_arbitrage.Risk.{check_order, can_place_order, record_order_placed}
use cplusplus_arbitrage.Execution.{
  Engine, delay, store, execute, conclude, submit_order, get_order, send_live_order, respond,
  handle_order_response, update_order_state, rate_limit_exceeded, by_risk, not_rejected,
}
use cplusplus_arbitrage.Execution.Exchange.{
  Client, Reply, names, OrderRequest, has_credentials, place_order, request_of,
}
use cplusplus_arbitrage.Execution.Change.{on_found, get_order-change_order, get_order-store}

abbrev pub answered : Reply → OrderState
answered (names id) = acknowledged
answered _ = rejected

module _ {D : Type 0} where
  -- The state that the stored order of an accepted signal has in the end.
  abbrev pub outcome : TradingMode → Option (Client D) → OrderRequest D → OrderState
  outcome TradingMode.dry_run c req = acknowledged
  outcome TradingMode.paper c req = pending
  outcome TradingMode.live none req = pending
  outcome TradingMode.live (some c) req =
      if has_credentials c then answered (c.post req) else pending

  handle_order_response-state :
      (o : Order D) (c : Client D) (now : Timestamp) (e : Engine D)
      → has_credentials c ≡ true
      → get_order o.client_order_id e ≡ some o
      → on_found
          (λ x. x.state)
          (get_order o.client_order_id
            (handle_order_response o.client_order_id (place_order c (request_of o)) now e))
        ≡ some (answered (c.post (request_of o)))
  unfolding handle_order_response place_order has_credentials mark_acknowledged mark_rejected
  handle_order_response-state o c now e h f =
      ap (on_found (λ x. x.state)) (
        get_order-change_order o.client_order_id (respond (place_order c (request_of o)) now) e
        ∙ ap (on_found (respond (place_order c (request_of o)) now)) f)
      ∙ ground arith

  send_live_order-state :
      (o : Order D) (now : Timestamp) (took : Duration) (e : Engine D)
      → get_order o.client_order_id e ≡ some o
      → o.state ≡ pending
      → on_found (λ x. x.state) (get_order o.client_order_id (send_live_order o now took e).0)
        ≡ some (outcome live e.client (request_of o))
  unfolding send_live_order get_order
  send_live_order-state o now took e f p = elim (Option-cases e.client) [
    | inl h ↦ ground arith
    | inr (c, h) ↦ ground (
      arith,
      handle_order_response-state o c (now + took)
          (record e { decision_to_send_times = e.decision_to_send_times ++ took ∷ [] }),
    )
  ]

module _ {D : Type 0} ⦃d : Double D⦄ where
  execute-state :
      (o : Order D) (now : Timestamp) (took : Duration) (e : Engine D)
      → get_order o.client_order_id e ≡ some o
      → o.state ≡ pending
      → on_found (λ x. x.state) (get_order o.client_order_id (execute o now took e))
        ≡ some (outcome e.mode e.client (request_of o))
  unfolding execute get_order update_order_state
  execute-state o now took e f p = ground (
    arith,
    send_live_order-state o now took e f p,
    get_order-change_order o.client_order_id (λ x. record x { state = acknowledged }) e,
  )

  abbrev pub order_of : String → Signal D → Timestamp → Order D
  order_of id s now =
      new_order id s.strategy_name s.market_id s.token_id s.side limit s.target_price s.target_size
        now

  -- `submit_order` accepts exactly what the risk check allows and the rate limit lets pass, and names the
  -- check that refused. Each call is counted once, as submitted or as rejected.
  pub submit_order_lem :
      (id : String) (s : Signal D) (now : Timestamp) (took : Duration) (e : Engine D)
      → let (e', result) = submit_order id s now took e in
        let risk_check = check_order s (s.target_price ⊗ s.target_size) e.risk in
        let may = (can_place_order now e.risk).1 in
        (result.accepted ≡ (risk_check.allowed && may))
        × (result.rejection_reason ≡ (
            if not risk_check.allowed
            then by_risk risk_check.reason
            else if may
            then not_rejected
            else rate_limit_exceeded))
        × (e'.orders_submitted ≡ e.orders_submitted + (if result.accepted then 1 else 0))
        × (e'.orders_rejected ≡ e.orders_rejected + (if result.accepted then 0 else 1))
  unfolding submit_order
  submit_order_lem id s now took e = ground arith

  -- What the switch on the mode starts from.
  abbrev pub stored : String → Signal D → Timestamp → Engine D → Engine D
  stored id s now e = store (order_of id s now) (record e { risk = (can_place_order now e.risk).0 })

  submit_order-conclude :
      (id : String) (s : Signal D) (now : Timestamp) (took : Duration) (e : Engine D)
      → (submit_order id s now took e).1.accepted ≡ true
      → submit_order id s now took e
        ≡ conclude id
            (now + delay e took)
            (execute (order_of id s now) now took (stored id s now e))
  unfolding submit_order
  submit_order-conclude id s now took e h = ground arith

  get_order-conclude :
      (id : String) (now : Timestamp) (e : Engine D)
      → on_found (λ o. o.state) (get_order id (conclude id now e).0)
        ≡ on_found (λ o. o.state) (get_order id e)
  unfolding conclude get_order
  get_order-conclude id now e = ground (
    arith,
    get_order-change_order id (λ o. o)
        (record e {
          risk = record_order_placed now e.risk;
          orders_submitted = e.orders_submitted + 1;
        }),
  )

  -- The stored order of an accepted signal. In DRY_RUN it is ACKNOWLEDGED. In PAPER it is still PENDING,
  -- for SENT is marked on a copy. In LIVE the exchange's answer makes it ACKNOWLEDGED or REJECTED, but
  -- without a client or its credentials, where nothing was sent, it stays PENDING.
  pub submit_order_accepted :
      (id : String) (s : Signal D) (now : Timestamp) (took : Duration) (e : Engine D)
      → (submit_order id s now took e).1.accepted ≡ true
      → let e' = (submit_order id s now took e).0 in
        on_found (λ o. o.state) (get_order id e')
        ≡ some (outcome e.mode e.client (request_of (order_of id s now)))
  unfolding new_order store
  submit_order_accepted id s now took e h =
      let o = order_of id s now in
      ap (λ x. on_found (λ o. o.state) (get_order id x.0)) (submit_order-conclude id s now took e h)
      ∙ get_order-conclude id (now + delay e took) (execute o now took (stored id s now e))
      ∙ execute-state o now took (stored id s now e)
          (get_order-store o (record e { risk = (can_place_order now e.risk).0 })) refl
