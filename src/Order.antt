-- ===== src/Order.antt =====
-- include/execution/order.hpp and src/execution/order.cpp. `now` is what the clock shows during the
-- call; the order's name from `generate_order_id` is random, and an argument where orders are made.
pub mod Accounts
pub mod Pair
pub mod Examples
use cplusplus_arbitrage.Base.{
  ℕ, zero, ◌+◌, ◌-◌, String, Bool, true, false, ◌&&◌, ◌||◌, not, List, [], ◌∷◌, ◌++◌, foldl,
  if◌then◌else◌,
}
use cplusplus_arbitrage.Double.{Double, lit, nought, ◌⊕◌, ◌⊖◌, ◌⊗◌, ◌⊘◌, ◌≼◌}
use cplusplus_arbitrage.Types.{
  Side, OrderType, OrderState, Fill, Timestamp, Duration, pending, sent, acknowledged, partial,
  filled, canceled, rejected, expired,
}

pub record Order (D : Type 0) : Type 0 where
  pub client_order_id : String
  pub exchange_order_id : String
  pub strategy_name : String
  pub market_id : String
  pub token_id : String
  pub side : Side
  pub type : OrderType
  pub price : D
  pub original_size : D
  pub filled_size : D
  pub remaining_size : D
  pub state : OrderState
  pub created_at : Timestamp
  pub sent_at : Timestamp
  pub acked_at : Timestamp
  pub last_fill_at : Timestamp
  pub completed_at : Timestamp
  pub exchange_ack_time_ms : ℕ
  pub fills : List (Fill D)
  pub total_fees : D
  pub reject_reason : String
  pub retry_count : ℕ

abbrev pub is_filled : OrderState → Bool
is_filled OrderState.filled = true
is_filled _ = false

abbrev pub ends : OrderState → Bool
ends OrderState.filled = true
ends OrderState.canceled = true
ends OrderState.rejected = true
ends OrderState.expired = true
ends _ = false

module _ {D : Type 0} where
  unfoldable pub is_terminal : Order D → Bool
  is_terminal o = ends o.state

  unfoldable pub mark_sent : Timestamp → Order D → Order D
  mark_sent now o = record o { state = sent; sent_at = now }

  unfoldable pub mark_acknowledged : String → ℕ → Timestamp → Order D → Order D
  mark_acknowledged exchange_id exchange_time_ms now o = record o {
    exchange_order_id = exchange_id;
    exchange_ack_time_ms = exchange_time_ms;
    state = acknowledged;
    acked_at = now;
  }

  unfoldable pub mark_canceled : Timestamp → Order D → Order D
  mark_canceled now o = record o { state = canceled; completed_at = now }

  unfoldable pub mark_rejected : String → Timestamp → Order D → Order D
  mark_rejected reason now o = record o {
    state = rejected;
    reject_reason = reason;
    completed_at = now;
  }

  -- The times since `sent_at`; the clock does not go back.
  unfoldable pub time_to_ack : Order D → Duration
  time_to_ack o = elim o.state [ pending ↦ 0 | sent ↦ 0 | _ ↦ o.acked_at - o.sent_at ]

  unfoldable pub time_to_fill : Order D → Duration
  time_to_fill o = elim o.fills [ [] ↦ 0 | x ∷ xs ↦ o.last_fill_at - o.sent_at ]

module _ {D : Type 0} ⦃d : Double D⦄ where
  -- `Order order;` with the fields that the engine then sets.
  unfoldable pub new_order :
      (id strategy_name market_id token_id : String)
      → Side
      → OrderType
      → (price size : D) → Timestamp
      → Order D
  new_order id strategy_name market_id token_id side type price size now = record {
    client_order_id = id;
    exchange_order_id = "";
    strategy_name = strategy_name;
    market_id = market_id;
    token_id = token_id;
    side = side;
    type = type;
    price = price;
    original_size = size;
    filled_size = nought;
    remaining_size = size;
    state = pending;
    created_at = now;
    sent_at = 0;
    acked_at = 0;
    last_fill_at = 0;
    completed_at = 0;
    exchange_ack_time_ms = 0;
    fills = [];
    total_fees = nought;
    reject_reason = "";
    retry_count = 0;
  }

  unfoldable pub average_fill_price : Order D → D
  average_fill_price o =
      if o.filled_size ≼ nought
      then nought
      else foldl (λ total f. total ⊕ f.price ⊗ f.size) nought o.fills ⊘ o.filled_size

  unfoldable pub filled_notional : Order D → D
  unfolding average_fill_price
  filled_notional o = o.filled_size ⊗ average_fill_price o

  -- The last part of `mark_partial_fill`.
  unfoldable pub settle_state : Timestamp → Order D → Order D
  settle_state now o =
      if o.remaining_size ≼ lit 1 10_000
      then record o { state = filled; completed_at = now }
      else record o { state = partial }

  unfoldable pub mark_partial_fill : Fill D → Timestamp → Order D → Order D
  unfolding settle_state
  mark_partial_fill fill now o =
      let filled_size = o.filled_size ⊕ fill.size in
      settle_state now (record o {
        fills = o.fills ++ fill ∷ [];
        filled_size = filled_size;
        remaining_size = o.original_size ⊖ filled_size;
        total_fees = o.total_fees ⊕ fill.fee;
        last_fill_at = now;
      })

  unfoldable pub mark_filled : Timestamp → Order D → Order D
  mark_filled now o = record o { state = filled; completed_at = now; remaining_size = nought }
