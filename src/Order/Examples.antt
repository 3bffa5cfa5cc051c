-- ===== src/Order/Examples.antt =====
-- The order's theorems at concrete orders.
use cplusplus_arbitrage.Base.{ℕ, ◌≡◌, refl, List, [], ◌∷◌, some, ◌/◌}
use cplusplus_arbitrage.Base.Int.{pos}
use cplusplus_arbitrage.Double.{nought}
use cplusplus_arbitrage.Double.Fixed.{Fixed, fixed_double}
use cplusplus_arbitrage.Types.{Fill, Timestamp, buy, limit, pending, filled}
use cplusplus_arbitrage.Order.{Order, new_order}
use cplusplus_arbitrage.Order.Accounts.{
  Event, goes_out, is_acked, fills_part, life, life_of_new_order,
}

abbrev amount : ℕ → Fixed
amount n = some (pos n)

abbrev pub part : ℕ → Fill Fixed
part n = record {
  order_id = "o1";
  trade_id = "t1";
  market_id = "m";
  token_id = "m_YES";
  side = buy;
  price = amount 5000;
  size = amount n;
  notional = amount (n / 2);
  fee = amount 10;
  fill_time = 3;
  exchange_time_ms = 0;
}

abbrev pub fresh : Order Fixed
fresh = record {
  client_order_id = "o1";
  exchange_order_id = "";
  strategy_name = "S2";
  market_id = "m";
  token_id = "m_YES";
  side = buy;
  type = limit;
  price = amount 5000;
  original_size = amount 20_000;
  filled_size = nought;
  remaining_size = amount 20_000;
  state = pending;
  created_at = 1;
  sent_at = 0;
  acked_at = 0;
  last_fill_at = 0;
  completed_at = 0;
  exchange_ack_time_ms = 0;
  fills = [];
  total_fees = nought;
  reject_reason = "";
  retry_count = 0;
}

abbrev history : List (Timestamp × Event Fixed)
history =
    (2, goes_out)
    ∷ (3, is_acked "x" 7)
    ∷ (4, fills_part (part 5000))
    ∷ (5, fills_part (part 15_000))
    ∷ []

history_ends :
    let o = life history fresh in
    (o.state ≡ filled) × (o.filled_size ≡ amount 20_000) × (o.completed_at ≡ 5)
unfolding life
history_ends = (refl, refl, refl)

life_of_new_order_example :
    let o =
      life history (new_order "o1" "S2" "m" "m_YES" buy limit (amount 5000) (amount 20_000) 1) in
    (o.fills ≡ part 5000 ∷ part 15_000 ∷ [])
    × (o.filled_size ≡ amount 20_000)
    × (o.total_fees ≡ amount 20)
life_of_new_order_example =
    life_of_new_order "o1" "S2" "m" "m_YES" buy limit (amount 5000) (amount 20_000) 1 history
