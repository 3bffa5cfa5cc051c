-- ===== src/Execution/Exchange.antt =====
-- `place_order`, `cancel_order` and `has_credentials` of src/market_data/polymarket_client.cpp. What the
-- exchange answers, by way of the HTTP and JSON libraries, is the client's field `post`.
use cplusplus_arbitrage.Base.{ℕ, String, Bool, true, false, not, if◌then◌else◌}
use text.Mathlib.Text.{◌==◌}
use cplusplus_arbitrage.Types.{Side, OrderType}
use cplusplus_arbitrage.Order.{Order}

pub record OrderRequest (D : Type 0) : Type 0 where
  pub token_id : String
  pub side : Side
  pub price : D
  pub size : D
  pub type : OrderType

pub record OrderResponse : Type 0 where
  pub success : Bool
  pub order_id : String
  pub error_message : String
  pub exchange_time_ms : ℕ

-- The answer has the order's name, or a message; or an exception is caught.
pub data Reply : Type 0 where
  names : String → Reply
  complains : String → Reply
  throws : String → Reply

pub record Client (D : Type 0) : Type 0 where
  pub api_key : String
  pub post : OrderRequest D → Reply

abbrev pub failure : String → OrderResponse
failure message = record {
  success = false;
  order_id = "";
  error_message = message;
  exchange_time_ms = 0;
}

module _ {D : Type 0} where
  unfoldable pub has_credentials : Client D → Bool
  has_credentials c = not (c.api_key == "")

  unfoldable pub place_order : Client D → OrderRequest D → OrderResponse
  unfolding has_credentials
  place_order c req =
      if has_credentials c
      then elim (c.post req) [
        | names id ↦ record {
          success = true;
          order_id = id;
          error_message = "";
          exchange_time_ms = 0;
        }
        | complains message ↦ failure message
        | throws message ↦ failure message
      ]
      else failure "No API credentials set"

  -- `cancel_order` sends nothing yet.
  unfoldable pub cancel_on_exchange : Client D → String → Bool
  unfolding has_credentials
  cancel_on_exchange c order_id = has_credentials c

  -- The request that `send_live_order` makes of an order.
  abbrev pub request_of : Order D → OrderRequest D
  request_of o = record {
    token_id = o.token_id;
    side = o.side;
    price = o.price;
    size = o.original_size;
    type = o.type;
  }
