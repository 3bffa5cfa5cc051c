-- ===== src/Order/Pair.antt =====
-- `struct PairedOrder` (order.hpp, order.cpp): the two legs of a two-outcome trade.
use cplusplus_arbitrage.Base.{String, Bool, false, ◌&&◌, ◌||◌, not, if◌then◌else◌}
use cplusplus_arbitrage.Double.{Double, nought}
use cplusplus_arbitrage.Types.{Timestamp}
use cplusplus_arbitrage.Order.{Order, is_terminal, is_filled, filled_notional}

pub data PairState : Type 0 where
  pending yes_sent no_sent both_sent yes_filled no_filled both_filled : PairState
  partial unwinding completed failed : PairState

pub record PairedOrder (D : Type 0) : Type 0 where
  pub pair_id : String
  pub yes_order : Order D
  pub no_order : Order D
  pub state : PairState
  pub created_at : Timestamp

module _ {D : Type 0} where
  unfoldable pub needs_unwind : PairedOrder D → Bool
  unfolding is_terminal
  needs_unwind p =
      let yes_filled = is_filled p.yes_order.state in
      let no_filled = is_filled p.no_order.state in
      if is_terminal p.yes_order && is_terminal p.no_order
      then (yes_filled && not no_filled) || (no_filled && not yes_filled)
      else false

module _ {D : Type 0} ⦃d : Double D⦄ where
  unfoldable pub net_exposure : PairedOrder D → D
  net_exposure p =
      let yes_filled = is_filled p.yes_order.state in
      let no_filled = is_filled p.no_order.state in
      if yes_filled && not no_filled
      then filled_notional p.yes_order
      else if no_filled && not yes_filled
      then filled_notional p.no_order
      else nought
