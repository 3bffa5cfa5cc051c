-- ===== src/Risk/Limits.antt =====
-- The daily loss limit, where two methods draw it.
use cplusplus_arbitrage.Base.{◌≡◌, false, arith}
use cplusplus_arbitrage.Double.{Double, IsNum, ◌⊕◌}
use cplusplus_arbitrage.Double.Laws.{IsOrdered}
use cplusplus_arbitrage.Types.{Signal}
use cplusplus_arbitrage.Risk.{RiskManager, check_order, check_daily_loss}

module _ {D : Type 0} ⦃d : Double D⦄ (laws : IsOrdered D) where
  open laws use {num_ratio, le-eq-not-lt, lt_trans, lt_irrefl, add-le-zero, num_of_lt}

  -- `check_daily_loss` and `check_order` draw one line: what the first refuses, the second refuses too,
  -- whatever the order, if the rest of the allowance is not NaN.
  check_daily_loss-check_order :
      (signal : Signal D) (notional : D) (r : RiskManager D)
      → IsNum (r.config.max_daily_loss ⊕ r.daily_pnl)
      → (check_daily_loss r).allowed ≡ false
      → (check_order signal notional r).allowed ≡ false
  unfolding check_daily_loss check_order
  check_daily_loss-check_order signal notional r n h =
      ground (arith, add-le-zero r.config.max_daily_loss r.daily_pnl n)
