-- ===== src/Position/Examples.antt =====
-- The position manager's theorems at concrete managers. Amounts are ten-thousandths.
use cplusplus_arbitrage.Base.{ℕ, ◌≡◌, refl, some, List, [], ◌∷◌}
use cplusplus_arbitrage.Base.Int
use cplusplus_arbitrage.Base.Int.{pos}
use cplusplus_arbitrage.Double.{nought}
use cplusplus_arbitrage.Double.Fixed.{Fixed, fixed_double, Fixed-IsExact}
use cplusplus_arbitrage.SortedMap.{find, assign}
use cplusplus_arbitrage.SortedMap.Text.{before}
use cplusplus_arbitrage.Types.{Fill, Side, Timestamp, buy, sell}
use cplusplus_arbitrage.Position.{
  Position, PositionManager, create, record_fill, apply_fill_to_position, create_snapshot,
  restore_from_snapshot,
}
use cplusplus_arbitrage.Position.Restore.{restore-create_snapshot}
use cplusplus_arbitrage.Position.History.{
  Call, fills, marks, settles, perform_all, IsSound, history-IsSound,
}

abbrev amount : ℕ → Fixed
amount n = some (pos n)

abbrev fill : Side → ℕ → ℕ → Fill Fixed
fill side price size = record {
  order_id = "o";
  trade_id = "t";
  market_id = "m";
  token_id = "m_YES";
  side = side;
  price = amount price;
  size = amount size;
  notional = amount 0;
  fee = amount 100;
  fill_time = 0;
  exchange_time_ms = 0;
}

-- Ten dollars' worth at 0.50: 20 shares.
abbrev long : Position Fixed
long = record {
  token_id = "m_YES";
  market_id = "m";
  outcome_name = "";
  size = amount 200_000;
  avg_entry_price = amount 5000;
  cost_basis = amount 100_000;
  realized_pnl = nought;
  total_fees = amount 100;
  last_mark_price = nought;
  unrealized_pnl = nought;
  first_entry = 1;
  last_update = 1;
}

abbrev manager : PositionManager Fixed
manager = record {
  positions = ("m_YES", long) ∷ [];
  total_realized_pnl = nought;
  daily_realized_pnl = nought;
  total_fees = amount 100;
}

first_fill : record_fill (fill buy 5000 200_000) 1 create ≡ manager
unfolding record_fill create find assign before
first_fill = refl

-- A sale of 30 shares out of 20: 10 are short, at the price at which the 20 were bought.
oversold :
    let pos' = (apply_fill_to_position (fill sell 6000 300_000) 2 manager long).1 in
    (pos'.size ≡ some (Int.negsuc 99_999))
    × (pos'.avg_entry_price ≡ amount 5000)
    × (pos'.realized_pnl ≡ amount 19_900)
unfolding apply_fill_to_position
oversold = (refl, refl, refl)

restore-create_snapshot_example :
    restore_from_snapshot (create_snapshot 9 manager) create
    ≡ record manager { daily_realized_pnl = amount 0 }
unfolding create
restore-create_snapshot_example =
    restore-create_snapshot 9 manager create ((tt, tt, tt), (refl, tt))

abbrev calls : List (Timestamp × Call Fixed)
calls =
    (1, fills (fill buy 5000 200_000))
    ∷ (2, fills (fill sell 6000 100_000))
    ∷ (3, marks "m_YES" (amount 5500))
    ∷ (4, settles "m" "m_YES")
    ∷ []

calls_run : (perform_all calls create).total_realized_pnl ≡ amount 59_700
unfolding perform_all create find assign before
calls_run = refl

history-IsSound_example : IsSound (perform_all calls create)
history-IsSound_example = history-IsSound Fixed-IsExact calls
