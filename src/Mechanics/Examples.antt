-- ===== src/Mechanics/Examples.antt =====
-- A profile of the table. Amounts are ten-thousandths.
use cplusplus_arbitrage.Base.{◌≡◌, refl, some}
use cplusplus_arbitrage.Base.Int.{pos}
use cplusplus_arbitrage.Double.Fixed.{Fixed, fixed_double}
use cplusplus_arbitrage.Mechanics.{ExchangeMechanics, get_dydx_mechanics, normalize_to_8h}

abbrev dydx : ExchangeMechanics Fixed
dydx = get_dydx_mechanics

-- An hourly 0.01 is 0.08 over eight hours.
hourly_rate : normalize_to_8h (some (pos 100)) dydx ≡ some (pos 800)
unfolding normalize_to_8h get_dydx_mechanics
hourly_rate = refl
