-- ===== src/Lib.antt =====
-- The trading core of the arbitrage bot: what keeps the books, decides whether an order may go out,
-- carries it through its states, and keeps the account of what it bought.
--
-- The parts, from the bottom:
--   Base, Double, SortedMap: numbers, `double` and `std::map`, for all the others.
--   Types: include/common/types.hpp, what the parts exchange (fills, signals, sides, states).
--   OrderBook: src/market_data/order_book.cpp and its header, the book of one token; OrderBook.Binary is
--     the `BinaryMarketBook` of a market with two outcomes.
--   Order: src/execution/order.cpp and its header, one order and, in Order.Pair, the two legs of a pair.
--   Risk: src/risk/risk_manager.cpp and its header, with `RiskConfig` of include/config/config.hpp.
--   Position: src/position/position_manager.cpp and its header.
--   Execution: src/execution/execution_engine.cpp and its header. The engine asks the risk manager
--     (`check_order`, `can_place_order`) before it stores an order, tells it of orders placed and of
--     simulated fills, and in LIVE sends the order through the calls of Execution.Exchange, which are
--     those of src/market_data/polymarket_client.cpp. Execution.Simulation has the paper worker and
--     the pairs. The callbacks, by which main.cpp passes fills on to the position manager and the
--     ledger, are logs of what they were given.
--   Strategy: src/strategy/strategy_base.cpp and its header. Underpricing (S2), MarketMaking (S3) and
--     StaleOdds (S1) make signals of a market's two books, which the engine submits.
--   Funding: include/arbitrage/funding_settlement_engine.hpp, the funding payments of perpetual futures, with
--     the structs it takes from include/persistence/session_database.hpp; Funding.Fills is its simulated
--     execution. It stands by itself.
--   DeltaNeutral: include/arbitrage/delta_neutral_enforcer.hpp, which watches the positions at all venues:
--     the delta and its hedge here, the basis and the funding in DeltaNeutral.Market, the eight kill
--     conditions in DeltaNeutral.Checks, and the signal and the closing orders in DeltaNeutral.Kill. Its
--     positions are those of Funding.
--   Dispersion: include/arbitrage/funding_dispersion.hpp, short the perpetual where the funding is highest
--     and long where it is lowest.
--   FundingArbitrage: include/arbitrage/funding_arbitrage.hpp, a perpetual against its spot.
--   Config: src/config/config.cpp and include/config/config.hpp, the configuration as JSON, over the library
--     nlohmann::json as an interface (Config.Data.Json, with its laws in IsJson).
--   Mechanics: include/arbitrage/exchange_mechanics.hpp, the profiles of the exchanges.
--   Scanner: src/arbitrage/multi_exchange_scanner.cpp and its header, quotes of all exchanges compared.
--
-- How the code is modelled. An object is a record with the source's fields, a method a function of the
-- source's name that takes the object last and gives back the new one, with its result if it has one.
-- A method that holds its lock throughout is one step; the engine's methods, which take theirs for parts
-- of their work, are modelled as they run when no other thread comes between. The clock is an argument
-- (`now`), in nanoseconds, under include/arbitrage in microseconds, and so is what is random: order names and the draws of the paper simulation. What
-- the exchange answers is a function of the request, a field of Execution.Exchange.Client. Log lines are
-- left out, unless they change the state, as one of `RiskManager::record_fill` does.
--
-- A `double` is a value of a type D with the operations of Double.Double. Theorems that need laws name
-- them: `IsOrdered` holds of IEEE 754 doubles with NaN and infinities, `IsExact` of sums that do not
-- round, `HasHundredths` and `HasMagnitude` of IEEE 754 doubles. Double.Fixed, amounts in ten-thousandths
-- with a NaN, has them all, and the examples run on it. `std::sqrt` is an argument. A
-- `std::map` is the list of its entries in the order of its keys; a double that is NaN is not a proper
-- key, and the theorems on the books say so.
--
-- Bounds. Counters and sizes are natural numbers: `max_levels`, `max_orders_per_minute` and the arguments
-- of the depth queries are not negative, and no counter comes near 2^31. The loop that trims a book runs
-- on as much fuel as the book has levels, which is enough, for each turn removes one. All other loops
-- follow a list. The scanner's ages wrap around at 2^64, as its uint64_t do. `std::sort` is a sort that
-- keeps the order of equal elements.
--
-- Not modelled: the HTTP and WebSocket clients but for the two order calls, the user interface, the
-- metrics and time helpers, the trade ledger and session database (files and SQL), the environment
-- variables, the funding graph optimizer and the demo harness under include/arbitrage, and the tools and
-- main program.
pub mod Base
pub mod Config
pub mod Double
pub mod SortedMap
pub mod Types
pub mod OrderBook
pub mod Order
pub mod Risk
pub mod Position
pub mod Execution
pub mod Funding
pub mod Strategy
pub mod DeltaNeutral
pub mod Dispersion
pub mod Mechanics
pub mod FundingArbitrage
pub mod Scanner
