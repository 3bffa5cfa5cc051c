-- ===== src/Position.antt =====
-- include/position/position_manager.hpp and src/position/position_manager.cpp. Each method is one step,
-- as under its lock; `now` is the clock's time in it.
mod Data
pub mod Filed
pub mod Totals
pub mod Settlement
pub mod Restore
pub mod History
pub mod Examples
pub use Data.*
use cplusplus_arbitrage.Base.{
  ℕ, String, Bool, true, false, ◌&&◌, ◌||◌, not, Option, none, some, List, [], ◌∷◌, ◌++◌, map,
  if◌then◌else◌, is_some,
}
use text.Mathlib.Text.{◌==◌}
use cplusplus_arbitrage.Double.{Double, lit, nought, ◌⊕◌, ◌⊖◌, ◌⊗◌, ◌⊘◌, ◌≼◌, ◌≻◌, ◌≺◌, ◌≽◌, min_of}
use cplusplus_arbitrage.SortedMap.{Map, assign, find}
use cplusplus_arbitrage.SortedMap.Text.{before}
use cplusplus_arbitrage.Types.{Fill, Side, Timestamp, buy, sell}

module _ {D : Type 0} where
  abbrev pub values : Map String (Position D) → List (Position D)
  values [] = []
  values ((id, pos) ∷ m) = pos ∷ values m

  unfoldable pub select : (Position D → Bool) → Map String (Position D) → List (Position D)
  select test [] = []
  select test ((id, pos) ∷ m) = let rest = select test m in if test pos then pos ∷ rest else rest

  unfoldable pub get_position : String → PositionManager D → Option (Position D)
  get_position token_id m = find before token_id m.positions

  unfoldable pub get_all_positions : PositionManager D → List (Position D)
  get_all_positions m = values m.positions

  unfoldable pub get_positions_for_market : String → PositionManager D → List (Position D)
  unfolding select
  get_positions_for_market market_id m = select (λ pos. pos.market_id == market_id) m.positions

  unfoldable pub create_snapshot : Timestamp → PositionManager D → Snapshot D
  create_snapshot now m = record {
    positions = values m.positions;
    realized_pnl = m.total_realized_pnl;
    total_fees = m.total_fees;
    timestamp = now;
  }

  -- The loop of `restore_from_snapshot`.
  unfoldable pub refile : List (Position D) → Map String (Position D) → Map String (Position D)
  refile [] m = m
  refile (pos ∷ ps) m = refile ps (assign before pos.token_id pos m)

  unfoldable pub restore_from_snapshot : Snapshot D → PositionManager D → PositionManager D
  unfolding refile
  restore_from_snapshot snap m = record m {
    positions = refile snap.positions [];
    total_realized_pnl = snap.realized_pnl;
    total_fees = snap.total_fees;
  }

module _ {D : Type 0} ⦃d : Double D⦄ where
  abbrev pub total_pnl_of : Position D → D
  total_pnl_of pos = pos.realized_pnl ⊕ pos.unrealized_pnl

  abbrev pub market_value : Position D → D
  market_value pos = pos.size ⊗ pos.last_mark_price

  abbrev pub is_open : Position D → Bool
  is_open pos = (pos.size ≻ lit 1 10_000) || (pos.size ≺ d.neg (lit 1 10_000))

  unfoldable pub create : PositionManager D
  create = record {
    positions = [];
    total_realized_pnl = nought;
    daily_realized_pnl = nought;
    total_fees = nought;
  }

  -- `Position pos;` as `record_fill` sets it up.
  unfoldable pub new_position : Fill D → Timestamp → Position D
  new_position fill now = record {
    token_id = fill.token_id;
    market_id = fill.market_id;
    outcome_name = "";
    size = nought;
    avg_entry_price = nought;
    cost_basis = nought;
    realized_pnl = nought;
    total_fees = nought;
    last_mark_price = nought;
    unrealized_pnl = nought;
    first_entry = now;
    last_update = 0;
  }

  abbrev pub signed_size : Fill D → D
  signed_size fill = elim fill.side [ buy ↦ fill.size | sell ↦ d.neg fill.size ]

  abbrev pub adds_to : Fill D → Position D → Bool
  adds_to fill pos = elim fill.side [ buy ↦ pos.size ≽ nought | sell ↦ pos.size ≼ nought ]

  unfoldable pub add_to_position : Fill D → Position D → Position D
  add_to_position fill pos =
      let fill_notional = fill.price ⊗ fill.size in
      let new_size = pos.size ⊕ signed_size fill in
      record pos {
        avg_entry_price =
            if d.abs new_size ≻ lit 1 10_000
            then (pos.cost_basis ⊕ fill_notional) ⊘ d.abs new_size
            else pos.avg_entry_price;
        cost_basis = pos.cost_basis ⊕ fill_notional;
        size = new_size;
      }

  -- The profit of the part that a reducing fill closes, before its fee.
  unfoldable pub realized : Fill D → Position D → D
  realized fill pos =
      let reduction = min_of (d.abs (signed_size fill)) (d.abs pos.size) in
      if pos.size ≻ nought
      then reduction ⊗ (fill.price ⊖ pos.avg_entry_price)
      else reduction ⊗ (pos.avg_entry_price ⊖ fill.price)

  unfoldable pub reduce_position : Fill D → Position D → Position D
  unfolding realized
  reduce_position fill pos =
      let size = pos.size ⊕ signed_size fill in
      record pos {
        realized_pnl = pos.realized_pnl ⊕ (realized fill pos ⊖ fill.fee);
        size = size;
        cost_basis = d.abs size ⊗ pos.avg_entry_price;
      }

  abbrev pub charge : Fill D → Timestamp → Position D → Position D
  charge fill now pos = record pos { total_fees = pos.total_fees ⊕ fill.fee; last_update = now }

  -- The manager's totals and the position change together.
  unfoldable pub apply_fill_to_position :
      Fill D → Timestamp → PositionManager D → Position D → PositionManager D × Position D
  unfolding add_to_position reduce_position
  apply_fill_to_position fill now m pos =
      if adds_to fill pos then (m, charge fill now (add_to_position fill pos)) else (
        record m {
          total_realized_pnl = m.total_realized_pnl ⊕ (realized fill pos ⊖ fill.fee);
          daily_realized_pnl = m.daily_realized_pnl ⊕ (realized fill pos ⊖ fill.fee);
        },
        charge fill now (reduce_position fill pos),
      )

  abbrev pub or_new : Fill D → Timestamp → Option (Position D) → Position D
  or_new fill now none = new_position fill now
  or_new fill now (some pos) = pos

  unfoldable pub record_fill : Fill D → Timestamp → PositionManager D → PositionManager D
  unfolding apply_fill_to_position new_position
  record_fill fill now m =
      let pos = or_new fill now (find before fill.token_id m.positions) in
      let (m', pos') = apply_fill_to_position fill now m pos in
      record m' {
        positions = assign before fill.token_id pos' m.positions;
        total_fees = m.total_fees ⊕ fill.fee;
      }

  unfoldable pub mark_position : D → Position D → Position D
  mark_position mark_price pos = record pos {
    last_mark_price = mark_price;
    unrealized_pnl =
        if d.abs pos.size ≻ lit 1 10_000
        then pos.size ⊗ (mark_price ⊖ pos.avg_entry_price)
        else nought;
  }

  unfoldable pub mark_to_market : String → D → PositionManager D → PositionManager D
  unfolding mark_position
  mark_to_market token_id mark_price m = elim (find before token_id m.positions) [
    | none ↦ m
    | some pos ↦ record m {
      positions = assign before token_id (mark_position mark_price pos) m.positions;
    }
  ]

  unfoldable pub get_open_positions : PositionManager D → List (Position D)
  unfolding select
  get_open_positions m = select is_open m.positions

  abbrev pub sum_of : (Position D → D) → D → Map String (Position D) → D
  sum_of value total [] = total
  sum_of value total ((id, pos) ∷ m) = sum_of value (total ⊕ value pos) m

  unfoldable pub total_unrealized_pnl : PositionManager D → D
  total_unrealized_pnl m = sum_of (λ pos. pos.unrealized_pnl) nought m.positions

  unfoldable pub total_pnl : PositionManager D → D
  unfolding total_unrealized_pnl
  total_pnl m = m.total_realized_pnl ⊕ total_unrealized_pnl m

  unfoldable pub gross_exposure : PositionManager D → D
  gross_exposure m = sum_of (λ pos. d.abs (market_value pos)) nought m.positions

  unfoldable pub net_exposure : PositionManager D → D
  net_exposure m = sum_of market_value nought m.positions

  -- What a position of the market earns when the market is settled.
  unfoldable pub settlement_pnl : String → String → Position D → D
  settlement_pnl winning_token_id id pos =
      if id == winning_token_id
      then pos.size ⊗ (lit 1 1 ⊖ pos.avg_entry_price) ⊖ pos.total_fees
      else d.neg pos.cost_basis ⊖ pos.total_fees

  abbrev pub settled : String → String → Timestamp → Position D → Position D
  settled winning_token_id id now pos = record pos {
    realized_pnl = pos.realized_pnl ⊕ settlement_pnl winning_token_id id pos;
    size = nought;
    cost_basis = nought;
    unrealized_pnl = nought;
    last_update = now;
  }

  -- The loop of `record_settlement`, with the total so far.
  unfoldable pub settle_loop :
      (market_id winning_token_id : String)
      → Timestamp
      → Map String (Position D)
      → D
      → Map String (Position D) × D
  unfolding settlement_pnl
  settle_loop market_id winning_token_id now [] total = ([], total)
  settle_loop market_id winning_token_id now ((id, pos) ∷ m) total =
      let hit = pos.market_id == market_id in
      let total' = if hit then total ⊕ settlement_pnl winning_token_id id pos else total in
      let (m', end) = settle_loop market_id winning_token_id now m total' in
      ((id, if hit then settled winning_token_id id now pos else pos) ∷ m', end)

  unfoldable pub record_settlement :
      (market_id winning_token_id : String) → Timestamp → PositionManager D → PositionManager D
  unfolding settle_loop
  record_settlement market_id winning_token_id now m =
      let (positions, total) =
        settle_loop market_id winning_token_id now m.positions m.total_realized_pnl in
      record m { positions = positions; total_realized_pnl = total }

  unfoldable pub reset_daily_pnl : PositionManager D → PositionManager D
  reset_daily_pnl m = record m { daily_realized_pnl = nought }
