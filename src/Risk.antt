-- ===== src/Risk.antt =====
-- include/risk/risk_manager.hpp and src/risk/risk_manager.cpp, with RiskConfig of
-- include/config/config.hpp. Each method is one step, as under its lock; `now` is the clock's time in it.
-- Counters are unbounded: no run makes 2^31 fills or connectivity issues.
mod Data
pub mod Limits
pub mod Switch
pub mod Rate
pub mod Exposure
pub mod Examples
pub use Data.*
use cplusplus_arbitrage.Base.{
  ℕ, suc, ◌+◌, ◌-◌, String, Bool, true, false, ◌&&◌, ◌||◌, not, Option, none, some, List, [], ◌∷◌,
  ◌++◌, if◌then◌else◌, ltb, leb, length,
}
use cplusplus_arbitrage.Base.Int.{ℤ, pos, leb_ℤ}
use cplusplus_arbitrage.Double.{Double, nought, ◌⊕◌, ◌⊖◌, ◌⊗◌, ◌⊘◌, ◌≼◌, ◌≻◌, ◌≽◌}
use cplusplus_arbitrage.SortedMap.{Map, assign, erase, find}
use cplusplus_arbitrage.SortedMap.Text.{before}
use cplusplus_arbitrage.Types.{Fill, Signal, Side, Timestamp, one_minute, buy, sell}

abbrev pub max_slippage_samples : ℕ
max_slippage_samples = 50

-- `while (size() > limit) pop_front()`.
unfoldable pub pop_beyond {ℓ} : {A : Type ℓ} → ℕ → List A → List A
pop_beyond limit [] = []
pop_beyond limit (x ∷ xs) = if ltb limit (suc (length xs)) then pop_beyond limit xs else x ∷ xs

-- The loop of `can_place_order` that drops what is older than a minute.
unfoldable pub drop_old : Timestamp → List Timestamp → List Timestamp
drop_old now [] = []
drop_old now (t ∷ ts) = if ltb (t + one_minute) now then drop_old now ts else t ∷ ts

module _ {D : Type 0} where
  abbrev pub allow : CheckResult D
  allow = record { allowed = true; reason = none_given }

  abbrev pub refuse : Reason D → CheckResult D
  refuse r = record { allowed = false; reason = r }

  unfoldable pub activate_kill_switch : String → RiskManager D → RiskManager D
  activate_kill_switch reason r = record r { kill_switch_reason = reason; kill_switch = true }

  unfoldable pub deactivate_kill_switch : RiskManager D → RiskManager D
  deactivate_kill_switch r = record r { kill_switch = false; kill_switch_reason = "" }

  unfoldable pub record_connectivity_issue : Timestamp → RiskManager D → RiskManager D
  unfolding activate_kill_switch
  record_connectivity_issue now r =
      let r' : RiskManager D = record r {
        connectivity_issues = r.connectivity_issues + 1;
        last_connectivity_issue = now;
      } in
      if leb 10 r'.connectivity_issues
      then activate_kill_switch "Connectivity issues detected" r'
      else r'

  unfoldable pub should_halt_trading : Timestamp → RiskManager D → Bool
  should_halt_trading now r =
      if r.kill_switch
      then true
      else if leb 5 r.connectivity_issues
      then ltb now (r.last_connectivity_issue + one_minute)
      else false

  unfoldable pub can_place_order : Timestamp → RiskManager D → RiskManager D × Bool
  unfolding drop_old
  can_place_order now r =
      let recent = drop_old now r.order_timestamps in
      (
        record r { order_timestamps = recent },
        if leb r.config.max_orders_per_minute (length recent) then false else true,
      )

  unfoldable pub record_order_placed : Timestamp → RiskManager D → RiskManager D
  record_order_placed now r = record r { order_timestamps = r.order_timestamps ++ now ∷ [] }

  unfoldable pub update_balance : D → RiskManager D → RiskManager D
  update_balance new_balance r = record r { current_balance = new_balance }

module _ {D : Type 0} ⦃d : Double D⦄ where
  abbrev pub or_nought : Option D → D
  or_nought none = nought
  or_nought (some e) = e

  unfoldable pub create : RiskConfig D → D → RiskManager D
  create config starting_balance = record {
    config = config;
    starting_balance = starting_balance;
    current_balance = starting_balance;
    daily_pnl = nought;
    market_exposure = [];
    open_positions = 0;
    kill_switch = false;
    kill_switch_reason = "";
    recent_slippage = [];
    connectivity_issues = 0;
    last_connectivity_issue = 0;
    order_timestamps = [];
  }

  abbrev pub sum_exposure : D → Map String D → D
  sum_exposure total [] = total
  sum_exposure total ((market, exposure) ∷ m) = sum_exposure (total ⊕ exposure) m

  unfoldable pub current_exposure : RiskManager D → D
  current_exposure r = sum_exposure nought r.market_exposure

  unfoldable pub exposure_for_market : String → RiskManager D → D
  exposure_for_market market_id r = or_nought (find before market_id r.market_exposure)

  unfoldable pub available_balance : RiskManager D → D
  unfolding current_exposure
  available_balance r = r.current_balance ⊖ current_exposure r

  unfoldable pub daily_loss_remaining : RiskManager D → D
  daily_loss_remaining r = r.config.max_daily_loss ⊕ r.daily_pnl

  abbrev pub over_limit : RiskManager D → Option D → Bool
  over_limit r none = false
  over_limit r (some exposure) = exposure ≽ r.config.max_exposure_per_market

  unfoldable pub check_position_limit : String → RiskManager D → CheckResult D
  check_position_limit market_id r =
      let c = r.config in
      if leb_ℤ (d.trunc c.max_open_positions) (pos r.open_positions)
      then refuse (max_open_positions_reached c.max_open_positions)
      else if over_limit r (find before market_id r.market_exposure)
      then refuse (market_exposure_limit_reached market_id c.max_exposure_per_market)
      else allow

  unfoldable pub check_daily_loss : RiskManager D → CheckResult D
  unfolding daily_loss_remaining
  check_daily_loss r = if daily_loss_remaining r ≼ nought then refuse daily_loss_spent else allow

  unfoldable pub check_order : Signal D → D → RiskManager D → CheckResult D
  unfolding check_position_limit available_balance
  check_order signal notional r =
      let c = r.config in
      let pos_check = check_position_limit signal.market_id r in
      if r.kill_switch
      then refuse (kill_switch_active r.kill_switch_reason)
      else if notional ≻ c.max_notional_per_trade
      then refuse (notional_exceeds_max notional c.max_notional_per_trade)
      else if r.daily_pnl ≼ d.neg c.max_daily_loss
      then refuse (daily_loss_limit_reached (d.neg r.daily_pnl))
      else if not pos_check.allowed
      then pos_check
      else if notional ≻ available_balance r
      then refuse (insufficient_balance notional (available_balance r))
      else allow

  -- `market_exposure_[market]`: an entry that is missing is made, with 0.0.
  unfoldable pub touch : String → Map String D → Map String D
  touch market m = elim (find before market m) [ none ↦ assign before market nought m | some e ↦ m ]

  -- The sale's part of `record_fill`, with the exposure after it.
  unfoldable pub sell_down : String → D → RiskManager D → RiskManager D
  sell_down market left r =
      let m = assign before market left r.market_exposure in
      if left ≼ nought
      then record r {
        market_exposure = erase before market m;
        open_positions = r.open_positions - 1;
      }
      else record r { market_exposure = m }

  -- The last step is the debug line, whose argument is `market_exposure_[fill.market_id]`.
  unfoldable pub record_fill : Fill D → RiskManager D → RiskManager D
  unfolding sell_down touch exposure_for_market
  record_fill fill r =
      let notional = fill.size ⊗ fill.price in
      let held = exposure_for_market fill.market_id r in
      let r' : RiskManager D = elim fill.side [
        | buy ↦ record r {
          market_exposure = assign before fill.market_id (held ⊕ notional) r.market_exposure;
          open_positions = r.open_positions + 1;
        }
        | sell ↦ sell_down fill.market_id (held ⊖ notional) r
      ] in
      record r' { market_exposure = touch fill.market_id r'.market_exposure }

  unfoldable pub record_pnl : D → RiskManager D → RiskManager D
  unfolding activate_kill_switch
  record_pnl realized_pnl r =
      let new_balance = r.current_balance ⊕ realized_pnl in
      let r' : RiskManager D = record r {
        daily_pnl = r.daily_pnl ⊕ realized_pnl;
        current_balance = new_balance;
      } in
      if (r.starting_balance ⊖ new_balance) ⊘ r.starting_balance ≽ r.config.stop_loss_threshold
      then activate_kill_switch "Stop loss threshold exceeded" r'
      else r'

  abbrev pub count_above : D → List (Timestamp × D) → ℕ
  count_above threshold [] = 0
  count_above threshold ((t, slip) ∷ xs) =
      (if slip ≻ threshold then 1 else 0) + count_above threshold xs

  unfoldable pub record_slippage : D → Timestamp → RiskManager D → RiskManager D
  unfolding activate_kill_switch pop_beyond
  record_slippage slippage_bps now r =
      let recent =
        pop_beyond max_slippage_samples (r.recent_slippage ++ (now, slippage_bps) ∷ []) in
      let threshold = r.config.slippage_threshold_bps in
      let r' : RiskManager D = record r { recent_slippage = recent } in
      if (slippage_bps ≻ threshold) && leb 5 (count_above threshold recent)
      then activate_kill_switch "Excessive slippage detected" r'
      else r'

  unfoldable pub reset_daily_counters : RiskManager D → RiskManager D
  reset_daily_counters r = record r {
    daily_pnl = nought;
    recent_slippage = [];
    connectivity_issues = 0;
  }
