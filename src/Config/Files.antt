-- ===== src/Config/Files.antt =====
-- `Config::validate`, `Config::load` and `Config::save` of src/config/config.cpp. The log lines are left out.
use cplusplus_arbitrage.Base.{Bool, true, false, ◌||◌, Option, none, some, if◌then◌else◌}
use cplusplus_arbitrage.Double.{Double, nought, ◌≼◌, ◌≻◌, ◌≺◌}
use cplusplus_arbitrage.Config.Data.{
  Config, LoadResult, loaded, cannot_open, json_error, invalid, Json,
}
use cplusplus_arbitrage.Config.{◌>>=◌, to_json, from_json}

module _ {D : Type 0} ⦃d : Double D⦄ where
  unfoldable pub validate : Config D → Bool
  validate c =
      if c.starting_balance_usdc ≼ nought
      then false
      else if c.risk.max_notional_per_trade ≼ nought
      then false
      else if (c.risk.max_daily_loss ≼ nought) || (c.risk.max_daily_loss ≻ c.starting_balance_usdc)
      then false
      else if c.strategy.min_edge_cents ≺ nought
      then false
      else true

  -- The end of `load`.
  abbrev pub checked : Option (Config D) → LoadResult D
  checked none = json_error
  checked (some c) = if validate c then loaded c else invalid

module _ {D J T : Type 0} ⦃d : Double D⦄ where
  -- `file` is what the file holds, if it can be opened, and `defaults` a `Config` as it is constructed.
  unfoldable pub load : Json D J T → (defaults : Config D) → Option T → LoadResult D
  unfolding from_json validate
  load json defaults none = cannot_open
  load json defaults (some file) = checked (do j ← json.parse file; from_json json j defaults)

  -- What the file holds afterwards, or none if it cannot be opened, where the source throws.
  unfoldable pub save : Json D J T → (opens : Bool) → Config D → Option T
  unfolding to_json
  save json opens c = if opens then some (json.dump (to_json json c)) else none
