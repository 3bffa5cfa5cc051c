-- ===== src/Config/Roundtrip.antt =====
-- A configuration that is converted to JSON and read back, and one that is saved and loaded.
use cplusplus_arbitrage.Base.{ℕ, ◌≡◌, refl, String, Bool, true, Option, some, List, if◌then◌else◌}
use cplusplus_arbitrage.Double.{Double}
use cplusplus_arbitrage.Types.{TradingMode}
use cplusplus_arbitrage.Risk.{RiskConfig}
use cplusplus_arbitrage.Strategy.{StrategyConfig}
use cplusplus_arbitrage.Config.Data.{
  Json, IsJson, member, Config, ConnectionConfig, LoggingConfig, loaded, invalid,
}
use cplusplus_arbitrage.Config.{
  field, risk_to_json, risk_from_json, strategy_to_json, strategy_from_json, connection_to_json,
  connection_from_json, logging_to_json, logging_from_json, to_json, from_json, mode_from, mode_str,
  get_mode,
}
use cplusplus_arbitrage.Config.Files.{validate, load, save}

mode_from-mode_str : (m old : TradingMode) → mode_from (mode_str m) old ≡ m
unfolding mode_from mode_str
mode_from-mode_str TradingMode.dry_run old = refl
mode_from-mode_str TradingMode.paper old = refl
mode_from-mode_str TradingMode.live old = refl

module _ {D J T : Type 0} {json : Json D J T} (laws : IsJson json) where
  -- A field is read back from an object that has it, if its value converts back.
  field-object :
      {A : Type 0} (get : J → Option A) (key : String) (l : List (String × J)) (old : A) {j : J}
      {a : A}
      → get j ≡ some a
      → member key l ≡ some j
      → field json key get (json.object l) old ≡ some a
  unfolding field
  field-object get key l old k h = rw (laws.contains-object key l, laws.at-object key l, h) k

  double_field :
      (key : String) (l : List (String × J)) (old : D) {x : D}
      → member key l ≡ some (json.of_double x)
      → field json key json.get_double (json.object l) old ≡ some x
  double_field key l old = field-object _ key l old (laws.double_back _)

  int_field :
      (key : String) (l : List (String × J)) (old : ℕ) {n : ℕ}
      → member key l ≡ some (json.of_int n)
      → field json key json.get_int (json.object l) old ≡ some n
  int_field key l old = field-object _ key l old (laws.int_back _)

  bool_field :
      (key : String) (l : List (String × J)) (old : Bool) {b : Bool}
      → member key l ≡ some (json.of_bool b)
      → field json key json.get_bool (json.object l) old ≡ some b
  bool_field key l old = field-object _ key l old (laws.bool_back _)

  string_field :
      (key : String) (l : List (String × J)) (old : String) {s : String}
      → member key l ≡ some (json.of_string s)
      → field json key json.get_string (json.object l) old ≡ some s
  string_field key l old = field-object _ key l old (laws.string_back _)

  risk_from_json-risk_to_json :
      (c c0 : RiskConfig D) → risk_from_json json (risk_to_json json c) c0 ≡ some c
  unfolding risk_from_json risk_to_json
  risk_from_json-risk_to_json c c0 =
      rw
        (
          double_field "max_notional_per_trade" _ c0.max_notional_per_trade refl,
          double_field "max_daily_loss" _ c0.max_daily_loss refl,
          double_field "max_open_positions" _ c0.max_open_positions refl,
          double_field "max_exposure_per_market" _ c0.max_exposure_per_market refl,
          double_field "stop_loss_threshold" _ c0.stop_loss_threshold refl,
          double_field "slippage_threshold_bps" _ c0.slippage_threshold_bps refl,
          int_field "max_orders_per_minute" _ c0.max_orders_per_minute refl,
        )
        refl

  strategy_from_json-strategy_to_json :
      (c c0 : StrategyConfig D) → strategy_from_json json (strategy_to_json json c) c0 ≡ some c
  unfolding strategy_from_json strategy_to_json
  strategy_from_json-strategy_to_json c c0 =
      rw
        (
          double_field "min_edge_cents" _ c0.min_edge_cents refl,
          double_field "max_spread_to_trade" _ c0.max_spread_to_trade refl,
          double_field "lag_move_threshold_bps" _ c0.lag_move_threshold_bps refl,
          int_field "staleness_window_ms" _ c0.staleness_window_ms refl,
          double_field "min_confidence" _ c0.min_confidence refl,
          double_field "target_fill_rate" _ c0.target_fill_rate refl,
          bool_field "enable_s1" _ c0.enable_s1 refl,
          bool_field "enable_s2" _ c0.enable_s2 refl,
          bool_field "enable_s3" _ c0.enable_s3 refl,
        )
        refl

  connection_from_json-connection_to_json :
      (c c0 : ConnectionConfig) → connection_from_json json (connection_to_json json c) c0 ≡ some c
  unfolding connection_from_json connection_to_json
  connection_from_json-connection_to_json c c0 =
      rw
        (
          string_field "polymarket_rest_url" _ c0.polymarket_rest_url refl,
          string_field "polymarket_ws_url" _ c0.polymarket_ws_url refl,
          string_field "polymarket_gamma_url" _ c0.polymarket_gamma_url refl,
          string_field "binance_ws_url" _ c0.binance_ws_url refl,
          string_field "binance_symbol" _ c0.binance_symbol refl,
          int_field "reconnect_delay_ms" _ c0.reconnect_delay_ms refl,
          int_field "max_reconnect_attempts" _ c0.max_reconnect_attempts refl,
          int_field "heartbeat_interval_ms" _ c0.heartbeat_interval_ms refl,
          int_field "connection_timeout_ms" _ c0.connection_timeout_ms refl,
        )
        refl

  logging_from_json-logging_to_json :
      (c c0 : LoggingConfig) → logging_from_json json (logging_to_json json c) c0 ≡ some c
  unfolding logging_from_json logging_to_json
  logging_from_json-logging_to_json c c0 =
      rw
        (
          string_field "log_dir" _ c0.log_dir refl,
          string_field "log_level" _ c0.log_level refl,
          bool_field "log_to_console" _ c0.log_to_console refl,
          bool_field "log_to_file" _ c0.log_to_file refl,
          bool_field "json_format" _ c0.json_format refl,
          int_field "max_log_file_size_mb" _ c0.max_log_file_size_mb refl,
          int_field "max_log_files" _ c0.max_log_files refl,
        )
        refl

  get_mode-mode_str :
      (m old : TradingMode) → get_mode json old (json.of_string (mode_str m)) ≡ some m
  get_mode-mode_str m old =
      let same = mode_from-mode_str m old in rw (laws.string_back (mode_str m), same) refl

  -- A configuration that is converted to JSON is read back from it whole, into any configuration.
  pub from_json-to_json : (c c0 : Config D) → from_json json (to_json json c) c0 ≡ some c
  unfolding from_json to_json
  from_json-to_json c c0 =
      rw
        (
          field-object (get_mode json c0.mode) "mode" _ c0.mode (get_mode-mode_str c.mode c0.mode)
              refl,
          double_field "starting_balance_usdc" _ c0.starting_balance_usdc refl,
          field-object _ "risk" _ c0.risk (risk_from_json-risk_to_json c.risk c0.risk) refl,
          field-object _ "strategy" _ c0.strategy
              (strategy_from_json-strategy_to_json c.strategy c0.strategy) refl,
          field-object _ "connection" _ c0.connection
              (connection_from_json-connection_to_json c.connection c0.connection) refl,
          field-object _ "logging" _ c0.logging
              (logging_from_json-logging_to_json c.logging c0.logging) refl,
          string_field "trade_ledger_path" _ c0.trade_ledger_path refl,
          string_field "state_snapshot_path" _ c0.state_snapshot_path refl,
          field-object _ "market_slugs" _ c0.market_slugs (laws.strings_back c.market_slugs) refl,
          string_field "market_pattern" _ c0.market_pattern refl,
        )
        refl

module _ {D J T : Type 0} ⦃d : Double D⦄ {json : Json D J T} (laws : IsJson json) where
  -- Where the text of a configuration is parsed to the JSON that was written, a configuration that was
  -- saved loads as it was if it is valid, and is refused as invalid if it is not.
  pub load-save :
      (c defaults : Config D)
      → json.parse (json.dump (to_json json c)) ≡ some (to_json json c)
      → load json defaults (save json true c) ≡ (if validate c then loaded c else invalid)
  unfolding load save
  load-save c defaults h = rw (h, from_json-to_json laws c defaults) refl
