-- ===== src/Config.antt =====
-- src/config/config.cpp and include/config/config.hpp: the configuration, to JSON and back.
-- RiskConfig is the risk manager's and StrategyConfig the strategies'. A `from_json` takes the object that
-- it fills last, and gives none where it throws. Files has the validation, loading and saving.
pub mod Data
pub mod Files
pub mod Roundtrip
pub mod Examples
use text.Mathlib.Text.{◌==◌}
use cplusplus_arbitrage.Base.{
  String, Bool, true, false, ◌&&◌, ◌||◌, not, Option, none, some, List, [], ◌∷◌, if◌then◌else◌,
}
use cplusplus_arbitrage.Double.{Double, lit, nought, ◌⊗◌, ◌≼◌, ◌≻◌, ◌≺◌}
use cplusplus_arbitrage.Types.{TradingMode}
use cplusplus_arbitrage.Risk.{RiskConfig}
use cplusplus_arbitrage.Strategy.{StrategyConfig}
use cplusplus_arbitrage.Config.Data.{
  ConnectionConfig, LoggingConfig, Config, LoadResult, loaded, cannot_open, json_error, invalid,
  Json,
}

infixl 5 ◌>>=◌ ◌>>◌
abbrev pub ◌>>=◌ : {A B : Type 0} → Option A → (A → Option B) → Option B
none >>= f = none
some a >>= f = f a

abbrev pub ◌>>◌ : {A B : Type 0} → Option A → Option B → Option B
m >> k = m >>= λ _. k

-- `"dry-run"` or `"dry_run"`, `"paper"`, `"live"`; any other text leaves the mode.
unfoldable pub mode_from : String → TradingMode → TradingMode
mode_from s old =
    if (s == "dry-run") || (s == "dry_run")
    then TradingMode.dry_run
    else if s == "paper"
    then TradingMode.paper
    else if s == "live"
    then TradingMode.live
    else old

unfoldable pub mode_str : TradingMode → String
mode_str TradingMode.dry_run = "dry-run"
mode_str TradingMode.paper = "paper"
mode_str TradingMode.live = "live"

module _ {D J T : Type 0} (json : Json D J T) where
  -- `if (j.contains(key)) j.at(key).get_to(field)`.
  unfoldable pub field : {A : Type 0} → String → (J → Option A) → J → A → Option A
  field key get j old = if json.contains key j then json.at key j >>= get else some old

  unfoldable pub risk_to_json : RiskConfig D → J
  risk_to_json c = json.object (
      ("max_notional_per_trade", json.of_double c.max_notional_per_trade)
      ∷ ("max_daily_loss", json.of_double c.max_daily_loss)
      ∷ ("max_open_positions", json.of_double c.max_open_positions)
      ∷ ("max_exposure_per_market", json.of_double c.max_exposure_per_market)
      ∷ ("stop_loss_threshold", json.of_double c.stop_loss_threshold)
      ∷ ("slippage_threshold_bps", json.of_double c.slippage_threshold_bps)
      ∷ ("max_orders_per_minute", json.of_int c.max_orders_per_minute)
      ∷ [])

  unfoldable pub risk_from_json : J → RiskConfig D → Option (RiskConfig D)
  risk_from_json j c = do
    max_notional_per_trade ←
        field "max_notional_per_trade" json.get_double j c.max_notional_per_trade
    max_daily_loss ← field "max_daily_loss" json.get_double j c.max_daily_loss
    max_open_positions ← field "max_open_positions" json.get_double j c.max_open_positions
    max_exposure_per_market ←
        field "max_exposure_per_market" json.get_double j c.max_exposure_per_market
    stop_loss_threshold ← field "stop_loss_threshold" json.get_double j c.stop_loss_threshold
    slippage_threshold_bps ←
        field "slippage_threshold_bps" json.get_double j c.slippage_threshold_bps
    max_orders_per_minute ← field "max_orders_per_minute" json.get_int j c.max_orders_per_minute
    some (record {
      max_notional_per_trade = max_notional_per_trade;
      max_daily_loss = max_daily_loss;
      max_open_positions = max_open_positions;
      max_exposure_per_market = max_exposure_per_market;
      stop_loss_threshold = stop_loss_threshold;
      slippage_threshold_bps = slippage_threshold_bps;
      max_orders_per_minute = max_orders_per_minute;
    })

  unfoldable pub strategy_to_json : StrategyConfig D → J
  strategy_to_json c = json.object (
      ("min_edge_cents", json.of_double c.min_edge_cents)
      ∷ ("max_spread_to_trade", json.of_double c.max_spread_to_trade)
      ∷ ("lag_move_threshold_bps", json.of_double c.lag_move_threshold_bps)
      ∷ ("staleness_window_ms", json.of_int c.staleness_window_ms)
      ∷ ("min_confidence", json.of_double c.min_confidence)
      ∷ ("target_fill_rate", json.of_double c.target_fill_rate)
      ∷ ("enable_s1", json.of_bool c.enable_s1)
      ∷ ("enable_s2", json.of_bool c.enable_s2)
      ∷ ("enable_s3", json.of_bool c.enable_s3)
      ∷ [])

  unfoldable pub strategy_from_json : J → StrategyConfig D → Option (StrategyConfig D)
  strategy_from_json j c = do
    min_edge_cents ← field "min_edge_cents" json.get_double j c.min_edge_cents
    max_spread_to_trade ← field "max_spread_to_trade" json.get_double j c.max_spread_to_trade
    lag_move_threshold_bps ←
        field "lag_move_threshold_bps" json.get_double j c.lag_move_threshold_bps
    staleness_window_ms ← field "staleness_window_ms" json.get_int j c.staleness_window_ms
    min_confidence ← field "min_confidence" json.get_double j c.min_confidence
    target_fill_rate ← field "target_fill_rate" json.get_double j c.target_fill_rate
    enable_s1 ← field "enable_s1" json.get_bool j c.enable_s1
    enable_s2 ← field "enable_s2" json.get_bool j c.enable_s2
    enable_s3 ← field "enable_s3" json.get_bool j c.enable_s3
    some (record {
      min_edge_cents = min_edge_cents;
      max_spread_to_trade = max_spread_to_trade;
      lag_move_threshold_bps = lag_move_threshold_bps;
      staleness_window_ms = staleness_window_ms;
      min_confidence = min_confidence;
      target_fill_rate = target_fill_rate;
      enable_s1 = enable_s1;
      enable_s2 = enable_s2;
      enable_s3 = enable_s3;
    })

  unfoldable pub connection_to_json : ConnectionConfig → J
  connection_to_json c = json.object (
      ("polymarket_rest_url", json.of_string c.polymarket_rest_url)
      ∷ ("polymarket_ws_url", json.of_string c.polymarket_ws_url)
      ∷ ("polymarket_gamma_url", json.of_string c.polymarket_gamma_url)
      ∷ ("binance_ws_url", json.of_string c.binance_ws_url)
      ∷ ("binance_symbol", json.of_string c.binance_symbol)
      ∷ ("reconnect_delay_ms", json.of_int c.reconnect_delay_ms)
      ∷ ("max_reconnect_attempts", json.of_int c.max_reconnect_attempts)
      ∷ ("heartbeat_interval_ms", json.of_int c.heartbeat_interval_ms)
      ∷ ("connection_timeout_ms", json.of_int c.connection_timeout_ms)
      ∷ [])

  unfoldable pub connection_from_json : J → ConnectionConfig → Option ConnectionConfig
  connection_from_json j c = do
    polymarket_rest_url ← field "polymarket_rest_url" json.get_string j c.polymarket_rest_url
    polymarket_ws_url ← field "polymarket_ws_url" json.get_string j c.polymarket_ws_url
    polymarket_gamma_url ← field "polymarket_gamma_url" json.get_string j c.polymarket_gamma_url
    binance_ws_url ← field "binance_ws_url" json.get_string j c.binance_ws_url
    binance_symbol ← field "binance_symbol" json.get_string j c.binance_symbol
    reconnect_delay_ms ← field "reconnect_delay_ms" json.get_int j c.reconnect_delay_ms
    max_reconnect_attempts ← field "max_reconnect_attempts" json.get_int j c.max_reconnect_attempts
    heartbeat_interval_ms ← field "heartbeat_interval_ms" json.get_int j c.heartbeat_interval_ms
    connection_timeout_ms ← field "connection_timeout_ms" json.get_int j c.connection_timeout_ms
    some (record {
      polymarket_rest_url = polymarket_rest_url;
      polymarket_ws_url = polymarket_ws_url;
      polymarket_gamma_url = polymarket_gamma_url;
      binance_ws_url = binance_ws_url;
      binance_symbol = binance_symbol;
      reconnect_delay_ms = reconnect_delay_ms;
      max_reconnect_attempts = max_reconnect_attempts;
      heartbeat_interval_ms = heartbeat_interval_ms;
      connection_timeout_ms = connection_timeout_ms;
    })

  unfoldable pub logging_to_json : LoggingConfig → J
  logging_to_json c = json.object (
      ("log_dir", json.of_string c.log_dir)
      ∷ ("log_level", json.of_string c.log_level)
      ∷ ("log_to_console", json.of_bool c.log_to_console)
      ∷ ("log_to_file", json.of_bool c.log_to_file)
      ∷ ("json_format", json.of_bool c.json_format)
      ∷ ("max_log_file_size_mb", json.of_int c.max_log_file_size_mb)
      ∷ ("max_log_files", json.of_int c.max_log_files)
      ∷ [])

  unfoldable pub logging_from_json : J → LoggingConfig → Option LoggingConfig
  logging_from_json j c = do
    log_dir ← field "log_dir" json.get_string j c.log_dir
    log_level ← field "log_level" json.get_string j c.log_level
    log_to_console ← field "log_to_console" json.get_bool j c.log_to_console
    log_to_file ← field "log_to_file" json.get_bool j c.log_to_file
    json_format ← field "json_format" json.get_bool j c.json_format
    max_log_file_size_mb ← field "max_log_file_size_mb" json.get_int j c.max_log_file_size_mb
    max_log_files ← field "max_log_files" json.get_int j c.max_log_files
    some (record {
      log_dir = log_dir;
      log_level = log_level;
      log_to_console = log_to_console;
      log_to_file = log_to_file;
      json_format = json_format;
      max_log_file_size_mb = max_log_file_size_mb;
      max_log_files = max_log_files;
    })

  unfoldable pub to_json : Config D → J
  unfolding mode_str risk_to_json strategy_to_json connection_to_json logging_to_json
  to_json c = json.object (
      ("mode", json.of_string (mode_str c.mode))
      ∷ ("starting_balance_usdc", json.of_double c.starting_balance_usdc)
      ∷ ("risk", risk_to_json c.risk)
      ∷ ("strategy", strategy_to_json c.strategy)
      ∷ ("connection", connection_to_json c.connection)
      ∷ ("logging", logging_to_json c.logging)
      ∷ ("trade_ledger_path", json.of_string c.trade_ledger_path)
      ∷ ("state_snapshot_path", json.of_string c.state_snapshot_path)
      ∷ ("market_slugs", json.of_strings c.market_slugs)
      ∷ ("market_pattern", json.of_string c.market_pattern)
      ∷ [])

  -- The mode is read as a text, and then turned into a mode.
  abbrev pub get_mode : TradingMode → J → Option TradingMode
  get_mode old j = do s ← json.get_string j; some (mode_from s old)

  unfoldable pub from_json : J → Config D → Option (Config D)
  from_json j c = do
    mode ← field "mode" (get_mode c.mode) j c.mode
    starting_balance_usdc ← field "starting_balance_usdc" json.get_double j c.starting_balance_usdc
    risk ← field "risk" (λ r. risk_from_json r c.risk) j c.risk
    strategy ← field "strategy" (λ s. strategy_from_json s c.strategy) j c.strategy
    connection ← field "connection" (λ k. connection_from_json k c.connection) j c.connection
    logging ← field "logging" (λ l. logging_from_json l c.logging) j c.logging
    trade_ledger_path ← field "trade_ledger_path" json.get_string j c.trade_ledger_path
    state_snapshot_path ← field "state_snapshot_path" json.get_string j c.state_snapshot_path
    market_slugs ← field "market_slugs" json.get_strings j c.market_slugs
    market_pattern ← field "market_pattern" json.get_string j c.market_pattern
    some (record {
      mode = mode;
      starting_balance_usdc = starting_balance_usdc;
      risk = risk;
      strategy = strategy;
      connection = connection;
      logging = logging;
      trade_ledger_path = trade_ledger_path;
      state_snapshot_path = state_snapshot_path;
      market_slugs = market_slugs;
      market_pattern = market_pattern;
    })
