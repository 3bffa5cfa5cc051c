-- ===== src/Config/Examples.antt =====
-- A configuration through a JSON library that keeps its values as trees. Amounts are ten-thousandths.
use cplusplus_arbitrage.Base.{
  ℕ, ◌*◌, ◌≡◌, refl, String, Bool, true, false, Option, none, some, List, [], ◌∷◌, if◌then◌else◌,
}
use cplusplus_arbitrage.Base.Int.{pos}
use cplusplus_arbitrage.Double.Fixed.{Fixed, fixed_double}
use cplusplus_arbitrage.Types.{TradingMode}
use cplusplus_arbitrage.Config.Data.{
  Json, IsJson, Config, loaded, invalid, json_error, is_some, member,
}
use cplusplus_arbitrage.Config.{field}
use cplusplus_arbitrage.Config.Files.{validate, load, save}
use cplusplus_arbitrage.Config.Roundtrip.{load-save}

data Value : Type 0 where
  null : Value
  number : Fixed → Value
  int : ℕ → Value
  bool : Bool → Value
  string : String → Value
  strings : List String → Value
  object : (has : String → Bool) → (entry : String → Value) → Value

abbrev value_or_null : Option Value → Value
value_or_null none = null
value_or_null (some v) = v

abbrev contains : String → Value → Bool
contains key (object has entry) = has key
contains key _ = false

abbrev at : String → Value → Option Value
at key (object has entry) = if has key then some (entry key) else none
at key _ = none

abbrev get_number : Value → Option Fixed
get_number (number x) = some x
get_number _ = none

abbrev get_int : Value → Option ℕ
get_int (int n) = some n
get_int _ = none

abbrev get_bool : Value → Option Bool
get_bool (bool b) = some b
get_bool _ = none

abbrev get_string : Value → Option String
get_string (string s) = some s
get_string _ = none

abbrev get_strings : Value → Option (List String)
get_strings (strings l) = some l
get_strings _ = none

-- A file of this library holds the tree itself.
abbrev json : Json Fixed Value Value
json = record {
  object = λ l. object (λ key. is_some (member key l)) (λ key. value_or_null (member key l));
  contains = contains;
  at = at;
  of_double = number;
  get_double = get_number;
  of_int = int;
  get_int = get_int;
  of_bool = bool;
  get_bool = get_bool;
  of_string = string;
  get_string = get_string;
  of_strings = strings;
  get_strings = get_strings;
  dump = λ v. v;
  parse = some;
}

found : (o : Option Value) → (if is_some o then some (value_or_null o) else none) ≡ o
found none = refl
found (some v) = refl

json-IsJson : IsJson json
json-IsJson = record {
  contains-object = λ key l. refl;
  at-object = λ key l. found (member key l);
  double_back = λ x. refl;
  int_back = λ n. refl;
  bool_back = λ b. refl;
  string_back = λ s. refl;
  strings_back = λ l. refl;
}

-- The configuration as it is constructed, with the balance and the daily loss given, in dollars.
abbrev config : TradingMode → (balance max_daily_loss : ℕ) → Config Fixed
config mode balance max_daily_loss = record {
  mode = mode;
  starting_balance_usdc = some (pos (balance * 10_000));
  risk = record {
    max_notional_per_trade = some (pos 15_000);
    max_daily_loss = some (pos (max_daily_loss * 10_000));
    max_open_positions = some (pos 30_000);
    max_exposure_per_market = some (pos 30_000);
    stop_loss_threshold = some (pos 1_000);
    slippage_threshold_bps = some (pos 500_000);
    max_orders_per_minute = 10;
  };
  strategy = record {
    min_edge_cents = some (pos 20_000);
    max_spread_to_trade = some (pos 500);
    lag_move_threshold_bps = some (pos 250_000);
    staleness_window_ms = 500;
    min_confidence = some (pos 6_000);
    target_fill_rate = some (pos 9_500);
    enable_s1 = true;
    enable_s2 = true;
    enable_s3 = false;
  };
  connection = record {
    polymarket_rest_url = "https://clob.polymarket.com";
    polymarket_ws_url = "wss://ws-subscriptions-clob.polymarket.com/ws/market";
    polymarket_gamma_url = "https://gamma-api.polymarket.com";
    binance_ws_url = "wss://stream.binance.com:9443/ws";
    binance_symbol = "btcusdt";
    reconnect_delay_ms = 1000;
    max_reconnect_attempts = 10;
    heartbeat_interval_ms = 30_000;
    connection_timeout_ms = 10_000;
  };
  logging = record {
    log_dir = "./logs";
    log_level = "info";
    log_to_console = true;
    log_to_file = true;
    json_format = true;
    max_log_file_size_mb = 100;
    max_log_files = 5;
  };
  trade_ledger_path = "./data/trades.json";
  state_snapshot_path = "./data/state.json";
  market_slugs = [];
  market_pattern = "btc.*15m";
}

abbrev defaults : Config Fixed
defaults = config TradingMode.dry_run 50 5

-- A file that names nothing loads as the defaults, and one whose balance is a text does not load.
empty_file : load json defaults (some (json.object [])) ≡ loaded defaults
unfolding load field
empty_file = refl

wrong_type :
    load json defaults (some (json.object (("starting_balance_usdc", string "50") ∷ [])))
    ≡ json_error
unfolding load field
wrong_type = refl

-- More daily loss than balance.
refused : validate (config TradingMode.paper 50 60) ≡ false
unfolding validate
refused = refl

load-save_example : load json defaults (save json true (config TradingMode.paper 80 5)) ≡ (
    if validate (config TradingMode.paper 80 5)
    then loaded (config TradingMode.paper 80 5)
    else invalid)
load-save_example = load-save json-IsJson (config TradingMode.paper 80 5) defaults refl
