-- ===== src/Config/Data.antt =====
-- The structs of include/config/config.hpp that no other part has, and nlohmann::json as an interface.
use text.Mathlib.Text.{◌==◌}
use cplusplus_arbitrage.Base.{
  ℕ, ◌≡◌, String, Bool, true, false, Option, none, some, List, [], ◌∷◌, if◌then◌else◌,
}
use cplusplus_arbitrage.Types.{TradingMode}
use cplusplus_arbitrage.Risk.{RiskConfig}
use cplusplus_arbitrage.Strategy.{StrategyConfig}

-- The `int` settings are not negative.
pub record ConnectionConfig : Type 0 where
  pub polymarket_rest_url : String
  pub polymarket_ws_url : String
  pub polymarket_gamma_url : String
  pub binance_ws_url : String
  pub binance_symbol : String
  pub reconnect_delay_ms : ℕ
  pub max_reconnect_attempts : ℕ
  pub heartbeat_interval_ms : ℕ
  pub connection_timeout_ms : ℕ

pub record LoggingConfig : Type 0 where
  pub log_dir : String
  pub log_level : String
  pub log_to_console : Bool
  pub log_to_file : Bool
  pub json_format : Bool
  pub max_log_file_size_mb : ℕ
  pub max_log_files : ℕ

pub record Config (D : Type 0) : Type 0 where
  pub mode : TradingMode
  pub starting_balance_usdc : D
  pub risk : RiskConfig D
  pub strategy : StrategyConfig D
  pub connection : ConnectionConfig
  pub logging : LoggingConfig
  pub trade_ledger_path : String
  pub state_snapshot_path : String
  pub market_slugs : List String
  pub market_pattern : String

-- What `Config::load` gives back or throws. A text that is no JSON, or whose values have other types, throws
-- the library's exception.
pub data LoadResult (D : Type 0) : Type 0 where
  loaded : Config D → LoadResult D
  cannot_open json_error invalid : LoadResult D

-- nlohmann::json, a library: values of type J, files of type T. `at` and the conversions throw where they
-- give none.
pub record Json (D J T : Type 0) : Type 0 where
  pub object : List (String × J) → J
  pub contains : String → J → Bool
  pub at : String → J → Option J
  pub of_double : D → J
  pub get_double : J → Option D
  pub of_int : ℕ → J
  pub get_int : J → Option ℕ
  pub of_bool : Bool → J
  pub get_bool : J → Option Bool
  pub of_string : String → J
  pub get_string : J → Option String
  pub of_strings : List String → J
  pub get_strings : J → Option (List String)
  pub dump : J → T
  pub parse : T → Option J

-- An object that is made of a list has the first value given under each key.
abbrev pub member : {J : Type 0} → String → List (String × J) → Option J
member key [] = none
member key ((k, j) ∷ l) = let rest = member key l in if key == k then some j else rest

abbrev pub is_some : {A : Type 0} → Option A → Bool
is_some none = false
is_some (some a) = true

-- What the library documents: an object has its members, and a value that was converted to JSON converts
-- back.
pub record IsJson {D J T : Type 0} (json : Json D J T) : Type 0 where
  pub contains-object :
      (key : String) (l : List (String × J))
      → json.contains key (json.object l) ≡ is_some (member key l)
  pub at-object :
      (key : String) (l : List (String × J)) → json.at key (json.object l) ≡ member key l
  pub double_back : (x : D) → json.get_double (json.of_double x) ≡ some x
  pub int_back : (n : ℕ) → json.get_int (json.of_int n) ≡ some n
  pub bool_back : (b : Bool) → json.get_bool (json.of_bool b) ≡ some b
  pub string_back : (s : String) → json.get_string (json.of_string s) ≡ some s
  pub strings_back : (l : List String) → json.get_strings (json.of_strings l) ≡ some l
