-- ===== src/Config/Load.antt =====
-- Load: the whole configuration, with the checks that refuse to start.
use Prim.Native.String.{◌++◌}
use frpay.Prelude.{
  ℤ, pos, negsuc, String, str_eq, Bool, true, false, ◌&&◌, Option, none, some, List,
}
use frpay.Decimal.{Decimals}
use frpay.Store.{Result, ok, err}
use frpay.Config.Values.{
  Environment, get_env_default, get_env_int_default, get_env_bool_default, get_env_duration_default,
  get_env_decimal_default,
}
use frpay.Config.Csv.{split_csv}

pub record TronConfig : Type 0 where
  pub enabled : Bool
  pub address : String
  pub api_url : String
  pub fallback_api_urls : List String
  pub api_key : String
  pub usdt_contract : String
  pub poll_interval : ℤ
  pub required_confirms : ℤ

pub record TonConfig : Type 0 where
  pub enabled : Bool
  pub address : String
  pub api_url : String
  pub fallback_api_urls : List String
  pub api_key : String
  pub usdt_jetton_master : String
  pub poll_interval : ℤ
  pub required_confirms : ℤ

pub record EvmConfig : Type 0 where
  pub enabled : Bool
  pub chain_name : String
  pub address : String
  pub rpc_url : String
  pub fallback_rpc_urls : List String
  pub usdt_contract : String
  pub poll_interval : ℤ
  pub required_confirms : ℤ
  pub logs_batch_blocks : ℤ

pub record ChainsConfig : Type 0 where
  pub tron : TronConfig
  pub ton : TonConfig
  pub polygon : EvmConfig
  pub bsc : EvmConfig

pub record Config (D : Type 0) : Type 0 where
  pub http_addr : String
  pub migrations_dir : String
  pub postgres_dsn : String
  pub redis_addr : String
  pub redis_db : ℤ
  pub api_key : String
  pub orders_rate_limit_per_minute : ℤ
  pub public_rate_limit_per_minute : ℤ
  pub order_expiry : ℤ
  pub amount_tolerance : D
  pub underpayment_max_gap_percent : D
  pub offset_min_ten_thousandths : ℤ
  pub offset_max_ten_thousandths : ℤ
  pub max_collision_retries : ℤ
  pub chains : ChainsConfig

-- The errors of Load.
pub data ConfigError : Type 0 where
  dsn_required api_key_required : ConfigError
  bad_tolerance bad_gap : ConfigError
  tron_address_required ton_address_required polygon_address_required bsc_address_required :
      ConfigError

-- An enabled chain whose address is not set.
unfoldable pub has_no_address : Bool → String → Bool
has_no_address enabled address = enabled && str_eq address ""

unfoldable pub unless :
    {A : Type 0} → Bool → ConfigError → Result ConfigError A → Result ConfigError A
unless true e next = err e
unless false e next = next

unfoldable pub parsed :
    {D : Type 0} {A : Type 0}
    → ConfigError
    → (D → Result ConfigError A)
    → Option D
    → Result ConfigError A
parsed e next none = err e
parsed e next (some d) = next d

-- The checks of the four chains' addresses, in their order.
unfoldable pub check_addresses : {D : Type 0} → Config D → Result ConfigError (Config D)
check_addresses cfg =
    let c = cfg.chains in
    unless (has_no_address c.tron.enabled c.tron.address) tron_address_required (
      unless (has_no_address c.ton.enabled c.ton.address) ton_address_required (
        unless (has_no_address c.polygon.enabled c.polygon.address) polygon_address_required
          (unless (has_no_address c.bsc.enabled c.bsc.address) bsc_address_required (ok cfg))))

module _ (parse_duration : String → Option ℤ) (env : Environment) where
  unfoldable pub load_tron_config : TronConfig
  load_tron_config = record {
    enabled = get_env_bool_default env "TRON_ENABLED" true;
    address = env "TRON_ADDRESS";
    api_url = get_env_default env "TRON_API_URL" "https://api.trongrid.io";
    fallback_api_urls = split_csv (env "TRON_FALLBACK_API_URLS");
    api_key = env "TRON_API_KEY";
    usdt_contract = get_env_default env "TRON_USDT_CONTRACT" "TR7NHqjeKQxGTCi8q8ZY4pL8otSzgjLj6t";
    poll_interval =
        get_env_duration_default parse_duration env "TRON_POLL_INTERVAL" (pos 5_000_000_000);
    required_confirms = get_env_int_default env "TRON_REQUIRED_CONFIRMATIONS" (pos 20);
  }

  unfoldable pub load_ton_config : TonConfig
  load_ton_config = record {
    enabled = get_env_bool_default env "TON_ENABLED" false;
    address = env "TON_ADDRESS";
    api_url = get_env_default env "TON_API_URL" "https://toncenter.com/api/v3";
    fallback_api_urls = split_csv (env "TON_FALLBACK_API_URLS");
    api_key = env "TON_API_KEY";
    usdt_jetton_master =
        get_env_default env "TON_USDT_JETTON_MASTER"
          "EQCxE6mUtQJKFnGfaROTKOt1lZbDiiX1kCixRv7Nw2Id_sDs";
    poll_interval =
        get_env_duration_default parse_duration env "TON_POLL_INTERVAL" (pos 8_000_000_000);
    required_confirms = get_env_int_default env "TON_REQUIRED_CONFIRMATIONS" (pos 5);
  }

  unfoldable pub load_evm_config : String → String → String → String → ℤ → EvmConfig
  load_evm_config env_prefix chain_name default_rpc default_usdt default_confirms = record {
    enabled = get_env_bool_default env (env_prefix ++ "_ENABLED") false;
    chain_name = chain_name;
    address = env (env_prefix ++ "_ADDRESS");
    rpc_url = get_env_default env (env_prefix ++ "_RPC_URL") default_rpc;
    fallback_rpc_urls = split_csv (env (env_prefix ++ "_FALLBACK_RPC_URLS"));
    usdt_contract = get_env_default env (env_prefix ++ "_USDT_CONTRACT") default_usdt;
    poll_interval =
        get_env_duration_default parse_duration env (env_prefix ++ "_POLL_INTERVAL")
          (pos 15_000_000_000);
    required_confirms =
        get_env_int_default env (env_prefix ++ "_REQUIRED_CONFIRMATIONS") default_confirms;
    logs_batch_blocks = get_env_int_default env (env_prefix ++ "_LOGS_BATCH_BLOCKS") (pos 2000);
  }

  unfoldable pub load_polygon_config : EvmConfig
  load_polygon_config =
      load_evm_config "POLYGON" "polygon" "https://polygon-rpc.com"
        "0xc2132D05D31c914a87C6611C10748AEb04B58e8F" (pos 128)

  unfoldable pub load_bsc_config : EvmConfig
  load_bsc_config =
      load_evm_config "BSC" "bsc" "https://bsc-dataseed.binance.org"
        "0x55d398326f99059fF775485246999027B3197955" (pos 15)

  unfoldable pub load_chains : ChainsConfig
  load_chains = record {
    tron = load_tron_config;
    ton = load_ton_config;
    polygon = load_polygon_config;
    bsc = load_bsc_config;
  }

  module _ {D : Type 0} ⦃dec : Decimals D⦄ where
    unfoldable pub config_with : D → D → Config D
    config_with tolerance gap = record {
      http_addr = get_env_default env "HTTP_ADDR" ":8080";
      migrations_dir = get_env_default env "MIGRATIONS_DIR" "migrations";
      postgres_dsn = env "POSTGRES_DSN";
      redis_addr = get_env_default env "REDIS_ADDR" "127.0.0.1:6379";
      redis_db = get_env_int_default env "REDIS_DB" (pos 0);
      api_key = env "API_KEY";
      orders_rate_limit_per_minute =
          get_env_int_default env "ORDERS_RATE_LIMIT_PER_MINUTE" (pos 60);
      public_rate_limit_per_minute =
          get_env_int_default env "PUBLIC_RATE_LIMIT_PER_MINUTE" (pos 60);
      order_expiry =
          get_env_duration_default parse_duration env "ORDER_EXPIRY" (pos 1_200_000_000_000);
      amount_tolerance = tolerance;
      underpayment_max_gap_percent = gap;
      offset_min_ten_thousandths = get_env_int_default env "EXPECTED_AMOUNT_OFFSET_MIN" (pos 1);
      offset_max_ten_thousandths = get_env_int_default env "EXPECTED_AMOUNT_OFFSET_MAX" (pos 99);
      max_collision_retries = get_env_int_default env "MAX_AMOUNT_COLLISION_RETRIES" (pos 20);
      chains = load_chains;
    }

    -- decimal.NewFromFloat(0.02) and decimal.NewFromInt(50)
    unfoldable pub load : Result ConfigError (Config D)
    load = unless (str_eq (env "POSTGRES_DSN") "") dsn_required (
        unless (str_eq (env "API_KEY") "") api_key_required (
          parsed bad_tolerance
            (λ tolerance.
              parsed bad_gap (λ gap. check_addresses (config_with tolerance gap))
                (get_env_decimal_default env "UNDERPAYMENT_MAX_GAP_PERCENT"
                  (dec.new (pos 50) (pos 0))))
            (get_env_decimal_default env "AMOUNT_TOLERANCE_USD" (dec.new (pos 2) (negsuc 1)))))
