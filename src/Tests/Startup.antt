-- ===== src/Tests/Startup.antt =====
-- A start with the chains polygon and bsc, from the variables to the manager.
use frpay.Prelude.{
  true, ◌∷◌, ◌∷◌, true, ℤ, pos, ◌≡◌, refl, String, str_eq, Option, none, [], if◌then◌else◌,
}
use frpay.Store.{ok}
use frpay.Chains.Watcher.{polygon}
use frpay.Chains.Tron.Address.{Codecs}
use frpay.Config.Values.{parse_bool, get_env_bool_default, get_env_decimal_default, Environment}
use frpay.Config.Csv.{is_space, split_csv}
use frpay.Config.Entries.{has_comma, ends_with_space, is_entry, all_entries, split_csv-entries}
use frpay.Config.Joined.{join, split_csv-join}
use frpay.Config.Load.{
  load_ton_config, load_evm_config, load_bsc_config, load_polygon_config, load_tron_config,
  has_no_address, check_addresses, parsed, unless, Config, config_with, load, load_chains,
}
use frpay.Config.Required.{error_of, first_error, checks, load-first_error}
use frpay.Main.{with_ton, with_tron, Enabled, enabled_chains, with_evm, none_enabled}
use frpay.Tests.Fixture.{decimals}

abbrev pub environment : Environment
environment key =
    if str_eq key "POSTGRES_DSN"
    then "postgres://frpay"
    else if str_eq key "API_KEY"
    then "secret"
    else if str_eq key "TRON_ENABLED"
    then "false"
    else if str_eq key "POLYGON_ENABLED"
    then "true"
    else if str_eq key "POLYGON_ADDRESS"
    then "0xaa"
    else ""

-- time.ParseDuration, which no variable here asks.
abbrev pub no_duration : String → Option ℤ
no_duration s = none

abbrev pub codecs : Codecs
codecs = record { base58 = λ s. []; sha256 = λ bytes. bytes }

abbrev pub usable : Config ℤ
usable = config_with no_duration environment (pos 2_000_000) (pos 5_000_000_000)

abbrev pub enabled : Enabled ℤ
enabled = with_evm polygon usable.chains.polygon none_enabled

pub loaded : load no_duration environment ≡ ok usable
unfolding load unless parsed get_env_decimal_default check_addresses has_no_address config_with
    load_chains load_tron_config get_env_bool_default parse_bool load_ton_config load_polygon_config
    load_evm_config load_bsc_config
loaded = refl

pub main_enabled : enabled_chains codecs usable.chains ≡ ok enabled
unfolding enabled_chains with_tron config_with load_chains load_tron_config get_env_bool_default
    parse_bool load_polygon_config load_bsc_config with_evm load_evm_config with_ton load_ton_config
main_enabled = refl

load-first_error_example :
    error_of (load no_duration environment {D = ℤ})
    ≡ first_error (checks ℤ ⦃dec = decimals⦄ environment)
load-first_error_example = load-first_error ℤ environment no_duration

split_csv-entries_example : all_entries (split_csv "https://a, ,https://b ") ≡ true
split_csv-entries_example = split_csv-entries "https://a, ,https://b "

split_csv-join_example :
    split_csv (join ("https://a" ∷ "https://b" ∷ [])) ≡ "https://a" ∷ "https://b" ∷ []
unfolding is_entry is_space ends_with_space has_comma
split_csv-join_example = split_csv-join ("https://a" ∷ "https://b" ∷ []) refl
