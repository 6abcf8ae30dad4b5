-- ===== src/Config/Values.antt =====
-- Single variables of the environment, each with its default.
use frpay.Prelude.{
  ℤ, String, str_eq, Bool, true, false, ◌||◌, Option, none, some, parse_int, if◌then◌else◌,
}
use frpay.Decimal.{Decimals}

-- os.Getenv: a variable that is not set has the empty value.
abbrev pub Environment : Type 0
Environment = String → String

unfoldable pub get_env_default : Environment → String → String → String
get_env_default env key default = if str_eq (env key) "" then default else env key

abbrev pub or_default {ℓ} : {A : Type ℓ} → A → Option A → A
or_default default none = default
or_default default (some v) = v

-- A value that does not parse counts as none.
unfoldable pub get_env_int_default : Environment → String → ℤ → ℤ
get_env_int_default env key default =
    if str_eq (env key) "" then default else or_default default (parse_int (env key))

-- strconv.ParseBool
unfoldable pub parse_bool : String → Option Bool
parse_bool s =
    if str_eq s "1"
      || str_eq s "t"
      || str_eq s "T"
      || str_eq s "TRUE"
      || str_eq s "true"
      || str_eq s "True"
    then some true
    else if str_eq s "0"
        || str_eq s "f"
        || str_eq s "F"
        || str_eq s "FALSE"
        || str_eq s "false"
        || str_eq s "False"
    then some false
    else none

unfoldable pub get_env_bool_default : Environment → String → Bool → Bool
get_env_bool_default env key default =
    if str_eq (env key) "" then default else or_default default (parse_bool (env key))

-- `parse_duration` is time.ParseDuration, in nanoseconds.
unfoldable pub get_env_duration_default : (String → Option ℤ) → Environment → String → ℤ → ℤ
get_env_duration_default parse_duration env key default =
    if str_eq (env key) "" then default else or_default default (parse_duration (env key))

-- A value that does not parse is an error here.
unfoldable pub get_env_decimal_default :
    {D : Type 0} ⦃dec : Decimals D⦄ → Environment → String → D → Option D
get_env_decimal_default ⦃dec⦄ env key default =
    if str_eq (env key) "" then some default else dec.parse (env key)
