-- ===== src/Config/Required.antt =====
-- What Load refuses: its checks as a list, and what holds once they pass.
use frpay.Config.Values.{get_env_bool_default, get_env_decimal_default, Environment}
use frpay.Decimal.{Decimals}
use frpay.Prelude.{
  sym, ℤ, pos, negsuc, String, str_eq, ◌≡◌, ◌≢◌, refl, arith, eq_iff, subst, Bool, true, false,
  ◌&&◌, Option, none, some, List, [], ◌∷◌, if◌then◌else◌,
}
use frpay.Store.{returned, Result, ok, err}
use frpay.Config.Load.{
  load_evm_config, load_bsc_config, load_polygon_config, bad_gap, load_ton_config, load_tron_config,
  bad_tolerance, load_chains, config_with, api_key_required, load, dsn_required, unless,
  has_no_address, check_addresses, parsed, bsc_address_required, polygon_address_required,
  ton_address_required, tron_address_required, Config, ConfigError,
}

-- The error of the first check that fails.
unfoldable pub first_error : List (Bool × ConfigError) → Option ConfigError
first_error [] = none
first_error ((fails, e) ∷ checks) = if fails then some e else first_error checks

abbrev pub error_of : {A : Type 0} → Result ConfigError A → Option ConfigError
error_of (ok x) = none
error_of (err e) = some e

abbrev pub is_none : {A : Type 0} → Option A → Bool
is_none none = true
is_none (some x) = false

-- The address of an enabled chain is set.
abbrev pub HasAddress : Bool → String → Type 0
HasAddress enabled address = enabled ≡ true → address ≢ ""

abbrev pub IsUsable : {D : Type 0} → Config D → Type 0
IsUsable cfg =
    (cfg.postgres_dsn ≢ "")
    × (cfg.api_key ≢ "")
    × HasAddress cfg.chains.tron.enabled cfg.chains.tron.address
    × HasAddress cfg.chains.ton.enabled cfg.chains.ton.address
    × HasAddress cfg.chains.polygon.enabled cfg.chains.polygon.address
    × HasAddress cfg.chains.bsc.enabled cfg.chains.bsc.address

none_fails : {A : Type 0} (x : A) → error_of (ok x) ≡ first_error []
unfolding first_error
none_fails x = refl

first-unless :
    {A : Type 0} (fails : Bool) (e : ConfigError) (next : Result ConfigError A)
    (checks : List (Bool × ConfigError))
    → error_of next ≡ first_error checks
    → error_of (unless fails e next) ≡ first_error ((fails, e) ∷ checks)
unfolding unless first_error
first-unless true e next checks h = refl
first-unless false e next checks h = h

first-parsed :
    {D A : Type 0} (e : ConfigError) (next : D → Result ConfigError A)
    (checks : List (Bool × ConfigError)) (value : Option D)
    → ((d : D) → error_of (next d) ≡ first_error checks)
    → error_of (parsed e next value) ≡ first_error ((is_none value, e) ∷ checks)
unfolding parsed first_error
first-parsed e next checks none h = refl
first-parsed e next checks (some d) h = h d

has_address :
    (enabled : Bool) (address : String)
    → has_no_address enabled address ≡ false
    → HasAddress enabled address
unfolding has_no_address
has_address enabled address h on = ground (arith, eq_iff address "")

unless_ok :
    {A : Type 0} (fails : Bool) (e : ConfigError) {next : Result ConfigError A} {x : A}
    → unless fails e next ≡ ok x
    → (fails ≡ false) × (next ≡ ok x)
unfolding unless
unless_ok true e h = cc
unless_ok false e h = (refl, h)

parsed_ok :
    {D A : Type 0} (e : ConfigError) (next : D → Result ConfigError A) {x : A} (value : Option D)
    → parsed e next value ≡ ok x
    → (d : D) × (next d ≡ ok x)
unfolding parsed
parsed_ok e next none h = cc
parsed_ok e next (some d) h = (d, h)

check_addresses_ok :
    {D : Type 0} (cfg loaded : Config D)
    → cfg.postgres_dsn ≢ ""
    → cfg.api_key ≢ ""
    → check_addresses cfg ≡ ok loaded
    → IsUsable loaded
unfolding check_addresses
check_addresses_ok cfg loaded dsn key h =
    let c = cfg.chains in
    let (t, h) = unless_ok (has_no_address c.tron.enabled c.tron.address) tron_address_required h in
    let (n, h) = unless_ok (has_no_address c.ton.enabled c.ton.address) ton_address_required h in
    let (p, h) =
      unless_ok (has_no_address c.polygon.enabled c.polygon.address) polygon_address_required h in
    let (b, h) = unless_ok (has_no_address c.bsc.enabled c.bsc.address) bsc_address_required h in
    subst (IsUsable {D = _}) (sym (returned h))
      (dsn, key, has_address _ _ t, has_address _ _ n, has_address _ _ p, has_address _ _ b)

module _ (D : Type 0) ⦃dec : Decimals D⦄ (env : Environment) where
  -- Load's checks, each with its error, read off the environment.
  unfoldable pub checks : List (Bool × ConfigError)
  checks =
      (str_eq (env "POSTGRES_DSN") "", dsn_required)
      ∷ (str_eq (env "API_KEY") "", api_key_required)
      ∷ (
        is_none (get_env_decimal_default env "AMOUNT_TOLERANCE_USD" (dec.new (pos 2) (negsuc 1))),
        bad_tolerance,
      )
      ∷ (
        is_none
            (get_env_decimal_default env "UNDERPAYMENT_MAX_GAP_PERCENT" (dec.new (pos 50) (pos 0))),
        bad_gap,
      )
      ∷ (
        get_env_bool_default env "TRON_ENABLED" true && str_eq (env "TRON_ADDRESS") "",
        tron_address_required,
      )
      ∷ (
        get_env_bool_default env "TON_ENABLED" false && str_eq (env "TON_ADDRESS") "",
        ton_address_required,
      )
      ∷ (
        get_env_bool_default env "POLYGON_ENABLED" false && str_eq (env "POLYGON_ADDRESS") "",
        polygon_address_required,
      )
      ∷ (
        get_env_bool_default env "BSC_ENABLED" false && str_eq (env "BSC_ADDRESS") "",
        bsc_address_required,
      )
      ∷ []

  -- Load returns the error of the first of its checks that fails: the DSN, the API key, the two
  -- decimals, and the address of each enabled chain, in this order; and no error if all pass.
  pub load-first_error :
      (parse_duration : String → Option ℤ)
      → error_of (load parse_duration env {D = D}) ≡ first_error checks
  unfolding load check_addresses checks has_no_address config_with load_chains load_tron_config
      load_ton_config load_polygon_config load_bsc_config load_evm_config
  load-first_error parse_duration = first-unless _ _ _ _ (
      first-unless _ _ _ _ (
        first-parsed _ _ _ _ λ tolerance. first-parsed _ _ _ _ λ gap. first-unless _ _ _ _ (
          first-unless _ _ _ _ (
            first-unless _ _ _ _
              (first-unless _ _ _ _ (none_fails (config_with parse_duration env tolerance gap)))))))

module _ {D : Type 0} ⦃dec : Decimals D⦄ (env : Environment) where
  -- A configuration that Load returns has a DSN, an API key, and an address for every chain that it
  -- enables.
  pub load-IsUsable :
      (parse_duration : String → Option ℤ) (cfg : Config D)
      → load parse_duration env ≡ ok cfg
      → IsUsable cfg
  unfolding load
  load-IsUsable parse_duration cfg h =
      let (dsn, h) = unless_ok (str_eq (env "POSTGRES_DSN") "") dsn_required h in
      let (key, h) = unless_ok (str_eq (env "API_KEY") "") api_key_required h in
      let (tolerance, h) =
        parsed_ok bad_tolerance _
          (get_env_decimal_default {D = D} env "AMOUNT_TOLERANCE_USD" (dec.new (pos 2) (negsuc 1)))
          h in
      let (gap, h) =
        parsed_ok bad_gap _
          (get_env_decimal_default env "UNDERPAYMENT_MAX_GAP_PERCENT" (dec.new (pos 50) (pos 0)))
          h in
      check_addresses_ok (config_with parse_duration env tolerance gap) cfg
        (unfold config_with in set _ dsn) (unfold config_with in set _ key) h
    where
      set : (v : String) → str_eq v "" ≡ false → v ≢ ""
      set v e = ground (arith, eq_iff v "")
