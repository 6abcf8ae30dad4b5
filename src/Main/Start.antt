-- ===== src/Main/Start.antt =====
-- main of cmd/frenixpay/main.go from Load to the goroutines: each step may end the process.
use frpay.Prelude.{ℤ, String, Option, Dict}
use frpay.Decimal.{Decimals}
use frpay.Store.{Result, ok, err, Action, pure, raise, ◌>>=◌, ◌>>◌, wrap}
use frpay.Connections.{
  Drivers, Pool, RedisClient, ConnectError, MigrateError, migrate, connect, connect_redis,
}
use frpay.Chains.Manager.{Manager}
use frpay.Chains.Tron.Address.{Codecs, AddressError}
use frpay.Config.Values.{Environment}
use frpay.Config.Load.{Config, ConfigError, load}
use frpay.Orders.Repository.{Error}
use frpay.Orders.Service.{load_pending_transfers}
use frpay.Main.{AnyWatcher, any_watcher, enabled_chains, chain_manager}

-- Where main calls os.Exit(1).
pub data StartError : Type 0 where
  config_error : ConfigError → StartError
  migration_failed : MigrateError → StartError
  connection_failed : ConnectError → StartError
  tron_init_failed : AddressError → StartError
  reseed_failed : Error → StartError

-- What surrounds the process: the environment, the drivers, the codecs of the TRON address,
-- time.ParseDuration, and the time of the start.
pub record Host (D Migrator Handle : Type 0) : Type 0 where
  pub environment : Environment
  pub parse_duration : String → Option ℤ
  pub drivers : Drivers D Migrator Handle
  pub codecs : Codecs
  pub time : ℤ

-- The values that main has built once it starts its goroutines. The database and Redis are the state
-- of Main.Running.
pub record Service (D Handle : Type 0) : Type 0 where
  pub config : Config D
  pub pool : Pool Handle
  pub redis : RedisClient
  pub addresses : Dict String
  pub manager : Manager (AnyWatcher D)

-- A step that has returned, as an action.
unfoldable pub lift : {D E F A : Type 0} → (E → F) → Result E A → Action D F A
lift f (ok a) = pure a
lift f (err e) = raise (f e)

unfoldable pub reseeded :
    {D : Type 0}
    → Manager (AnyWatcher D)
    → Result Error Unit
    → Action D StartError (Manager (AnyWatcher D))
reseeded m (ok _) = pure m
reseeded m (err e) = raise (StartError.reseed_failed e)

module _ {D Migrator Handle : Type 0} ⦃dec : Decimals D⦄ (host : Host D Migrator Handle) where
  -- LoadPendingTransfers, which only reads the database.
  unfoldable pub reseed : Manager (AnyWatcher D) → Action D StartError (Manager (AnyWatcher D))
  unfolding reseeded
  reseed m w = let (r, m') = load_pending_transfers any_watcher host.time w m in reseeded m' r w

  -- From the connections on.
  unfoldable pub start_chains :
      Config D → Pool Handle → RedisClient → Action D StartError (Service D Handle)
  unfolding lift reseed
  start_chains cfg pool redis = do
    s ← lift StartError.tron_init_failed (enabled_chains host.codecs cfg.chains)
    m ← reseed (chain_manager s)
    pure (record { config = cfg; pool = pool; redis = redis; addresses = s.addresses; manager = m })

  -- From the configuration on.
  unfoldable pub start_with : Config D → Action D StartError (Service D Handle)
  unfolding lift start_chains
  start_with cfg = do
    wrap StartError.migration_failed (migrate host.drivers cfg.postgres_dsn cfg.migrations_dir)
    pool ← lift StartError.connection_failed (connect host.drivers cfg.postgres_dsn)
    redis ←
        lift StartError.connection_failed (connect_redis host.drivers cfg.redis_addr cfg.redis_db)
    start_chains cfg pool redis

  -- main, to the point where it starts the watchers, the expiry loop and the server.
  unfoldable pub start : Action D StartError (Service D Handle)
  unfolding lift start_with
  start = do
    cfg ← lift StartError.config_error (load host.parse_duration host.environment)
    start_with cfg
