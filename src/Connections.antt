-- ===== src/Connections.antt =====
-- internal/db/postgres.go and redis.go: the connections to Postgres and Redis, and the migrations.
use frpay.Prelude.{ℤ, pos, String, Bool, true, false, Option, none, some}
use Prim.Native.String.{◌++◌}
use frpay.Store.{Database, Result, ok, err, Action}

-- What Up of golang-migrate returns: no error, ErrNoChange, or another error.
pub data UpResult : Type 0 where
  applied no_change up_failed : UpResult

-- golang-migrate, sqlx and go-redis; none is the error of a call.
pub record Drivers (D Migrator Handle : Type 0) : Type 0 where
  -- migrate.New of a source and a DSN, and Up
  pub new_migrator : String → String → Option Migrator
  pub up : Migrator → Database D → UpResult × Database D
  -- ConnectContext of a driver and a DSN
  pub connect_context : String → String → Option Handle
  -- Ping of the client of an address and a database number
  pub ping : String → ℤ → Bool

-- The handle of sqlx with the bounds of its pool.
pub record Pool (Handle : Type 0) : Type 0 where
  pub handle : Handle
  pub max_open_conns : ℤ
  pub max_idle_conns : ℤ

-- redis.Client by its options.
pub record RedisClient : Type 0 where
  pub addr : String
  pub db : ℤ

pub data ConnectError : Type 0 where
  postgres_failed redis_failed : ConnectError

pub data MigrateError : Type 0 where
  init_migrator apply_migrations : MigrateError

unfoldable pub pooled : {Handle : Type 0} → Option Handle → Result ConnectError (Pool Handle)
pooled none = err ConnectError.postgres_failed
pooled (some handle) =
    ok (record { handle = handle; max_open_conns = pos 20; max_idle_conns = pos 5 })

unfoldable pub up_error : UpResult → Result MigrateError Unit
up_error UpResult.applied = ok tt
up_error UpResult.no_change = ok tt
up_error UpResult.up_failed = err MigrateError.apply_migrations

unfoldable pub connected_redis : RedisClient → Bool → Result ConnectError RedisClient
connected_redis client true = ok client
connected_redis client false = err ConnectError.redis_failed

module _ {D Migrator Handle : Type 0} (drivers : Drivers D Migrator Handle) where
  -- Connect
  unfoldable pub connect : String → Result ConnectError (Pool Handle)
  unfolding pooled
  connect dsn = pooled (drivers.connect_context "pgx" dsn)

  unfoldable pub migrate_with : Option Migrator → Action D MigrateError Unit
  unfolding up_error
  migrate_with none w = (err MigrateError.init_migrator, w)
  migrate_with (some m) w = let (r, w') = drivers.up m w in (up_error r, w')

  -- Migrate, on the database that the DSN names.
  unfoldable pub migrate : String → String → Action D MigrateError Unit
  unfolding migrate_with
  migrate dsn migrations_dir = migrate_with (drivers.new_migrator ("file://" ++ migrations_dir) dsn)

  -- ConnectRedis
  unfoldable pub connect_redis : String → ℤ → Result ConnectError RedisClient
  unfolding connected_redis
  connect_redis addr db_index =
      connected_redis (record { addr = addr; db = db_index }) (drivers.ping addr db_index)
