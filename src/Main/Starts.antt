-- ===== src/Main/Starts.antt =====
-- When main gets to serve: no step before it depends on more than its own success.
use frpay.Prelude.{ℤ, String, ◌≡◌, refl, ◌∙◌, false, List, [], ◌∷◌}
use frpay.Decimal.{Decimals}
use frpay.Store.{Order, Database, Statement, Result, ok, wrap, statement, gets, pure, ◌>>=◌, Action}
use frpay.Connections.{Pool, RedisClient, migrate, connect, connect_redis}
use frpay.Chains.Watcher.{ChainWatcher}
use frpay.Chains.Manager.{Manager, chains}
use frpay.Config.Load.{Config, load}
use frpay.Orders.Repository.{list_confirming}
use frpay.Orders.Service.{load_pending_transfers, seed_chains, seed_orders, on_listed}
use frpay.Main.{AnyWatcher, Enabled, any_watcher, enabled_chains, chain_manager}
use frpay.Main.Start.{Host, StartError, lift, reseeded, reseed, start_chains, start_with, start}

module _ {D W : Type 0} ⦃dec : Decimals D⦄ (cw : ChainWatcher D W) (db : Database D)
    (up : db.fails Statement.list_confirming ≡ false) where
  lists : (chain : String) → (os : List (Order D)) × ((list_confirming chain db).0 ≡ ok os)
  unfolding list_confirming wrap statement gets
  lists chain = rw up (_, refl)

  seeds_all : (t : ℤ) (cs : List String) (m : Manager W) → (seed_chains cw t db cs m).0 ≡ ok tt
  unfolding seed_chains on_listed
  seeds_all t [] m = refl
  seeds_all t (c ∷ cs) m = let (os, e) = lists c in rw e (seeds_all t cs (seed_orders cw t c os m))

  -- LoadPendingTransfers returns while its statement does not fail, whatever the watchers answer.
  pub loads_pending : (t : ℤ) (m : Manager W) → (load_pending_transfers cw t db m).0 ≡ ok tt
  unfolding load_pending_transfers
  loads_pending t m = seeds_all t (chains m) m

module _ {D Migrator Handle : Type 0} ⦃dec : Decimals D⦄ (host : Host D Migrator Handle)
    (w : Database D) (cfg : Config D) (pool : Pool Handle) (redis : RedisClient)
    (s : Enabled D) where
  abbrev pub migrated : Database D
  migrated = (migrate host.drivers cfg.postgres_dsn cfg.migrations_dir w).1

  goes_on :
      {E F A B : Type 0} (f : E → F) (r : Result E A) (k : A → Action D F B) (v : Database D)
      {a : A}
      → r ≡ ok a
      → (lift f r >>= k) v ≡ k a v
  unfolding lift pure ◌>>=◌
  goes_on f r k v e = rw e refl

  reseeds :
      (v : Database D) (m : Manager (AnyWatcher D))
      → v.fails Statement.list_confirming ≡ false
      → (reseed host m v) ≡ (ok (load_pending_transfers any_watcher host.time v m).1, v)
  unfolding reseed reseeded pure
  reseeds v m up = rw (loads_pending any_watcher v up host.time m) refl

  migrated_goes_on :
      {B : Type 0} (k : Unit → Action D StartError B)
      → (migrate host.drivers cfg.postgres_dsn cfg.migrations_dir w).0 ≡ ok tt
      → (wrap StartError.migration_failed (migrate host.drivers cfg.postgres_dsn cfg.migrations_dir)
            >>= k)
          w
        ≡ k tt migrated
  unfolding wrap ◌>>=◌
  migrated_goes_on k e = rw e refl

  -- If Load accepts the environment, migrating and both connections succeed, the watchers can be
  -- set up, and the statement that lists the confirming orders does not fail on the migrated
  -- database, main gets to its goroutines on that database, with the enabled chains and the
  -- watchers as LoadPendingTransfers leaves them.
  pub starts_when_up :
      load host.parse_duration host.environment ≡ ok cfg
      → (migrate host.drivers cfg.postgres_dsn cfg.migrations_dir w).0 ≡ ok tt
      → connect host.drivers cfg.postgres_dsn ≡ ok pool
      → connect_redis host.drivers cfg.redis_addr cfg.redis_db ≡ ok redis
      → enabled_chains host.codecs cfg.chains ≡ ok s
      → migrated.fails Statement.list_confirming ≡ false
      → start host w ≡ (
        ok (record {
          config = cfg;
          pool = pool;
          redis = redis;
          addresses = s.addresses;
          manager = (load_pending_transfers any_watcher host.time migrated (chain_manager s)).1;
        }),
        migrated,
      )
  unfolding start start_with start_chains
  starts_when_up loaded applied connected pinged set_up up =
      goes_on StartError.config_error _ _ w loaded
      ∙ migrated_goes_on _ applied
      ∙ goes_on StartError.connection_failed _ _ migrated connected
      ∙ goes_on StartError.connection_failed _ _ migrated pinged
      ∙ goes_on StartError.tron_init_failed _ _ migrated set_up
      ∙ unfold ◌>>=◌ pure in rw (reseeds migrated (chain_manager s) up) refl
