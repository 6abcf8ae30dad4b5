-- ===== src/Main/Started.antt =====
-- What is known once main has got to its goroutines: every step before them has succeeded.
use frpay.Prelude.{subst, ◌≡◌, refl, sym, ◌∙◌, ap}
use frpay.Decimal.{Decimals}
use frpay.Store.{
  raise, Action, go_on, Database, Result, ok, err, pure, returned, ◌>>=◌, wrap, wrapped,
}
use frpay.Connections.{Pool, RedisClient, migrate, connect, connect_redis}
use frpay.Chains.Manager.{Manager}
use frpay.Config.Load.{Config, load}
use frpay.Orders.Repository.{Error}
use frpay.Orders.Service.{load_pending_transfers}
use frpay.Main.{AnyWatcher, any_watcher, Enabled, enabled_chains, chain_manager}
use frpay.Main.Start.{
  Host, Service, StartError, lift, reseeded, reseed, start_chains, start_with, start,
}

-- The steps behind a service that serves, on the database that it was started on and the one it has.
pub record Started {D Migrator Handle : Type 0} ⦃dec : Decimals D⦄ (host : Host D Migrator Handle)
    (w : Database D) (sv : Service D Handle) (w' : Database D) : Type 0 where
  pub loaded : load host.parse_duration host.environment ≡ ok sv.config
  pub migrated : (migrate host.drivers sv.config.postgres_dsn sv.config.migrations_dir w).0 ≡ ok tt
  pub database : w' ≡ (migrate host.drivers sv.config.postgres_dsn sv.config.migrations_dir w).1
  pub connected : connect host.drivers sv.config.postgres_dsn ≡ ok sv.pool
  pub connected_to_redis :
      connect_redis host.drivers sv.config.redis_addr sv.config.redis_db ≡ ok sv.redis
  pub enabled : Enabled D
  pub set_up : enabled_chains host.codecs sv.config.chains ≡ ok enabled
  pub addresses : sv.addresses ≡ enabled.addresses
  pub reseeds : (load_pending_transfers any_watcher host.time w' (chain_manager enabled)).0 ≡ ok tt
  pub manager :
      sv.manager ≡ (load_pending_transfers any_watcher host.time w' (chain_manager enabled)).1

-- A step that returned goes on with its value, and leaves the database.
lifted :
    {D E F A B : Type 0} (f : E → F) (r : Result E A) (k : A → Action D F B) (w : Database D)
    {b : B}
    → ((lift f r >>= k) w).0 ≡ ok b
    → (a : A) × (r ≡ ok a) × ((lift f r >>= k) w ≡ k a w)
unfolding lift pure raise ◌>>=◌
lifted f (ok a) k w h = (a, refl, refl)
lifted f (err e) k w h = cc

migrated_ok :
    {D E F B : Type 0} (f : E → F) (m : Action D E Unit) (k : Unit → Action D F B) (w : Database D)
    {b : B}
    → ((wrap f m >>= k) w).0 ≡ ok b
    → ((m w).0 ≡ ok tt) × ((wrap f m >>= k) w ≡ k tt (m w).1)
unfolding ◌>>=◌ wrap
migrated_ok {E} {F} {B} f m k w {b} h = go (m w).0 refl h
  where
    go :
        (r : Result E Unit)
        → (m w).0 ≡ r
        → (go_on k (wrapped f r) (m w).1).0 ≡ ok b
        → ((m w).0 ≡ ok tt) × (go_on k (wrapped f (m w).0) (m w).1 ≡ k tt (m w).1)
    go (ok tt) e h = (e, rw e refl)
    go (err x) e h = cc

module _ {D Migrator Handle : Type 0} ⦃dec : Decimals D⦄ (host : Host D Migrator Handle) where
  reseeded_ok :
      {B : Type 0} (m : Manager (AnyWatcher D)) (r : Result Error Unit)
      (k : Manager (AnyWatcher D) → Action D StartError B) (w : Database D) {b : B}
      → (go_on k (reseeded m r w).0 (reseeded m r w).1).0 ≡ ok b
      → (r ≡ ok tt) × (go_on k (reseeded m r w).0 (reseeded m r w).1 ≡ k m w)
  unfolding reseeded pure raise
  reseeded_ok m (ok tt) k w h = (refl, refl)
  reseeded_ok m (err e) k w h = cc

  -- The service on the chains that are enabled.
  abbrev on_chains :
      Config D → Pool Handle → RedisClient → Database D → Enabled D → Service D Handle
  on_chains cfg pool redis w s = record {
    config = cfg;
    pool = pool;
    redis = redis;
    addresses = s.addresses;
    manager = (load_pending_transfers any_watcher host.time w (chain_manager s)).1;
  }

  start_chains-Started :
      (cfg : Config D) (pool : Pool Handle) (redis : RedisClient) (w : Database D)
      {sv : Service D Handle}
      → (start_chains host cfg pool redis w).0 ≡ ok sv
      → (s : Enabled D) × (enabled_chains host.codecs cfg.chains ≡ ok s)
        × ((load_pending_transfers any_watcher host.time w (chain_manager s)).0 ≡ ok tt)
        × (start_chains host cfg pool redis w ≡ (ok (on_chains cfg pool redis w s), w))
  unfolding start_chains reseed ◌>>=◌ pure
  start_chains-Started cfg pool redis w h =
      let (s, set_up, same) =
        lifted StartError.tron_init_failed (enabled_chains host.codecs cfg.chains) _ w h in
      let (reseeds, end) = reseeded_ok _ _ _ w (rw same at h) in (s, set_up, reseeds, same ∙ end)

  start_with-Started :
      (cfg : Config D) (w : Database D) {sv : Service D Handle}
      → load host.parse_duration host.environment ≡ ok cfg
      → (start_with host cfg w).0 ≡ ok sv
      → Started host w sv (start_with host cfg w).1
  unfolding start_with
  start_with-Started cfg w {sv} loaded h =
      let (migrated, m) = migrated_ok StartError.migration_failed _ _ w h in
      let (pool, connected, p) = lifted StartError.connection_failed _ _ _ (rw m at h) in
      let (redis, pinged, r) = lifted StartError.connection_failed _ _ _ (rw (m, p) at h) in
      let (s, set_up, reseeds, end) = start_chains-Started cfg pool redis _ (rw (m, p, r) at h) in
      let whole = m ∙ p ∙ r ∙ end in
      let this = returned (ap (λ x. x.0) (sym whole) ∙ h) in
      subst (λ r. Started host w sv r.1) (sym whole)
        (subst
          (λ v. Started host w v (migrate host.drivers cfg.postgres_dsn cfg.migrations_dir w).1)
          (sym this)
          (record {
            loaded = loaded;
            migrated = migrated;
            database = refl;
            connected = connected;
            connected_to_redis = pinged;
            enabled = s;
            set_up = set_up;
            addresses = refl;
            reseeds = reseeds;
            manager = refl;
          }))

  -- If main gets to its goroutines, every step before them has succeeded, in its order and on what the
  -- steps before it left.
  pub start-Started :
      (w : Database D) {sv : Service D Handle}
      → (start host w).0 ≡ ok sv
      → Started host w sv (start host w).1
  unfolding start
  start-Started w h =
      let (cfg, loaded, same) = lifted StartError.config_error _ _ w h in
      rw same (start_with-Started cfg w loaded (rw same at h))
