-- ===== src/Main/Lives.antt =====
-- The process over and over on one database: each life starts main, serves for a while, and ends, by a
-- signal or a crash, with what its watchers held.
use frpay.Orders.Repository.{Error}
use frpay.Main.{AnyWatcher}
use frpay.Chains.Manager.{Manager}
use frpay.Prelude.{Option, String, none, some, List, [], ◌∷◌, All}
use frpay.Decimal.{Decimals}
use frpay.Store.{
  pure, raise, Database, Result, ok, err, Follows, pure-Follows, raise-Follows, >>=-Follows,
  wrap-Follows,
}
use frpay.Connections.{migrate, migrate_with}
use frpay.Orders.Runs.{Persists-preorder, Persists, Persists-trans}
use frpay.Api.Limiter.{Counters}
use frpay.Api.Responses.{Formats}
use frpay.Api.Kept.{Persists-refl}
use frpay.Main.Start.{
  Host, Service, StartError, lift, reseeded, reseed, start_chains, start_with, start,
}
use frpay.Main.Running.{Event, run_events}
use frpay.Main.Lasting.{run_events-Persists}

-- One life of the process: what surrounds it, and what happens while it serves.
pub record Life (D Migrator Handle : Type 0) : Type 0 where
  pub host : Host D Migrator Handle
  pub formats : Formats
  pub counters : Counters
  pub events : List Event

module _ {D : Type 0} ⦃dec : Decimals D⦄ where
  lift-Follows : {E F A : Type 0} (f : E → F) (r : Result E A) → Follows Persists (lift {D = D} f r)
  unfolding lift
  lift-Follows f (ok a) = pure-Follows Persists-preorder a
  lift-Follows f (err e) = raise-Follows Persists-preorder (f e)

module _ {D Migrator Handle : Type 0} ⦃dec : Decimals D⦄ where
  unfoldable pub served :
      Life D Migrator Handle → Result StartError (Service D Handle) → Database D → Database D
  served l (err e) w = w
  served l (ok sv) w =
      (run_events l.formats
        (record { service = sv; state = record { database = w; counters = l.counters } })
        l.events).state.database

  -- The database after one life: main serves, or exits before.
  unfoldable pub live : Life D Migrator Handle → Database D → Database D
  unfolding served
  live l w = let (r, w') = start l.host w in served l r w'

  unfoldable pub lives : List (Life D Migrator Handle) → Database D → Database D
  lives [] w = w
  lives (l ∷ ls) w = lives ls (live l w)

  -- What golang-migrate promises of migrations that are applied, and of those of the repository on an
  -- empty database: no row is lost or changed.
  abbrev pub KeepsRows : Life D Migrator Handle → Type 0
  KeepsRows l = (m : Migrator) (w : Database D) → Persists w (l.host.drivers.up m w).1

  module _ (l : Life D Migrator Handle) (keeps : KeepsRows l) where
    migrate-Follows : (dsn dir : String) → Follows Persists (migrate l.host.drivers dsn dir)
    unfolding migrate
    migrate-Follows dsn dir = record { at = λ w. with_migrator _ w }
      where
        with_migrator :
            (m : Option Migrator) (w : Database D) → Persists w (migrate_with l.host.drivers m w).1
        with_migrator none w = Persists-refl w
        with_migrator (some m) w = keeps m w

    reseed-Follows : (m : Manager (AnyWatcher D)) → Follows Persists (reseed l.host m)
    unfolding reseed reseeded pure raise
    reseed-Follows m = record { at = λ w. by_result _ _ w }
      where
        by_result :
            (m : Manager (AnyWatcher D)) (r : Result Error Unit) (w : Database D)
            → Persists w (reseeded m r w).1
        by_result m (ok _) w = Persists-refl w
        by_result m (err e) w = Persists-refl w

    start-Follows : Follows Persists (start l.host)
    unfolding start start_with start_chains
    start-Follows = >>=-Follows Persists-preorder (lift-Follows _ _) (λ cfg.
        >>=-Follows Persists-preorder (wrap-Follows Persists-preorder _ (migrate-Follows _ _)) (λ _.
          >>=-Follows Persists-preorder (lift-Follows _ _) (λ pool.
            >>=-Follows Persists-preorder (lift-Follows _ _) (λ redis.
              >>=-Follows Persists-preorder (lift-Follows _ _) (λ s.
                >>=-Follows Persists-preorder (reseed-Follows _)
                  (λ m. pure-Follows Persists-preorder _))))))

    served-Persists :
        (r : Result StartError (Service D Handle)) (w : Database D) → Persists w (served l r w)
    unfolding served
    served-Persists (err e) w = Persists-refl w
    served-Persists (ok sv) w = run_events-Persists l.formats _ l.events

    live-Persists : (w : Database D) → Persists w (live l w)
    unfolding live
    live-Persists w =
        Persists-trans w (start l.host w).1 _ (start-Follows.at w)
          (served-Persists (start l.host w).0 (start l.host w).1)

  -- However often the process is started and killed, whatever it meets in each of its lives, and
  -- whether or not it gets to serve: if migrating loses and changes no row, every order only
  -- progresses, the orders stay well-formed and consistent if they were, and nothing is taken from
  -- the review queue or the audit trail.
  pub lives-Persists :
      (ls : List (Life D Migrator Handle)) (w : Database D)
      → All KeepsRows ls
      → Persists w (lives ls w)
  unfolding lives
  lives-Persists [] w h = Persists-refl w
  lives-Persists (l ∷ ls) w h =
      Persists-trans w (live l w) _ (live-Persists l h.0 w) (lives-Persists ls (live l w) h.1)
