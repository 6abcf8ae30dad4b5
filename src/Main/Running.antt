-- ===== src/Main/Running.antt =====
-- cmd/frenixpay/main.go after the start: the goroutines of the watchers, the expiry loop and the HTTP
-- server, on one database, one Redis and the transfers that the watchers hold.
use frpay.Prelude.{ℕ, ℤ, String, Bool, none, some, List, [], ◌∷◌, lookup, insert}
use frpay.Decimal.{Decimals}
use frpay.Store.{Database, Statement, Action}
use frpay.Chains.Watcher.{TransferEvent}
use frpay.Chains.Manager.{Manager}
use frpay.Chains.Evm.Watcher.{Node}
use frpay.Chains.Evm.Scan.{poll_once}
use frpay.Chains.Tron.Scan.{Grid, poll_once as poll_tron}
use frpay.Chains.Tron.Watcher.{or_empty}
use frpay.Chains.Ton.Scan.{Center, poll_once as poll_ton}
use frpay.Orders.Repository.{Error, Draw}
use frpay.Orders.Service.{Settings, on_transfer, expire_once}
use frpay.Api.Limiter.{Limiter}
use frpay.Api.Responses.{Formats}
use frpay.Api.Routes.{Request, Router, State, serve}
use frpay.Main.{AnyWatcher, tron_one, ton_one, evm_one, any_watcher, settings_of}
use frpay.Main.Start.{Service}

-- What the clients of the three kinds of watcher answer during a poll, and the host's time.
pub record Outside : Type 0 where
  pub time : ℤ
  pub grid : Grid
  pub center : Center
  pub node : Node

-- The process while it serves: what main has built, with the watchers as they are now, and the tables
-- and counters.
pub record System (D Handle : Type 0) : Type 0 where
  pub service : Service D Handle
  pub state : State D

-- What a goroutine does, or the world.
pub data Event : Type 0 where
  -- a tick of the watcher of a chain, and of the expiry loop
  ticks : String → Outside → Event
  expires : Event
  -- a request at a time in seconds, with the host's random draws
  requests : (ℕ → Draw) → ℕ → Request → Event
  -- the database's clock, the locks of others, the outages of Postgres and of Redis
  moves : ℤ → (ℕ → Bool) → (Statement → Bool) → Bool → Event

module _ {D : Type 0} ⦃dec : Decimals D⦄ where
  -- transferSinkProxy: the sink of every watcher is the service that main sets later.
  unfoldable pub proxy_on_transfer : Settings D → TransferEvent D → Action D Error Unit
  proxy_on_transfer = on_transfer

  unfoldable pub poll_any :
      Settings D → Outside → AnyWatcher D → Database D → AnyWatcher D × Database D
  unfolding proxy_on_transfer
  poll_any s o (tron_one w) db =
      let (w', db') = poll_tron (proxy_on_transfer s) o.time o.grid w db in (tron_one w', db')
  poll_any s o (ton_one w) db =
      let (w', db') = poll_ton (proxy_on_transfer s) o.time o.center w db in (ton_one w', db')
  poll_any s o (evm_one w) db =
      let (w', db') = poll_once (proxy_on_transfer s) o.time o.node w db in (evm_one w', db')

  -- A tick of the goroutine of a chain; there is none for a chain without a watcher.
  unfoldable pub poll_chain :
      Settings D
      → Outside
      → String
      → Manager (AnyWatcher D)
      → Database D
      → Manager (AnyWatcher D) × Database D
  poll_chain s o chain m db = elim (lookup chain m) [
    | none ↦ (m, db)
    | some w ↦ let (w', db') = poll_any s o w db in (insert chain w' m, db')
  ]

-- NewLimiter with time.Minute
abbrev pub per_minute : ℤ → Limiter
per_minute limit = record { limit = limit; window = 60 }

module _ {D Handle : Type 0} ⦃dec : Decimals D⦄ (formats : Formats) where
  -- The arguments of NewRouter. The manager is shared with the watchers' goroutines.
  unfoldable pub router_of : Service D Handle → Router D (AnyWatcher D)
  router_of sv = record {
    handlers = record {
      watcher = any_watcher;
      manager = sv.manager;
      settings = settings_of sv.config;
      addresses = λ c. or_empty (lookup c sv.addresses);
      formats = formats;
    };
    api_key = sv.config.api_key;
    orders_limiter = per_minute sv.config.orders_rate_limit_per_minute;
    public_limiter = per_minute sv.config.public_rate_limit_per_minute;
  }

  unfoldable pub after_poll :
      System D Handle → Manager (AnyWatcher D) × Database D → System D Handle
  after_poll sys (m, db) = record {
    service = record sys.service { manager = m };
    state = record sys.state { database = db };
  }

  -- The process after one event.
  unfoldable pub step : System D Handle → Event → System D Handle
  unfolding after_poll poll_chain router_of
  step sys (ticks chain o) =
      after_poll sys
        (poll_chain (settings_of sys.service.config) o chain sys.service.manager sys.state.database)
  step sys expires = record sys {
    state = record sys.state { database = expire_once sys.state.database };
  }
  step sys (requests draws seconds req) = record sys {
    state = (serve (router_of sys.service) draws seconds req sys.state).1;
  }
  step sys (moves now locked fails redis_is_up) = record sys {
    state = record {
      database = record sys.state.database { now = now; locked = locked; fails = fails };
      counters = record sys.state.counters { is_up = redis_is_up };
    };
  }

  -- The process after its events, in the order in which they happen.
  unfoldable pub run_events : System D Handle → List Event → System D Handle
  run_events sys [] = sys
  run_events sys (e ∷ es) = run_events (step sys e) es
