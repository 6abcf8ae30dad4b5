-- ===== src/Main/Lasting.antt =====
-- What lasts while the service runs, whatever its goroutines do and in whichever order.
use frpay.Prelude.{
  ◌≡◌, refl, ◌∙◌, ap, String, true, Option-cases, inl, inr, List, [], ◌∷◌, lookup, Extends-refl,
}
use frpay.Decimal.{Decimals}
use frpay.Store.{Database, ok}
use frpay.Chains.Manager.{Manager, required_confirmations}
use frpay.Orders.Service.{Settings}
use frpay.Orders.Lifecycle.{Progress, Progress-refl, same_refl}
use frpay.Orders.Lifecycle.Transfers.{expire_once-Later}
use frpay.Orders.Runs.{Persists, of_Later, Persists-trans}
use frpay.Api.Responses.{Formats}
use frpay.Api.Kept.{serve-Persists, Persists-refl}
use frpay.Main.{AnyWatcher, any_watcher}
use frpay.Main.Served.{well_addressed}
use frpay.Main.Confirmations.{configured}
use frpay.Main.Start.{Host, Service, start}
use frpay.Main.Ready.{
  SameChains, SameChains-preorder, insert-SameChains, SameChains_addressed, start_ready,
}
use frpay.Main.Running.{
  Outside, System, Event, ticks, expires, requests, moves, poll_any, poll_chain, after_poll, step,
  run_events,
}
use frpay.Main.Polls.{poll_any-Persists, poll_any_required}

module _ {D : Type 0} ⦃dec : Decimals D⦄ where
  poll_chain-Persists :
      (s : Settings D) (o : Outside) (chain : String) (m : Manager (AnyWatcher D)) (db : Database D)
      → Persists db (poll_chain s o chain m db).1
  unfolding poll_chain
  poll_chain-Persists s o chain m db = elim (Option-cases (lookup chain m)) [
    | inl unserved ↦ rw (unserved, poll_chain) (Persists-refl db)
    | inr (w, found) ↦ rw (found, poll_chain) (poll_any-Persists s o w db)
  ]

  poll_chain-SameChains :
      (s : Settings D) (o : Outside) (chain : String) (m : Manager (AnyWatcher D)) (db : Database D)
      → SameChains m (poll_chain s o chain m db).0
  unfolding poll_chain
  poll_chain-SameChains s o chain m db = elim (Option-cases (lookup chain m)) [
    | inl unserved ↦ rw (unserved, poll_chain) (SameChains-preorder.reflexive m)
    | inr (w, found) ↦
        rw (found, poll_chain)
          (insert-SameChains chain w (poll_any s o w db).0 m found (poll_any_required s o w db))
  ]

module _ {D Handle : Type 0} ⦃dec : Decimals D⦄ (formats : Formats) where
  step-Persists :
      (sys : System D Handle) (e : Event)
      → Persists sys.state.database (step formats sys e).state.database
  unfolding step after_poll
  step-Persists sys (ticks chain o) = poll_chain-Persists _ o chain _ _
  step-Persists sys expires = of_Later (expire_once-Later sys.state.database)
  step-Persists sys (requests draws seconds req) = serve-Persists _ draws seconds req sys.state
  step-Persists sys (moves now locked fails up) = record {
    orders = Extends-refl Progress Progress-refl sys.state.database.orders;
    well_formed = λ h. h;
    consistent_orders = λ h. h;
    review_items = same_refl sys.state.database.review_items;
    audit_log = same_refl sys.state.database.audit_log;
  }

  -- However the ticks of the watchers, those of the expiry loop, the requests and the moves of the
  -- world follow one another, every order only progresses: it keeps what was agreed and follows the
  -- arrows of the lifecycle; the orders stay well-formed and consistent if they were, and nothing is
  -- taken from the review queue or the audit trail.
  pub run_events-Persists :
      (sys : System D Handle) (es : List Event)
      → Persists sys.state.database (run_events formats sys es).state.database
  unfolding run_events
  run_events-Persists sys [] = Persists-refl sys.state.database
  run_events-Persists sys (e ∷ es) =
      Persists-trans sys.state.database _ _ (step-Persists sys e)
        (run_events-Persists (step formats sys e) es)

  -- What main has built stays, and the manager serves the same chains.
  record SameService (sv sv' : Service D Handle) : Type 0 where
    config : sv'.config ≡ sv.config
    addresses : sv'.addresses ≡ sv.addresses
    chains : SameChains sv.manager sv'.manager

  step-SameService :
      (sys : System D Handle) (e : Event) → SameService sys.service (step formats sys e).service
  unfolding step after_poll
  step-SameService sys (ticks chain o) = record {
    config = refl;
    addresses = refl;
    chains = poll_chain-SameChains _ o chain _ _;
  }
  step-SameService sys expires = record {
    config = refl;
    addresses = refl;
    chains = SameChains-preorder.reflexive _;
  }
  step-SameService sys (requests draws seconds req) = record {
    config = refl;
    addresses = refl;
    chains = SameChains-preorder.reflexive _;
  }
  step-SameService sys (moves now locked fails up) = record {
    config = refl;
    addresses = refl;
    chains = SameChains-preorder.reflexive _;
  }

  run_events-SameService :
      (sys : System D Handle) (es : List Event)
      → SameService sys.service (run_events formats sys es).service
  unfolding run_events
  run_events-SameService sys [] = record {
    config = refl;
    addresses = refl;
    chains = SameChains-preorder.reflexive _;
  }
  run_events-SameService sys (e ∷ es) =
      let first = step-SameService sys e in
      let rest = run_events-SameService (step formats sys e) es in
      record {
        config = rest.config ∙ first.config;
        addresses = rest.addresses ∙ first.addresses;
        chains = SameChains-preorder.transitive _ _ _ first.chains rest.chains;
      }

  module _ {Migrator : Type 0} (host : Host D Migrator Handle) (w : Database D)
      (sys : System D Handle) (started : (start host w).0 ≡ ok sys.service) (es : List Event) where
    -- Whatever happens after main has got to its goroutines, every chain has a watcher and an
    -- address that is not empty, or neither; and the manager requires for a chain the confirmations
    -- that the configuration sets for it.
    pub stays_ready :
        (c : String)
        → let later = (run_events formats sys es).service in
          (well_addressed (lookup c later.manager) (lookup c later.addresses) ≡ true)
          × (required_confirmations any_watcher c later.manager
              ≡ configured sys.service.config.chains c)
    stays_ready c =
        let same = run_events-SameService sys es in
        let (usable, addressed, required) = start_ready host w sys.service started c in
        (
          SameChains_addressed c _ same.chains
              ∙ ap (λ a. well_addressed (lookup c sys.service.manager) (lookup c a)) same.addresses
              ∙ addressed,
          same.chains.same c ∙ required,
        )
