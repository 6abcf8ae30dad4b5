-- ===== src/Main/Ready.antt =====
-- What the service that main starts serves: the chains of the configuration, and the transfers of earlier runs.
use frpay.Prelude.{
  subst, ℤ, String, ◌≡◌, refl, sym, ◌∙◌, ap, Bool, true, false, Option, none, some, lookup,
  lookup-insert, insert, is_some, str_eq, eq_iff, Memᴰ, if◌then◌else◌,
}
use frpay.Decimal.{Decimals}
use frpay.Store.{IsPreorder, Order, Database, ok, is_confirming}
use frpay.Chains.Watcher.{PendingTransfer}
use frpay.Chains.Manager.{Manager, required_confirmations}
use frpay.Config.Required.{IsUsable, load-IsUsable}
use frpay.Orders.Service.{transfer_of}
use frpay.Orders.Reseeded.{at_watcher}
use frpay.Orders.Seeding.{load_pending_transfers_by}
use frpay.Main.{chain_manager, AnyWatcher, any_watcher}
use frpay.Main.Served.{well_addressed, main-ServesAddressed}
use frpay.Main.Confirmations.{configured, manager_requires-configured}
use frpay.Main.Restart.{is_waiting, restart_forgets_nothing}
use frpay.Main.Start.{Host, Service, start}
use frpay.Main.Started.{start-Started}

module _ {D : Type 0} where
  -- The chains of both are the same, with the same confirmations.
  pub record SameChains (m m' : Manager (AnyWatcher D)) : Type 0 where
    pub same :
        (c : String)
        → required_confirmations any_watcher c m' ≡ required_confirmations any_watcher c m

  pub SameChains-preorder : IsPreorder SameChains
  SameChains-preorder = record {
    reflexive = λ m. record { same = λ c. refl };
    transitive = λ a b c h k. record { same = λ d. k.same d ∙ h.same d };
  }

  abbrev required_at : Option (AnyWatcher D) → Option ℤ
  required_at none = none
  required_at (some w) = some (any_watcher.required_confirmations w)

  replaced :
      (b : Bool) (w w' : AnyWatcher D) (here : Option (AnyWatcher D))
      → (b ≡ true → here ≡ some w)
      → any_watcher.required_confirmations w' ≡ any_watcher.required_confirmations w
      → required_at (if b then some w' else here) ≡ required_at here
  replaced true w w' here found e = rw (found refl) (ap some e)
  replaced false w w' here found e = refl

  -- A watcher that requires what it did stands in its place.
  pub insert-SameChains :
      (c : String) (w w' : AnyWatcher D) (m : Manager (AnyWatcher D))
      → lookup c m ≡ some w
      → any_watcher.required_confirmations w' ≡ any_watcher.required_confirmations w
      → SameChains m (insert c w' m)
  unfolding required_confirmations
  insert-SameChains c w w' m found e = record {
    same = λ d.
        ap required_at (lookup-insert c d w' m)
        ∙ replaced (str_eq c d) w w' (lookup d m)
            (λ hit. ap (λ k. lookup k m) (sym ((eq_iff c d).0 hit)) ∙ found) e;
  }

  well_addressed_same :
      (a b : Option (AnyWatcher D)) (address : Option String)
      → required_at a ≡ required_at b
      → well_addressed a address ≡ well_addressed b address
  well_addressed_same none none address h = refl
  well_addressed_same none (some w) address h = cc
  well_addressed_same (some v) none address h = cc
  well_addressed_same (some v) (some w) none h = refl
  well_addressed_same (some v) (some w) (some address) h = refl

  required_served : (a : Option (AnyWatcher D)) → is_some (required_at a) ≡ is_some a
  required_served none = refl
  required_served (some w) = refl

  pub is_served :
      (c : String) (m : Manager (AnyWatcher D))
      → is_some (required_confirmations any_watcher c m) ≡ is_some (lookup c m)
  unfolding required_confirmations
  is_served c m = required_served (lookup c m)

  pub SameChains_addressed :
      {m m' : Manager (AnyWatcher D)} (c : String) (address : Option String)
      → SameChains m m'
      → well_addressed (lookup c m') address ≡ well_addressed (lookup c m) address
  unfolding required_confirmations
  SameChains_addressed {m} {m'} c address h =
      well_addressed_same (lookup c m') (lookup c m) address (h.same c)

module _ {D Migrator Handle : Type 0} ⦃dec : Decimals D⦄ (host : Host D Migrator Handle)
    (w : Database D) (sv : Service D Handle) (started : (start host w).0 ≡ ok sv) where
  seeded-SameChains : SameChains (chain_manager (start-Started host w started).enabled) sv.manager
  seeded-SameChains =
      let st = start-Started host w started in
      subst (SameChains (chain_manager st.enabled)) (sym st.manager) (
        load_pending_transfers_by any_watcher SameChains SameChains-preorder
          (λ t p c w w' m found e.
            insert-SameChains c w w' m found (any_watcher.seed_required t p w w' e))
          host.time _ (chain_manager st.enabled))

  -- If main gets to its goroutines, the configuration has a DSN, an API key and an address for every
  -- chain that it enables; every chain has a watcher and an address that is not empty, or neither; and
  -- the manager requires for a chain the confirmations that the configuration sets for it.
  pub start_ready :
      (c : String)
      → IsUsable sv.config
        × (well_addressed (lookup c sv.manager) (lookup c sv.addresses) ≡ true)
        × (required_confirmations any_watcher c sv.manager ≡ configured sv.config.chains c)
  start_ready c =
      let st = start-Started host w started in
      (
        load-IsUsable host.environment host.parse_duration sv.config st.loaded,
        SameChains_addressed c (lookup c sv.addresses) seeded-SameChains
            ∙ ap (λ a. well_addressed (lookup c (chain_manager st.enabled)) (lookup c a))
                st.addresses
            ∙ main-ServesAddressed host.codecs host.parse_duration host.environment sv.config
                st.enabled st.loaded st.set_up c,
        seeded-SameChains.same c
            ∙ manager_requires-configured host.codecs sv.config.chains st.enabled c st.set_up,
      )

  -- If main gets to its goroutines, then for every confirming order that has a transfer and a received
  -- amount, and whose chain is enabled, the watcher of its chain waits for this transfer.
  pub start_forgets_nothing :
      (o : Order D) (p : PendingTransfer D)
      → Memᴰ o (start host w).1.orders
      → is_confirming o.status ≡ true
      → transfer_of o ≡ some p
      → is_some (configured sv.config.chains o.chain) ≡ true
      → at_watcher (is_waiting p.tx_hash) (lookup o.chain sv.manager) ≡ true
  start_forgets_nothing o p k confirms e on =
      let st = start-Started host w started in
      subst (λ m. at_watcher (is_waiting p.tx_hash) (lookup o.chain m) ≡ true) (sym st.manager)
        (restart_forgets_nothing host.time _ (chain_manager st.enabled) o p st.reseeds k confirms e
          (sym (is_served o.chain (chain_manager st.enabled))
            ∙ ap is_some (
                manager_requires-configured host.codecs sv.config.chains st.enabled o.chain
                  st.set_up)
            ∙ on))
