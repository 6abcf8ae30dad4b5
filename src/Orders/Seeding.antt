-- ===== src/Orders/Seeding.antt =====
-- LoadPendingTransfers as a rule: what every seeding of a watcher does to the manager, the whole loop does.
use frpay.Prelude.{
  ℤ, String, ◌≡◌, refl, some, List, [], ◌∷◌, Option-cases, inl, inr, lookup, insert,
}
use frpay.Decimal.{Decimals}
use frpay.Store.{Order, Database, Result, ok, err, IsPreorder}
use frpay.Chains.Watcher.{PendingTransfer, ChainWatcher}
use frpay.Chains.Manager.{Manager, chains, seed_pending}
use frpay.Orders.Repository.{Error, list_confirming}
use frpay.Orders.Service.{
  load_pending_transfers, on_listed, seed_orders, seed_chains, transfer_of, seed_one,
}

module _ {D W : Type 0} ⦃dec : Decimals D⦄ (cw : ChainWatcher D W)
    (R : Manager W → Manager W → Type 0) (pre : IsPreorder R)
    (seeds : (t : ℤ) (p : PendingTransfer D) (c : String) (w w' : W) (m : Manager W)
      → lookup c m ≡ some w
      → cw.seed_pending t p w ≡ ok w'
      → R m (insert c w' m)) where
  seeded_watcher :
      (t : ℤ) (p : PendingTransfer D) (chain : String) (w : W) (m : Manager W) (r : Result Unit W)
      → lookup chain m ≡ some w
      → cw.seed_pending t p w ≡ r
      → R m
          (elim (elim r as (λ _. Result Unit (Manager W)) [
            | ok w' ↦ ok (insert chain w' m)
            | err e ↦ err e
          ])
            as (λ _. Manager W) [ ok m' ↦ m' | err _ ↦ m ])
  seeded_watcher t p chain w m (ok w') found e = seeds t p chain w w' m found e
  seeded_watcher t p chain w m (err x) found e = pre.reflexive m

  pub seed_one_by :
      (t : ℤ) (chain : String) (o : Order D) (m : Manager W) → R m (seed_one cw t chain o m)
  unfolding seed_one seed_pending
  seed_one_by t chain o m = elim (Option-cases (transfer_of o)) [
    | inl nothing ↦ rw (nothing, seed_one) (pre.reflexive m)
    | inr (p, e) ↦ elim (Option-cases (lookup chain m)) [
      | inl unserved ↦ rw (e, seed_one, unserved, seed_pending) (pre.reflexive m)
      | inr (w, found) ↦
          rw (e, seed_one, found, seed_pending)
            (seeded_watcher t p chain w m (cw.seed_pending t p w) found refl)
    ]
  ]

  pub seed_orders_by :
      (t : ℤ) (chain : String) (os : List (Order D)) (m : Manager W)
      → R m (seed_orders cw t chain os m)
  unfolding seed_orders
  seed_orders_by t chain [] m = pre.reflexive m
  seed_orders_by t chain (o ∷ os) m =
      pre.transitive m _ _ (seed_one_by t chain o m)
        (seed_orders_by t chain os (seed_one cw t chain o m))

  listed_by :
      (next : List (Order D) → Result Error Unit × Manager W) (m : Manager W)
      (r : Result Error (List (Order D)))
      → ((os : List (Order D)) → R m (next os).1)
      → R m (on_listed cw next m r).1
  unfolding on_listed
  listed_by next m (err e) h = pre.reflexive m
  listed_by next m (ok os) h = h os

  pub seed_chains_by :
      (t : ℤ) (db : Database D) (cs : List String) (m : Manager W)
      → R m (seed_chains cw t db cs m).1
  unfolding seed_chains
  seed_chains_by t db [] m = pre.reflexive m
  seed_chains_by t db (c ∷ cs) m = listed_by _ m (list_confirming c db).0 (λ os.
      pre.transitive m _ _ (seed_orders_by t c os m)
        (seed_chains_by t db cs (seed_orders cw t c os m)))

  pub load_pending_transfers_by :
      (t : ℤ) (db : Database D) (m : Manager W) → R m (load_pending_transfers cw t db m).1
  unfolding load_pending_transfers
  load_pending_transfers_by t db m = seed_chains_by t db (chains m) m
