-- ===== src/Orders/Reseeded.antt =====
-- LoadPendingTransfers, and the transfers that the watchers wait for after it.
use frpay.Prelude.{
  is_some, subst, ◌∙◌, sym, ap, select, select-mem, [], ◌∷◌, List, Memᴰ, ◌&&◌, false, ℤ, String,
  str_eq, eq_iff, ◌≡◌, refl, Bool, true, Option, none, some, Bool-cases, inl, inr, lookup, insert,
  lookup-insert,
}
use frpay.Orders.Repository.{Error, list_confirming, list_confirming_failed}
use frpay.Decimal.{Decimals}
use frpay.Store.{
  IsPreorder, returned, Result, Database, Statement, err, is_confirming, read_only, Order, ok,
}
use frpay.Chains.Watcher.{PendingTransfer, ChainWatcher}
use frpay.Chains.Manager.{chains, Manager, seed_pending}
use frpay.Orders.Seeding.{seed_one_by, seed_orders_by, seed_chains_by}
use frpay.Orders.Service.{
  load_pending_transfers, on_listed, seed_orders, seed_chains, transfer_of, seed_one,
}

-- There is a watcher, and it passes the test.
abbrev pub at_watcher : {W : Type 0} → (W → Bool) → Option W → Bool
at_watcher p none = false
at_watcher p (some w) = p w

module _ {D W : Type 0} ⦃dec : Decimals D⦄ (cw : ChainWatcher D W) (waits : String → W → Bool)
    (total : (t : ℤ) (p : PendingTransfer D) (w : W)
      → (w' : W) × (cw.seed_pending t p w ≡ ok w')
        × (waits p.tx_hash w' ≡ true)
        × ((tx : String) → waits tx w ≡ true → waits tx w' ≡ true)) where
  -- No chain loses its watcher, and no watcher a transfer.
  record Grows (m m' : Manager W) : Type 0 where
    served : (c : String) → is_some (lookup c m) ≡ true → is_some (lookup c m') ≡ true
    waiting :
        (c tx : String)
        → at_watcher (waits tx) (lookup c m) ≡ true
        → at_watcher (waits tx) (lookup c m') ≡ true

  Grows-refl : (m : Manager W) → Grows m m
  Grows-refl m = record { served = λ c h. h; waiting = λ c tx h. h }

  Grows-trans : (a b c : Manager W) → Grows a b → Grows b c → Grows a c
  Grows-trans a b c h k = record {
    served = λ d e. k.served d (h.served d e);
    waiting = λ d tx e. k.waiting d tx (h.waiting d tx e);
  }

  insert-Grows :
      (c : String) (w w' : W) (m : Manager W)
      → lookup c m ≡ some w
      → ((tx : String) → waits tx w ≡ true → waits tx w' ≡ true)
      → Grows m (insert c w' m)
  insert-Grows c w w' m found keeps = record {
    served = λ d h.
        rw (lookup-insert c d w' m)
          (elim (Bool-cases (str_eq c d)) [ inl same ↦ rw same refl | inr other ↦ rw other h ]);
    waiting = λ d tx h. rw (lookup-insert c d w' m) (elim (Bool-cases (str_eq c d)) [
      | inl same ↦ rw same (keeps tx (rw (← (eq_iff c d).0 same, found) at h))
      | inr other ↦ rw other h
    ]);
  }

  -- Seeding an order of a chain that is served.
  seeded_one :
      (t : ℤ) (chain : String) (o : Order D) (m : Manager W) (p : PendingTransfer D) (w : W)
      → transfer_of o ≡ some p
      → lookup chain m ≡ some w
      → (w' : W) × (seed_one cw t chain o m ≡ insert chain w' m)
        × (waits p.tx_hash w' ≡ true)
        × ((tx : String) → waits tx w ≡ true → waits tx w' ≡ true)
  unfolding seed_one seed_pending
  seeded_one t chain o m p w e found =
      let (w', seeds, waits_for, keeps) = total t p w in
      (w', rw (e, seed_one, found, seed_pending, seeds) refl, waits_for, keeps)

  Grows-preorder : IsPreorder Grows
  Grows-preorder = record { reflexive = Grows-refl; transitive = Grows-trans }

  seeds-Grows :
      (t : ℤ) (p : PendingTransfer D) (c : String) (w w' : W) (m : Manager W)
      → lookup c m ≡ some w
      → cw.seed_pending t p w ≡ ok w'
      → Grows m (insert c w' m)
  seeds-Grows t p c w w' m found seeded =
      let (w'', e, waits_for, keeps) = total t p w in
      insert-Grows c w w' m found (
        subst (λ v. (tx : String) → waits tx w ≡ true → waits tx v ≡ true)
          (returned (sym seeded ∙ e)) keeps)

  served_watcher : (found : Option W) → is_some found ≡ true → (w : W) × (found ≡ some w)
  served_watcher none h = cc
  served_watcher (some w) h = (w, refl)

  seeded_here :
      (t : ℤ) (chain : String) (o : Order D) (m : Manager W) (p : PendingTransfer D)
      → transfer_of o ≡ some p
      → is_some (lookup chain m) ≡ true
      → at_watcher (waits p.tx_hash) (lookup chain (seed_one cw t chain o m)) ≡ true
  seeded_here t chain o m p e h =
      let (w, found) = served_watcher (lookup chain m) h in
      let (w', same, waits_for, keeps) = seeded_one t chain o m p w e found in
      rw (same, lookup-insert chain chain w' m, (eq_iff chain chain).1 refl) waits_for

  seeded_orders :
      (t : ℤ) (chain : String) (os : List (Order D)) (m : Manager W) {o : Order D}
      (p : PendingTransfer D)
      → Memᴰ o os
      → transfer_of o ≡ some p
      → is_some (lookup chain m) ≡ true
      → at_watcher (waits p.tx_hash) (lookup chain (seed_orders cw t chain os m)) ≡ true
  unfolding seed_orders
  seeded_orders t chain [] m p k e h = elim k [ ]
  seeded_orders t chain (o ∷ os) m p (Memᴰ.head q) e h =
      (seed_orders_by cw Grows Grows-preorder seeds-Grows t chain os
          (seed_one cw t chain o m)).waiting
        chain p.tx_hash (seeded_here t chain o m p (ap transfer_of (sym q) ∙ e) h)
  seeded_orders t chain (o ∷ os) m p (Memᴰ.tail k) e h =
      seeded_orders t chain os (seed_one cw t chain o m) p k e
        ((seed_one_by cw Grows Grows-preorder seeds-Grows t chain o m).served chain h)

  listed :
      (chain : String) (w : Database D) {os : List (Order D)}
      → (list_confirming chain w).0 ≡ ok os
      → select (λ o. str_eq o.chain chain && is_confirming o.status) w.orders ≡ os
  unfolding list_confirming
  listed chain w e = (read_only list_confirming_failed Statement.list_confirming _ w e).0

  -- The list was read, and the rest goes on with what it seeds.
  went_on :
      (next : List (Order D) → Result Error Unit × Manager W) (m : Manager W)
      (r : Result Error (List (Order D)))
      → (on_listed cw next m r).0 ≡ ok tt
      → (os : List (Order D)) × (r ≡ ok os) × (on_listed cw next m r ≡ next os)
  unfolding on_listed
  went_on next m (err e) done = cc
  went_on next m (ok os) done = (os, refl, refl)

  seeded_chains :
      (t : ℤ) (db : Database D) (cs : List String) (m : Manager W) (o : Order D)
      (p : PendingTransfer D)
      → (seed_chains cw t db cs m).0 ≡ ok tt
      → Memᴰ o.chain cs
      → Memᴰ o db.orders
      → is_confirming o.status ≡ true
      → transfer_of o ≡ some p
      → is_some (lookup o.chain m) ≡ true
      → at_watcher (waits p.tx_hash) (lookup o.chain (seed_chains cw t db cs m).1) ≡ true
  unfolding seed_chains
  seeded_chains t db [] m o p done c k confirms e h = elim c [ ]
  seeded_chains t db (c ∷ cs) m o p done (Memᴰ.head q) k confirms e h =
      let (os, read, same) = went_on _ m (list_confirming c db).0 done in
      let here = rw (listed c db read) at (
        select-mem (λ o. str_eq o.chain c && is_confirming o.status) db.orders k
          (rw ((eq_iff o.chain c).1 q, confirms) refl)) in
      rw same (
        rw q (
          (seed_chains_by cw Grows Grows-preorder seeds-Grows t db cs
              (seed_orders cw t c os m)).waiting
            c p.tx_hash (seeded_orders t c os m p here e (rw q at h))))
  seeded_chains t db (c ∷ cs) m o p done (Memᴰ.tail d) k confirms e h =
      let (os, read, same) = went_on _ m (list_confirming c db).0 done in
      rw same (
        seeded_chains t db cs (seed_orders cw t c os m) o p (rw same at done) d k confirms e
          ((seed_orders_by cw Grows Grows-preorder seeds-Grows t c os m).served o.chain h))

  mem-chains : (c : String) (m : Manager W) → is_some (lookup c m) ≡ true → Memᴰ c (chains m)
  unfolding chains lookup
  mem-chains c [] h = cc
  mem-chains c ((k, w) ∷ m) h = elim (Bool-cases (str_eq k c)) [
    | inl same ↦ Memᴰ.head (sym ((eq_iff k c).0 same))
    | inr other ↦ Memᴰ.tail (mem-chains c m (rw other at h))
  ]

  pub seeded_all :
      (t : ℤ) (db : Database D) (m : Manager W) (o : Order D) (p : PendingTransfer D)
      → (load_pending_transfers cw t db m).0 ≡ ok tt
      → Memᴰ o db.orders
      → is_confirming o.status ≡ true
      → transfer_of o ≡ some p
      → is_some (lookup o.chain m) ≡ true
      → at_watcher (waits p.tx_hash) (lookup o.chain (load_pending_transfers cw t db m).1) ≡ true
  unfolding load_pending_transfers
  seeded_all t db m o p done k confirms e h =
      seeded_chains t db (chains m) m o p done (mem-chains o.chain m h) k confirms e h
