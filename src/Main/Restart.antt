-- ===== src/Main/Restart.antt =====
-- A start on the orders of an earlier run: what the watchers of main wait for.
use frpay.Prelude.{ℤ, String, ◌≡◌, refl, Bool, true, some, Memᴰ, is_some, lookup}
use frpay.Decimal.{Decimals}
use frpay.Store.{Order, Database, ok, is_confirming}
use frpay.Chains.Watcher.{PendingTransfer}
use frpay.Chains.Manager.{Manager}
use frpay.Chains.Pending.{has-add_unseen, add_unseen_keeps}
use frpay.Chains.Evm.Watcher.{seed_pending}
use frpay.Chains.Evm.Pending.{evm_watcher}
use frpay.Chains.Tron.Watcher.{tron_watcher, seed_pending as seed_tron}
use frpay.Chains.Ton.Watcher.{ton_watcher, seed_pending as seed_ton}
use frpay.Orders.Service.{transfer_of, load_pending_transfers}
use frpay.Orders.Reseeded.{at_watcher, seeded_all}
use frpay.Main.{AnyWatcher, tron_one, ton_one, evm_one, any_watcher, seed_any}

module _ {D : Type 0} where
  -- The watcher has the transfer among those that wait for confirmations.
  unfoldable pub is_waiting : String → AnyWatcher D → Bool
  is_waiting tx (tron_one w) = is_some (lookup tx w.pending)
  is_waiting tx (ton_one w) = is_some (lookup tx w.pending)
  is_waiting tx (evm_one w) = is_some (lookup tx w.pending)

  seeds :
      (t : ℤ) (p : PendingTransfer D) (w : AnyWatcher D)
      → (w' : AnyWatcher D) × (seed_any t p w ≡ ok w')
        × (is_waiting p.tx_hash w' ≡ true)
        × ((tx : String) → is_waiting tx w ≡ true → is_waiting tx w' ≡ true)
  unfolding is_waiting seed_any evm_watcher tron_watcher ton_watcher seed_pending seed_tron seed_ton
  seeds t p (tron_one w) = (
    tron_one (seed_tron p w),
    refl,
    has-add_unseen p.tx_hash _ w.pending,
    add_unseen_keeps p.tx_hash _ w.pending,
  )
  seeds t p (ton_one w) = (
    ton_one (seed_ton t p w),
    refl,
    has-add_unseen p.tx_hash _ w.pending,
    add_unseen_keeps p.tx_hash _ w.pending,
  )
  seeds t p (evm_one w) = (
    evm_one (seed_pending p w),
    refl,
    has-add_unseen p.tx_hash _ w.pending,
    add_unseen_keeps p.tx_hash _ w.pending,
  )

  -- If LoadPendingTransfers returns without an error at the start, then for every confirming order
  -- that has a transfer and a received amount, and whose chain has a watcher, the watcher of its
  -- chain, be it of TRON, TON or an EVM chain, waits for this transfer afterwards.
  pub restart_forgets_nothing :
      ⦃dec : Decimals D⦄ (t : ℤ) (db : Database D) (m : Manager (AnyWatcher D)) (o : Order D)
      (p : PendingTransfer D)
      → (load_pending_transfers any_watcher t db m).0 ≡ ok tt
      → Memᴰ o db.orders
      → is_confirming o.status ≡ true
      → transfer_of o ≡ some p
      → is_some (lookup o.chain m) ≡ true
      → at_watcher
          (is_waiting p.tx_hash)
          (lookup o.chain (load_pending_transfers any_watcher t db m).1)
        ≡ true
  restart_forgets_nothing t db m o p =
      seeded_all any_watcher is_waiting (unfold any_watcher in seeds) t db m o p
