-- ===== src/Chains/Evm/Pending.antt =====
-- The map of transfers that wait for confirmations: what seeding and refreshing leave in it.
use frpay.Chains.Pending.{lookup-add_unseen, lookup-refresh_items, or_new, settles}
use frpay.Prelude.{ap, ℤ, String, ◌≡◌, none, some, str_eq, lookup, if◌then◌else◌}
use frpay.Decimal.{Decimals}
use frpay.Store.{returned, Database, Action, ok}
use frpay.Chains.Watcher.{PendingTransfer, TransferEvent, ChainWatcher}
use frpay.Chains.Evm.Watcher.{seen_of, Watcher, seed_pending}
use frpay.Chains.Evm.Scan.{is_deep, event_of, refresh_confirmations}

module _ {D : Type 0} where
  -- SeedPending adds the transfer under its hash, keeps what the watcher has seen of that hash
  -- already, and leaves every other hash as it was.
  pub lookup-seed_pending :
      (t : PendingTransfer D) (w : Watcher D) (tx : String)
      → lookup tx (seed_pending t w).pending ≡ (
          if str_eq t.tx_hash tx
          then some (or_new (lookup tx w.pending) (seen_of t))
          else lookup tx w.pending)
  unfolding seed_pending
  lookup-seed_pending t w tx = lookup-add_unseen t.tx_hash (seen_of t) w.pending tx

  -- The watcher as the manager uses it; its SeedPending does not fail.
  unfoldable pub evm_watcher : ChainWatcher D (Watcher D)
  unfolding seed_pending
  evm_watcher = record {
    chain = λ w. w.chain;
    required_confirmations = λ w. w.required_confirms;
    seed_pending = λ t p w. ok (seed_pending p w);
    seed_chain = λ t p w w' e. ap (λ v. v.chain) (returned e);
    seed_required = λ t p w w' e. ap (λ v. v.required_confirms) (returned e);
  }

module _ {D E : Type 0} ⦃dec : Decimals D⦄ (sink : TransferEvent D → Action D E Unit) where
  -- After refreshConfirmations, the watcher has forgotten exactly the transfers that have the
  -- required confirmations at this height, whatever the sink answered to their events.
  pub lookup-refresh_confirmations :
      (t latest : ℤ) (w : Watcher D) (db : Database D) (tx : String)
      → lookup tx (refresh_confirmations sink t latest w db).0.pending ≡ (
          if settles (is_deep latest w.required_confirms) tx w.pending
          then none
          else lookup tx w.pending)
  unfolding refresh_confirmations
  lookup-refresh_confirmations t latest w db tx =
      lookup-refresh_items sink (event_of t latest w.chain) (is_deep latest w.required_confirms) tx
        w.pending w.pending db
