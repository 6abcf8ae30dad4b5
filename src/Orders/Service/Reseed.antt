-- ===== src/Orders/Service/Reseed.antt =====
-- internal/orders/service.go: LoadPendingTransfers.
use frpay.Prelude.{ℤ, pos, String, Option, none, some, List, [], ◌∷◌}
use frpay.Decimal.{Decimals}
use frpay.Store.{Order, Database, Result, ok, err}
use frpay.Chains.Watcher.{PendingTransfer, ChainWatcher}
use frpay.Chains.Manager.{Manager, chains, seed_pending}
use frpay.Orders.Repository.{Error, list_confirming}

abbrev pub height_or_zero : Option ℤ → ℤ
height_or_zero none = pos 0
height_or_zero (some h) = h

module _ {D : Type 0} where
  -- The transfer that an order waits for; none is the loop's `continue`.
  unfoldable pub transfer_of : Order D → Option (PendingTransfer D)
  transfer_of o = elim o.tx_hash [
    | none ↦ none
    | some tx ↦ elim o.received_amount [
      | none ↦ none
      | some amount ↦ some (record {
        tx_hash = tx;
        amount = amount;
        block_height = height_or_zero o.tx_block_height;
      })
    ]
  ]

module _ {D W : Type 0} (cw : ChainWatcher D W) where
  -- A watcher's error is only logged.
  unfoldable pub seed_one : ℤ → String → Order D → Manager W → Manager W
  seed_one t chain o m = elim (transfer_of o) [
    | none ↦ m
    | some p ↦ elim (seed_pending cw t chain p m) [ ok m' ↦ m' | err _ ↦ m ]
  ]

  unfoldable pub seed_orders : ℤ → String → List (Order D) → Manager W → Manager W
  seed_orders t chain [] m = m
  seed_orders t chain (o ∷ os) m = seed_orders t chain os (seed_one t chain o m)

module _ {D W : Type 0} ⦃dec : Decimals D⦄ (cw : ChainWatcher D W) where
  -- What follows the list of a chain's orders.
  unfoldable pub on_listed :
      (List (Order D) → Result Error Unit × Manager W)
      → Manager W
      → Result Error (List (Order D))
      → Result Error Unit × Manager W
  on_listed next m (err e) = (err e, m)
  on_listed next m (ok os) = next os

  -- The loop over the chains, at the host's time `t`.
  unfoldable pub seed_chains :
      ℤ → Database D → List String → Manager W → Result Error Unit × Manager W
  unfolding on_listed
  seed_chains t w [] m = (ok tt, m)
  seed_chains t w (chain ∷ cs) m =
      on_listed (λ os. seed_chains t w cs (seed_orders cw t chain os m)) m
        (list_confirming chain w).0

  unfoldable pub load_pending_transfers : ℤ → Database D → Manager W → Result Error Unit × Manager W
  load_pending_transfers t w m = seed_chains t w (chains m) m
