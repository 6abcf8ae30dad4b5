-- ===== src/Orders/Accounting/Confirmed.antt =====
-- OnTransfer on a transfer that has the confirmations that its order requires, while nothing fails.
use frpay.Prelude.{
  ℤ, String, eq_iff, ◌≡◌, refl, ◌∙◌, arith, true, false, ◌&&◌, ◌||◌, ◌==◌, none, some, List, Memᴰ,
  any-some, update, mem-update, fits_int32, ◌≤ℤ◌, str_eq, if◌then◌else◌,
}
use frpay.Decimal.{Decimals}
use frpay.Store.{
  Order, Database, Statement, statement, wrap, write_orders, consistent, conflicts, same_tx,
  same_amount, same_pending_amount, confirming, confirmed, has_tx, is_pending,
}
use frpay.Chains.Watcher.{TransferEvent}
use frpay.Orders.Repository.{awaits, advanced, update_confirmations}
use frpay.Orders.Service.{Settings, on_transfer}
use frpay.Orders.Lifecycle.{Progress}
use frpay.Orders.Lifecycle.Methods.{advanced-Progress}
use frpay.Orders.Accounting.{is_claimed}
use frpay.Orders.Accounting.Admitted.{consistent_updated}
use frpay.Orders.Accounting.Redelivered.{redelivered_once}

module _ {D : Type 0} ⦃dec : Decimals D⦄ where
  -- What the indexes read of a row.
  record SameKeys (o p : Order D) : Type 0 where
    id : p.id ≡ o.id
    chain : p.chain ≡ o.chain
    expected_amount : p.expected_amount ≡ o.expected_amount
    tx_hash : p.tx_hash ≡ o.tx_hash
    pending : is_pending p.status ≡ is_pending o.status

  conflicts_same :
      (a b a' b' : Order D) → SameKeys a a' → SameKeys b b' → conflicts a' b' ≡ conflicts a b
  unfolding conflicts same_pending_amount same_tx
  conflicts_same a b a' b' h k = λ i.
      h.id i == k.id i
      || (h.pending i
            && (k.pending i
                && (str_eq (h.chain i) (k.chain i)
                    && same_amount (h.expected_amount i) (k.expected_amount i)))
          || str_eq (h.chain i) (k.chain i)
            && elim (h.tx_hash i) [ none ↦ false | some tx ↦ has_tx tx (k.tx_hash i) ])

  advanced-SameKeys :
      (chain tx : String) (now height n : ℤ) (o : Order D)
      → SameKeys o (if awaits chain tx n o then advanced now height n o else o)
  unfolding awaits advanced
  advanced-SameKeys chain tx now height n o = ground arith

  -- The indexes admit what UpdateConfirmations writes.
  pub advanced-consistent :
      (chain tx : String) (now height n : ℤ) (os : List (Order D))
      → consistent os ≡ true
      → consistent (update (awaits chain tx n) (advanced now height n) os) ≡ true
  advanced-consistent chain tx now height n os c =
      consistent_updated (awaits chain tx n) (advanced now height n) os
        (λ a b i j apart.
          conflicts_same a b _ _ (advanced-SameKeys chain tx now height n a)
            (advanced-SameKeys chain tx now height n b)
          ∙ apart)
        c

  updated :
      (chain tx : String) (height n : ℤ) (w : Database D)
      → w.fails Statement.update_confirmations ≡ false
      → fits_int32 n ≡ true
      → consistent w.orders ≡ true
      → (update_confirmations chain tx height n w).1.orders
        ≡ update (awaits chain tx n) (advanced w.now height n) w.orders
  unfolding update_confirmations wrap statement write_orders
  updated chain tx height n w up counts rows =
      rw (up, counts, advanced-consistent chain tx w.now height n w.orders rows) refl

  awaits_it :
      (chain tx : String) (n : ℤ) (o : Order D)
      → o.chain ≡ chain
      → o.tx_hash ≡ some tx
      → o.status ≡ confirming
      → o.confirmations ≤ℤ n
      → awaits chain tx n o ≡ true
  unfolding awaits
  awaits_it chain tx n o c t s h = rw (c, t, s) (ground (arith, eq_iff chain chain, eq_iff tx tx))

  reached :
      (now height n : ℤ) (o : Order D)
      → o.required_confirmations ≤ℤ n
      → (advanced now height n o).status ≡ confirmed
  unfolding advanced
  reached now height n o h = ground arith

module _ {D : Type 0} ⦃dec : Decimals D⦄ (s : Settings D) (e : TransferEvent D) where
  -- While UpdateConfirmations does not fail, the orders are consistent, and the count of confirmations
  -- is an int32: an order that waits with this transfer, and requires no more confirmations than the
  -- event has, is confirmed once OnTransfer has run.
  pub deep_transfer_confirmed :
      (w : Database D) (o : Order D)
      → w.fails Statement.update_confirmations ≡ false
      → fits_int32 e.confirmations ≡ true
      → consistent w.orders ≡ true
      → Memᴰ o w.orders
      → o.chain ≡ e.chain
      → o.tx_hash ≡ some e.tx_hash
      → o.status ≡ confirming
      → o.confirmations ≤ℤ e.confirmations
      → o.required_confirmations ≤ℤ e.confirmations
      → (p : Order D) × Memᴰ p (on_transfer s e w).1.orders × (p.status ≡ confirmed) × Progress o p
  deep_transfer_confirmed w o up counts rows m c t st h deep =
      let waits = awaits_it e.chain e.tx_hash e.confirmations o c t st h in
      let claimed : is_claimed e.chain e.tx_hash w.orders ≡ true =
        any-some _ m
          (rw (c, t) (ground (arith, eq_iff e.chain e.chain, eq_iff e.tx_hash e.tx_hash))) in
      let set = advanced w.now e.block_height e.confirmations in
      let same =
        (redelivered_once s e w claimed).0
        ∙ updated e.chain e.tx_hash e.block_height e.confirmations w up counts rows in
      (
        set o,
        rw (same) (rw waits at (mem-update (awaits e.chain e.tx_hash e.confirmations) set m)),
        reached w.now e.block_height e.confirmations o deep,
        advanced-Progress e.chain e.tx_hash w.now e.block_height e.confirmations o waits,
      )
