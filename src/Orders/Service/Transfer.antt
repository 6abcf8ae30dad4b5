-- ===== src/Orders/Service/Transfer.antt =====
-- internal/orders/service.go: OnTransfer, by its stages.
use frpay.Prelude.{Bool, true, false, Option, String, none, some, [], ◌∷◌}
use frpay.Decimal.{Decimals}
use frpay.Store.{
  Status, confirmed, status_text, Order, text, number, reason_unmatched, reason_underpaid, Action,
  pure, ◌>>=◌, ◌>>◌, ignore,
}
use frpay.Audit.{log}
use frpay.Chains.Watcher.{TransferEvent}
use frpay.Orders.Repository.{
  Error, update_confirmations, tx_already_claimed, claim_exact_match, claim_underpaid,
  log_review_item,
}
use frpay.Orders.Service.Create.{Settings}

module _ {D : Type 0} ⦃dec : Decimals D⦄ where
  unfoldable pub log_if_confirmed : Status → Order D → TransferEvent D → Action D Error Unit
  log_if_confirmed confirmed order event = ignore (
      log (some order.id) event.chain event.tx_hash "order_confirmed"
        (("received_amount", text (dec.to_text event.amount)) ∷ []))
  log_if_confirmed _ order event = pure tt

  unfoldable pub log_progress : Order D → TransferEvent D → Action D Error Unit
  log_progress order event = do
    ignore (
        log (some order.id) event.chain event.tx_hash "order_confirmation_progress" (
          ("status", text (status_text order.status))
          ∷ ("confirmations", number order.confirmations)
          ∷ []))
    log_if_confirmed order.status order event

  unfoldable pub log_amounts : String → Order D → TransferEvent D → Action D Error Unit
  log_amounts event_type order event = ignore (
      log (some order.id) event.chain event.tx_hash event_type (
        ("expected_amount", text (dec.to_text order.expected_amount))
        ∷ ("received_amount", text (dec.to_text event.amount))
        ∷ []))

  -- Step 5: a transfer that corresponds to no order.
  unfoldable pub on_unmatched : TransferEvent D → Action D Error Unit
  on_unmatched event = do
    ignore (
        log none event.chain event.tx_hash "transfer_unmatched"
          (("amount", text (dec.to_text event.amount)) ∷ []))
    ignore (log_review_item event.chain event.tx_hash event.amount reason_unmatched none)

  -- Step 4: an underpayment.
  unfoldable pub on_underpaid : TransferEvent D → Order D → Action D Error Unit
  on_underpaid event order = do
    log_amounts "order_underpaid" order event
    ignore (log_review_item event.chain event.tx_hash event.amount reason_underpaid (some order.id))

  unfoldable pub after_underpaid : TransferEvent D → Option (Order D) → Action D Error Unit
  after_underpaid event (some order) = on_underpaid event order
  after_underpaid event none = on_unmatched event

  unfoldable pub after_exact : Settings D → TransferEvent D → Option (Order D) → Action D Error Unit
  after_exact s event (some order) = do
    log_amounts "order_matched" order event
    log_progress order event
  after_exact s event none = do
    short ←
        claim_underpaid event.chain event.tx_hash event.amount event.block_height
          s.underpayment_max_gap_percent
    after_underpaid event short

  -- Steps 3 to 5: a transfer that no order has claimed.
  unfoldable pub on_new : Settings D → TransferEvent D → Action D Error Unit
  on_new s event = do
    exact ←
        claim_exact_match event.chain event.tx_hash event.amount event.block_height
          event.confirmations s.tolerance
    after_exact s event exact

  unfoldable pub unless_claimed : Settings D → TransferEvent D → Bool → Action D Error Unit
  unless_claimed s event true = pure tt
  unless_claimed s event false = on_new s event

  unfoldable pub after_update :
      Settings D → TransferEvent D → Option (Order D) → Action D Error Unit
  after_update s event (some order) = log_progress order event
  after_update s event none = do
    claimed ← tx_already_claimed event.chain event.tx_hash
    unless_claimed s event claimed

  -- Steps 1 and 2: a transfer that may have been seen before.
  unfoldable pub settle : Settings D → TransferEvent D → Action D Error Unit
  settle s event = do
    known ← update_confirmations event.chain event.tx_hash event.block_height event.confirmations
    after_update s event known

  unfoldable pub on_transfer : Settings D → TransferEvent D → Action D Error Unit
  on_transfer s event = do
    ignore (
        log none event.chain event.tx_hash "transfer_observed" (
          ("amount", text (dec.to_text event.amount))
          ∷ ("confirmations", number event.confirmations)
          ∷ ("block_height", number event.block_height)
          ∷ []))
    settle s event
