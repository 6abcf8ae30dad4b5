-- ===== src/Orders/Accounting/Redelivered.antt =====
-- OnTransfer on a transfer that an order holds already: the watchers report each transfer on every poll.
use frpay.Prelude.{ℕ, String, ◌≡◌, refl, arith, Bool, true, false, Option, none, some, List, ◌∙◌}
use frpay.Decimal.{Decimals}
use frpay.Store.{
  go_on, AuditEntry, Status, confirmed, Detail, Order, Database, Statement, Action, pure, statement,
  statement-cases, >>=-cases, read-cases, wrap, ignore, ◌>>=◌, Follows, IsPreorder, pure-Follows,
  statement-Follows, ignore-Follows, >>=-Follows, write_orders,
}
use frpay.Audit.{log}
use frpay.Chains.Watcher.{TransferEvent}
use frpay.Orders.Repository.{Error, update_confirmations, tx_already_claimed, check_tx_failed}
use frpay.Orders.Service.{
  Settings, log_if_confirmed, log_progress, unless_claimed, after_update, settle, on_transfer,
}
use frpay.Orders.Lifecycle.Methods.{update_confirmations-Later}
use frpay.Orders.Accounting.{is_claimed}
use frpay.Orders.Accounting.Recorded.{is_claimed-Later}

module _ {D : Type 0} where
  -- Neither the orders nor the review queue are touched.
  record Untouched (w w' : Database D) : Type 0 where
    orders : w'.orders ≡ w.orders
    review_items : w'.review_items ≡ w.review_items

  Untouched-preorder : IsPreorder Untouched
  Untouched-preorder = record {
    reflexive = λ w. record { orders = refl; review_items = refl };
    transitive = λ a b c h k. record {
      orders = k.orders ∙ h.orders;
      review_items = k.review_items ∙ h.review_items;
    };
  }

  log-Untouched :
      (id : Option ℕ) (chain tx event_type : String) (details : List (String × Detail))
      → Follows Untouched (log id chain tx event_type details)
  unfolding log
  log-Untouched id chain tx event_type details =
      statement-Follows Untouched-preorder (Statement.log_audit event_type)
        (record { at = λ w. record { orders = refl; review_items = refl } })

module _ {D : Type 0} ⦃dec : Decimals D⦄ where
  log_if_confirmed-Untouched :
      (status : Status) (o : Order D) (e : TransferEvent D)
      → Follows Untouched (log_if_confirmed status o e)
  unfolding log_if_confirmed
  log_if_confirmed-Untouched confirmed o e =
      ignore-Follows Untouched-preorder (log-Untouched _ _ _ _ _)
  log_if_confirmed-Untouched _ o e = pure-Follows Untouched-preorder tt

  log_progress-Untouched :
      (o : Order D) (e : TransferEvent D) → Follows Untouched (log_progress o e)
  unfolding log_progress
  log_progress-Untouched o e =
      >>=-Follows Untouched-preorder (ignore-Follows Untouched-preorder (log-Untouched _ _ _ _ _))
        (λ _. log_if_confirmed-Untouched o.status o e)

module _ {D : Type 0} ⦃dec : Decimals D⦄ (s : Settings D) (e : TransferEvent D) where
  unless_claimed-Untouched :
      (claimed : Bool) (w : Database D)
      → claimed ≡ true
      → Untouched w (unless_claimed s e claimed w).1
  unfolding unless_claimed pure
  unless_claimed-Untouched true w h = Untouched-preorder.reflexive w
  unless_claimed-Untouched false w h = cc

  after_update-Untouched :
      (known : Option (Order D)) (w : Database D)
      → is_claimed e.chain e.tx_hash w.orders ≡ true
      → Untouched w (after_update s e known w).1
  unfolding after_update tx_already_claimed ◌>>=◌
  after_update-Untouched (some o) w h = (log_progress-Untouched o e).at w
  after_update-Untouched none w h =
      read-cases check_tx_failed Statement.tx_already_claimed _ w
        (λ r. Untouched w (go_on (unless_claimed s e) r.0 r.1).1) (Untouched-preorder.reflexive w)
        (unless_claimed-Untouched _ w h)

  -- What UpdateConfirmations alone does for the event.
  abbrev confirmations_of : Action D Error (Option (Order D))
  confirmations_of = update_confirmations e.chain e.tx_hash e.block_height e.confirmations

  updated-review_items : (w : Database D) → (confirmations_of w).1.review_items ≡ w.review_items
  unfolding update_confirmations wrap statement write_orders
  updated-review_items w = ground arith

  audit_log_unread :
      (w : Database D) (trail : List AuditEntry)
      → (confirmations_of (record w { audit_log = trail })).1.orders ≡ (confirmations_of w).1.orders
  unfolding update_confirmations wrap statement write_orders
  audit_log_unread w trail = ground arith

  -- The orders end as UpdateConfirmations alone leaves them, and the review queue as it was.
  abbrev OnlyConfirms : Database D → Database D → Type 0
  OnlyConfirms w w' =
      (w'.orders ≡ (confirmations_of w).1.orders) × (w'.review_items ≡ w.review_items)

  settle-OnlyConfirms :
      (w : Database D)
      → is_claimed e.chain e.tx_hash w.orders ≡ true
      → OnlyConfirms w (settle s e w).1
  unfolding settle
  settle-OnlyConfirms w h =
      >>=-cases confirmations_of (after_update s e) w (λ r. OnlyConfirms w r.1)
        (λ known did.
          let kept = after_update-Untouched known (confirmations_of w).1 claimed in
          (kept.orders, kept.review_items ∙ updated-review_items w))
        (λ x did. (refl, updated-review_items w))
    where
      claimed : is_claimed e.chain e.tx_hash (confirmations_of w).1.orders ≡ true
      claimed =
          is_claimed-Later e.chain e.tx_hash w _
            ((update_confirmations-Later e.chain e.tx_hash e.block_height e.confirmations).at w) h

  -- When an order of its chain holds a transfer already, OnTransfer on that transfer, whatever
  -- fails in it, leaves the orders exactly as UpdateConfirmations alone leaves them and the review
  -- queue as it was: no second order is credited and nothing is queued twice.
  pub redelivered_once :
      (w : Database D)
      → is_claimed e.chain e.tx_hash w.orders ≡ true
      → ((on_transfer s e w).1.orders ≡ (confirmations_of w).1.orders)
        × ((on_transfer s e w).1.review_items ≡ w.review_items)
  unfolding on_transfer ignore log ◌>>=◌
  redelivered_once w h =
      statement-cases (Statement.log_audit "transfer_observed") _ w
        (λ r. OnlyConfirms w (settle s e r.1).1) (settle-OnlyConfirms w h)
        (let (orders, review_items) = settle-OnlyConfirms _ h in
          (orders ∙ audit_log_unread w _, review_items))
