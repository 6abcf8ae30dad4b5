-- ===== src/Orders/Lifecycle/Trail.antt =====
-- The audit trail and the review queue, and the lifecycle.
use frpay.Prelude.{
  ℕ, String, ◌≡◌, refl, Option, none, some, List, Extends-append, Bool-cases, inl, inr,
}
use frpay.Decimal.{Decimals}
use frpay.Store.{
  Status, confirmed, Order, Detail, ReviewReason, Database, Result, ok, err, Action, raise, Follows,
  pure-Follows, raise-Follows, gets-Follows, >>=-Follows, transaction-Follows, statement-Follows,
  wrap-Follows, ignore-Follows,
}
use frpay.Audit.{log}
use frpay.Orders.Repository.{tx_already_claimed, is_reviewed, add_review, log_review_item}
use frpay.Orders.Lifecycle.{Progress, Progress-refl, Later, Later-preorder, same_refl}

pub ruleset later_rules = (
  Later-preorder, pure-Follows, raise-Follows, gets-Follows, >>=-Follows, transaction-Follows,
  statement-Follows, wrap-Follows, ignore-Follows,
)

module _ {D : Type 0} ⦃dec : Decimals D⦄ where
  pub log-Later :
      (id : Option ℕ) (chain tx event_type : String) (details : List (String × Detail))
      → Follows Later (log {D = D} id chain tx event_type details)
  unfolding log
  log-Later id chain tx event_type details = statement-Follows Later-preorder _ (record {
    at = λ w. record {
      orders = (Later-preorder.reflexive w).orders;
      well_formed = λ h. h;
      consistent_orders = λ h. h;
      review_items = same_refl w.review_items;
      audit_log = Extends-append ◌≡◌ (λ x. refl) w.audit_log _;
      cursors = refl;
      now = refl;
      locked = refl;
      fails = refl;
    };
  })

module _ {D : Type 0} ⦃dec : Decimals D⦄ where
  pub tx_already_claimed-Later :
      (chain tx : String) → Follows Later (tx_already_claimed {D = D} chain tx)
  unfolding tx_already_claimed
  tx_already_claimed-Later chain tx = search later_rules

  add_review-Later :
      (chain tx : String) (amount : D) (reason : ReviewReason) (related : Option ℕ)
      (stored_amount : Option D)
      → Follows Later (add_review chain tx reason related stored_amount)
  unfolding add_review
  add_review-Later chain tx amount reason related none = raise-Follows Later-preorder _
  add_review-Later chain tx amount reason related (some a) = record {
    at = λ w. elim (Bool-cases (is_reviewed chain tx w.review_items)) [
      | inl old ↦ rw old (Later-preorder.reflexive w)
      | inr new ↦ rw new (record {
        orders = (Later-preorder.reflexive w).orders;
        well_formed = λ h. h;
        consistent_orders = λ h. h;
        review_items = Extends-append ◌≡◌ (λ x. refl) w.review_items _;
        audit_log = same_refl w.audit_log;
        cursors = refl;
        now = refl;
        locked = refl;
        fails = refl;
      })
    ];
  }

  pub log_review_item-Later :
      (chain tx : String) (amount : D) (reason : ReviewReason) (related : Option ℕ)
      → Follows Later (log_review_item chain tx amount reason related)
  unfolding log_review_item
  log_review_item-Later chain tx amount reason related = search (later_rules, add_review-Later)
