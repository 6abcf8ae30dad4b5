-- ===== src/Orders/Repository/Review.antt =====
-- internal/orders/review.go: LogReviewItem.
use frpay.Prelude.{
  ℕ, String, Bool, ◌&&◌, Option, none, some, List, [], ◌∷◌, ◌++◌, str_eq, any, if◌then◌else◌,
}
use frpay.Decimal.{Decimals}
use frpay.Store.{
  ReviewReason, ReviewItem, Statement, ok, Action, raise, DbError, wrap, out_of_range, statement,
}
use frpay.Orders.Repository.Errors.{Error, review_failed}

module _ {D : Type 0} ⦃dec : Decimals D⦄ where
  -- LogReviewItem: idx_review_items_chain_tx, and ON CONFLICT DO NOTHING
  unfoldable pub is_reviewed : String → String → List (ReviewItem D) → Bool
  is_reviewed chain tx = any λ i. str_eq i.chain chain && str_eq i.tx_hash tx

  -- The row, if its amount fits the column.
  unfoldable pub add_review :
      String → String → ReviewReason → Option ℕ → Option D → Action D DbError Unit
  add_review chain tx reason related none w = raise out_of_range w
  add_review chain tx reason related (some amount) w =
      if is_reviewed chain tx w.review_items then (ok tt, w) else (
        ok tt,
        record w {
          review_items =
              w.review_items
              ++ record {
                chain = chain;
                tx_hash = tx;
                amount = amount;
                reason = reason;
                related_order_id = related;
              }
                ∷ [];
        },
      )

  unfoldable pub log_review_item :
      String → String → D → ReviewReason → Option ℕ → Action D Error Unit
  log_review_item chain tx amount reason related =
      wrap review_failed (
        statement Statement.log_review_item
          (add_review chain tx reason related (dec.column amount)))
