-- ===== src/Orders/Accounting/Shortfalls.antt =====
-- ClaimUnderpaid, and the transfers that the table holds.
use frpay.Prelude.{ℤ, String, ◌≡◌, refl, true, Option, none, some, any-some, mem-select, Memᴰ}
use frpay.Decimal.{Decimals}
use frpay.Store.{
  pure, raise, Order, Database, Statement, ok, bound, committed, read_only, ping, sent,
}
use frpay.Orders.Repository.{
  falls_short, short_paid, returned, mark_underpaid, send_mark, mark_best, candidates,
  find_and_mark, claim_underpaid, closest, begin_failed, candidates_failed, mark_failed,
  commit_failed,
}
use frpay.Orders.Lifecycle.Underpayment.{mem-order_by_expected, closest_found}
use frpay.Orders.Accounting.{is_claimed}
use frpay.Orders.Accounting.Claims.{short_paid-claimed, written_by_id}

module _ {D : Type 0} ⦃dec : Decimals D⦄ where
  pub returned_same :
      (found : Option (Order D)) (w : Database D) {o : Order D}
      → (returned found w).0 ≡ ok o
      → (returned found w).1 ≡ w
  unfolding returned raise pure
  returned_same none w e = cc
  returned_same (some o) w e = refl

  marked_claimed :
      (chain tx : String) (amount : D) (height : ℤ) (w : Database D) (t : Order D) {o : Order D}
      → Memᴰ t w.orders
      → falls_short chain amount w.locked t ≡ true
      → (send_mark tx amount height t w).0 ≡ ok o
      → is_claimed chain tx (send_mark tx amount height t w).1.orders ≡ true
  unfolding send_mark mark_underpaid
  marked_claimed chain tx amount height w t m hit e =
      let (done, same) = sent mark_failed Statement.mark_underpaid _ w e in
      let (found, wrote, next) = bound _ returned w done in
      let (received, k) = written_by_id t amount (short_paid w.now tx height) w m wrote in
      rw (same, next, returned_same found _ (rw next at done))
        (any-some _ k (short_paid-claimed chain tx amount w.locked w.now received height t hit))

  best_claimed :
      (chain tx : String) (amount : D) (height : ℤ) (max_gap : D) (w : Database D)
      (best : Option (Order D × D)) {o : Order D}
      → closest amount max_gap none (candidates chain amount w) ≡ best
      → (mark_best tx amount height best w).0 ≡ ok (some o)
      → is_claimed chain tx (mark_best tx amount height best w).1.orders ≡ true
  unfolding mark_best candidates pure
  best_claimed chain tx amount height max_gap w none h e = cc
  best_claimed chain tx amount height max_gap w (some (t, g)) h e =
      let (m, hit) =
        mem-select _ w.orders (mem-order_by_expected _ (closest_found amount max_gap _ h)) in
      let (updated, marked, next) = bound (send_mark tx amount height t) _ w e in
      let (done, answered, end) = bound _ (λ _. pure (some updated)) _ (rw next at e) in
      rw (next, end, ping commit_failed Statement.commit_tx _ answered)
        (marked_claimed chain tx amount height w t m hit marked)

  find_claimed :
      (chain tx : String) (amount : D) (height : ℤ) (max_gap : D) (w : Database D) {o : Order D}
      → (find_and_mark chain tx amount height max_gap w).0 ≡ ok (some o)
      → is_claimed chain tx (find_and_mark chain tx amount height max_gap w).1.orders ≡ true
  unfolding find_and_mark
  find_claimed chain tx amount height max_gap w {o} e =
      let (found, answered, next) = bound _ _ w e in
      let (these, same) =
        read_only candidates_failed Statement.select_candidates (candidates chain amount) w
          answered in
      rw (next, same)
        (best_claimed chain tx amount height max_gap w _ (rw these refl) (rw (next, same) at e))

  -- ClaimUnderpaid returns an order only if one holds the transfer afterwards.
  pub underpaid_claimed :
      (chain tx : String) (amount : D) (height : ℤ) (max_gap : D) (w : Database D) {o : Order D}
      → (claim_underpaid chain tx amount height max_gap w).0 ≡ ok (some o)
      → is_claimed chain tx (claim_underpaid chain tx amount height max_gap w).1.orders ≡ true
  unfolding claim_underpaid
  underpaid_claimed chain tx amount height max_gap w {o} e =
      let (begun, answered, next) = bound _ _ w e in
      let same = ping begin_failed Statement.begin_tx w answered in
      let whole = rw (next, same) at e in
      let kept = committed (find_and_mark chain tx amount height max_gap) w whole in
      rw (next, same, kept) (find_claimed chain tx amount height max_gap w (rw kept at whole))
