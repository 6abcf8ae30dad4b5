-- ===== src/Orders/Accounting/Returned.antt =====
-- OnTransfer returns no error while the database answers, and records the transfer.
use frpay.Prelude.{
  ◌≡◌, refl, ap, ◌∙◌, Bool, true, false, none, some, Option, select, first, map, fits_int32,
}
use frpay.Decimal.{Decimals}
use frpay.Store.{
  Order, Database, Statement, ok, ignore-Follows, gets, write_orders, consistent, Returns,
  pure-Returns, ignore-Returns, >>=-Returns, sent-Returns, read_only,
}
use frpay.Chains.Watcher.{TransferEvent}
use frpay.Orders.Repository.{
  tx_already_claimed, awaits, advanced, update_confirmations, check_tx_failed,
}
use frpay.Orders.Service.{Settings, unless_claimed, after_update, settle, on_transfer}
use frpay.Orders.Lifecycle.{Later, Later-preorder}
use frpay.Orders.Accounting.{is_claimed, is_recorded}
use frpay.Orders.Accounting.Recorded.{nothing_dropped}
use frpay.Orders.Accounting.Confirmed.{advanced-consistent}
use frpay.Orders.Lifecycle.Methods.{update_confirmations-Later}
use frpay.Orders.Lifecycle.Trail.{log-Later}
use frpay.Orders.Accounting.Unhindered.{log_progress-Returns, on_new-Returns}

module _ {D : Type 0} ⦃dec : Decimals D⦄ where
  -- Nothing fails, and the indexes of the orders are enforced.
  pub record IsCalm (w : Database D) : Type 0 where
    pub up : (st : Statement) → w.fails st ≡ false
    pub rows : consistent w.orders ≡ true

  pub IsCalm-Later : (w w' : Database D) → Later w w' → IsCalm w → IsCalm w'
  IsCalm-Later w w' h c = record {
    up = λ st. ap (λ f. f st) h.fails ∙ c.up st;
    rows = h.consistent_orders c.rows;
  }

module _ {D : Type 0} ⦃dec : Decimals D⦄ (s : Settings D) (e : TransferEvent D) {received : D}
    (fits : dec.column e.amount ≡ some received) (counts : fits_int32 e.confirmations ≡ true) where
  update-Returns :
      (w : Database D)
      → IsCalm w
      → Returns (update_confirmations e.chain e.tx_hash e.block_height e.confirmations) w
  unfolding update_confirmations write_orders
  update-Returns w c =
      let hit = awaits e.chain e.tx_hash e.confirmations in
      let set = advanced w.now e.block_height e.confirmations in
      let admitted =
        advanced-consistent e.chain e.tx_hash w.now e.block_height e.confirmations w.orders
          c.rows in
      sent-Returns _ Statement.update_confirmations _ w (c.up Statement.update_confirmations)
        (record {
          value = first (map set (select hit w.orders));
          done = rw (counts, admitted) refl;
        })

  unless_claimed-Returns :
      (claimed : Bool) (w : Database D)
      → IsCalm w
      → is_claimed e.chain e.tx_hash w.orders ≡ claimed
      → Returns (unless_claimed s e claimed) w
  unfolding unless_claimed
  unless_claimed-Returns true w c h = pure-Returns tt w
  unless_claimed-Returns false w c h =
      on_new-Returns s e fits counts w (record { up = c.up; rows = c.rows; free = h })

  after_update-Returns :
      (known : Option (Order D)) (w : Database D) → IsCalm w → Returns (after_update s e known) w
  unfolding after_update tx_already_claimed gets
  after_update-Returns (some o) w c = log_progress-Returns o e w
  after_update-Returns none w c =
      let asked =
        sent-Returns check_tx_failed Statement.tx_already_claimed
          (gets (λ w. is_claimed e.chain e.tx_hash w.orders)) w (c.up Statement.tx_already_claimed)
          (record { value = is_claimed e.chain e.tx_hash w.orders; done = refl }) in
      let (answer, same) =
        read_only check_tx_failed Statement.tx_already_claimed
          (λ w. is_claimed e.chain e.tx_hash w.orders) w asked.done in
      >>=-Returns _ (unless_claimed s e) w asked
        (rw same (unless_claimed-Returns asked.value w c answer))

  settle-Returns : (w : Database D) → IsCalm w → Returns (settle s e) w
  unfolding settle
  settle-Returns w c =
      let known = update-Returns w c in
      >>=-Returns _ (after_update s e) w known (
        after_update-Returns known.value _ (
          IsCalm-Later w _
            ((update_confirmations-Later e.chain e.tx_hash e.block_height e.confirmations).at w) c))

  -- While no statement fails and the orders are consistent, OnTransfer returns no error, and the
  -- transfer is held by an order of its chain or listed in the review queue afterwards, if the
  -- amount fits the NUMERIC(20,8) column and the count of confirmations an int32.
  pub always_recorded :
      (w : Database D)
      → ((st : Statement) → w.fails st ≡ false)
      → consistent w.orders ≡ true
      → ((on_transfer s e w).0 ≡ ok tt) × (is_recorded e (on_transfer s e w).1 ≡ true)
  unfolding on_transfer
  always_recorded w up rows =
      let later =
        (ignore-Follows Later-preorder (log-Later none e.chain e.tx_hash "transfer_observed" _)).at
          w in
      let done =
        >>=-Returns _ (λ _. settle s e) w (ignore-Returns _ w)
          (settle-Returns _ (IsCalm-Later w _ later (record { up = up; rows = rows }))) in
      (done.done, nothing_dropped s e fits w done.done (up Statement.log_review_item))
