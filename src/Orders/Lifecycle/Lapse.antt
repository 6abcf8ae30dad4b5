-- ===== src/Orders/Lifecycle/Lapse.antt =====
-- ExpirePastDue, and the lifecycle.
use frpay.Prelude.{ℤ, ◌≡◌, arith, true}
use frpay.Decimal.{Decimals}
use frpay.Store.{Order, Follows, statement-Follows, wrap-Follows}
use frpay.Orders.Repository.{past_due, lapsed, expire_past_due}
use frpay.Orders.Lifecycle.{Progress, Later, Later-preorder}
use frpay.Orders.Lifecycle.Methods.{update-Later}

module _ {D : Type 0} ⦃dec : Decimals D⦄ where
  lapsed-Progress : (now : ℤ) (o : Order D) → past_due now o ≡ true → Progress o (lapsed now o)
  unfolding past_due lapsed
  lapsed-Progress now o h = ground arith

  pub expire_past_due-Later : Follows Later (expire_past_due {D = D})
  unfolding expire_past_due
  expire_past_due-Later = wrap-Follows Later-preorder _ (
      statement-Follows Later-preorder _
        (record { at = λ w. update-Later _ _ _ w (λ _ o m. lapsed-Progress w.now o) }))
