-- ===== src/Orders/Repository/Expire.antt =====
-- internal/orders/repository.go: ExpirePastDue.
use frpay.Prelude.{ℤ, ltb_ℤ, Bool, ◌&&◌, List, select, update, map}
use frpay.Decimal.{Decimals}
use frpay.Store.{expired, is_pending, Order, Statement, Action, wrap, statement, write_orders}
use frpay.Orders.Repository.Errors.{Error, expire_failed}

module _ {D : Type 0} ⦃dec : Decimals D⦄ where
  -- ExpirePastDue
  unfoldable pub past_due : ℤ → Order D → Bool
  past_due now o = is_pending o.status && ltb_ℤ o.expires_at now

  unfoldable pub lapsed : ℤ → Order D → Order D
  lapsed now o = record o { status = expired; updated_at = now }

  unfoldable pub expire_past_due : Action D Error (List (Order D))
  expire_past_due = wrap expire_failed (
      statement Statement.expire_past_due λ w.
        write_orders (update (past_due w.now) (lapsed w.now) w.orders)
          (map (lapsed w.now) (select (past_due w.now) w.orders)) w)
