-- ===== src/Orders/Service/Expiry.antt =====
-- internal/orders/service.go: expireOnce and RunExpiryLoop.
use frpay.Prelude.{some, List, [], ◌∷◌}
use frpay.Decimal.{Decimals}
use frpay.Store.{Order, Database, Result, ok, err}
use frpay.Audit.{log}
use frpay.Orders.Repository.{Error, expire_past_due}

module _ {D : Type 0} where
  unfoldable pub log_expired : List (Order D) → Database D → Database D
  log_expired [] w = w
  log_expired (o ∷ os) w = log_expired os (log (some o.id) o.chain "" "order_expired" [] w).1

module _ {D : Type 0} ⦃dec : Decimals D⦄ where
  -- An error is only logged, outside the database.
  unfoldable pub after_expiry : Result Error (List (Order D)) → Database D → Database D
  after_expiry (err _) w = w
  after_expiry (ok expired_orders) w = log_expired expired_orders w

  unfoldable pub expire_once : Database D → Database D
  unfolding after_expiry
  expire_once w = let (r, w') = expire_past_due w in after_expiry r w'

  -- RunExpiryLoop over the ticks of its ticker until the context is cancelled. Each tick comes with
  -- what the rest of the service has made of the database meanwhile.
  unfoldable pub run_expiry_loop : List (Database D → Database D) → Database D → Database D
  run_expiry_loop [] w = w
  run_expiry_loop (meanwhile ∷ ticks) w = run_expiry_loop ticks (expire_once (meanwhile w))
