-- ===== src/Orders/Composition/Expiry.antt =====
-- The expiry job, from its statements.
use frpay.Prelude.{some, List, [], ◌∷◌}
use frpay.Decimal.{Decimals}
use frpay.Store.{Order, Database, Result, ok, err}
use frpay.Orders.Repository.{Error}
use frpay.Orders.Service.{after_expiry, log_expired, expire_once}
use frpay.Store.{Database}
use frpay.Orders.Composition.{Statements}

module _ {D : Type 0} ⦃dec : Decimals D⦄ {R : Database D → Database D → Type 0}
    (st : Statements R) where
  log_expired-Follows : (os : List (Order D)) (w : Database D) → R w (log_expired os w)
  unfolding log_expired
  log_expired-Follows [] w = st.preorder.reflexive w
  log_expired-Follows (o ∷ os) w =
      st.preorder.transitive w _ _ ((st.logs (some o.id) o.chain "" "order_expired" []).at w)
        (log_expired-Follows os _)

  expire_result-Follows :
      (r : Result Error (List (Order D))) (w : Database D) → R w (after_expiry r w)
  unfolding after_expiry
  expire_result-Follows (ok os) w = log_expired-Follows os w
  expire_result-Follows (err e) w = st.preorder.reflexive w

  -- expireOnce.
  pub expire_once-Follows : (w : Database D) → R w (expire_once w)
  unfolding expire_once
  expire_once-Follows w = st.preorder.transitive w _ _ (st.expires.at w) (expire_result-Follows _ _)
