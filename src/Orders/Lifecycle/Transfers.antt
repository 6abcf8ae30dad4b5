-- ===== src/Orders/Lifecycle/Transfers.antt =====
-- The operations of internal/orders/service.go, and the lifecycle.
use frpay.Prelude.{ℕ, String}
use frpay.Decimal.{Decimals}
use frpay.Store.{Database}
use frpay.Chains.Watcher.{ChainWatcher, TransferEvent}
use frpay.Chains.Manager.{Manager}
use frpay.Orders.Repository.{Draw}
use frpay.Orders.Service.{Settings, on_transfer, create_order, expire_once}
use frpay.Orders.Composition.{Statements}
use frpay.Orders.Composition.Transfers.{on_transfer-Follows}
use frpay.Orders.Composition.Creation.{create_order-Follows}
use frpay.Orders.Composition.Expiry.{expire_once-Follows}
use frpay.Orders.Lifecycle.{Later, Later-preorder}
use frpay.Orders.Lifecycle.Methods.{update_confirmations-Later, claim_exact_match-Later}
use frpay.Orders.Lifecycle.Underpayment.{claim_underpaid-Later}
use frpay.Orders.Lifecycle.Trail.{log-Later, tx_already_claimed-Later, log_review_item-Later}
use frpay.Orders.Lifecycle.Creation.{try_insert-Later}
use frpay.Orders.Lifecycle.Lapse.{expire_past_due-Later}

module _ {D : Type 0} ⦃dec : Decimals D⦄ where
  pub Statements-Later : Statements (Later {D = D})
  Statements-Later = record {
    preorder = Later-preorder;
    logs = log-Later;
    inserts = try_insert-Later;
    updates = update_confirmations-Later;
    finds = tx_already_claimed-Later;
    claims_exact = claim_exact_match-Later;
    claims_underpaid = claim_underpaid-Later;
    reviews = log_review_item-Later;
    expires = expire_past_due-Later;
  }

  -- Whatever the event, the settings and the state, and whether or not it returns an error,
  -- OnTransfer only takes orders along the arrows of the lifecycle, keeps the orders well-formed
  -- and consistent if they were, and takes nothing from the review queue or the audit trail.
  pub on_transfer-Later :
      (s : Settings D) (e : TransferEvent D) (w : Database D) → Later w (on_transfer s e w).1
  on_transfer-Later s e w = (on_transfer-Follows Statements-Later s e).at w

  -- Whatever its arguments and the state, and whether or not it returns an error, CreateOrder keeps
  -- every order that there was along the arrows of the lifecycle, keeps the orders well-formed and
  -- consistent if they were, and takes nothing from the review queue or the audit trail.
  pub create_order-Later :
      {W : Type 0} (cw : ChainWatcher D W) (manager : Manager W) (s : Settings D) (draws : ℕ → Draw)
      (user_id : String) (base : D) (chain : String) (w : Database D)
      → Later w (create_order cw manager s draws user_id base chain w).1
  create_order-Later cw manager s draws user_id base chain w =
      (create_order-Follows Statements-Later cw manager s draws user_id base chain).at w

  -- In any state, and whether or not its statement fails, the expiry job only takes orders along
  -- the arrows of the lifecycle, keeps the orders well-formed and consistent if they were, and
  -- takes nothing from the review queue or the audit trail.
  pub expire_once-Later : (w : Database D) → Later w (expire_once w)
  expire_once-Later w = expire_once-Follows Statements-Later w
