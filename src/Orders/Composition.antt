-- ===== src/Orders/Composition.antt =====
-- Whatever relation the single statements keep, the service's methods keep: the rules that carry it
-- through internal/orders/service.go and CreateWithUniqueAmount.
pub mod Transfers
pub mod Creation
pub mod Expiry
use frpay.Prelude.{ℕ, ℤ, String, Option, List}
use frpay.Decimal.{Decimals}
use frpay.Store.{Order, Detail, ReviewReason, Database, Follows, IsPreorder}
use frpay.Audit.{log}
use frpay.Orders.Repository.{
  Draw, new_order, try_insert, update_confirmations, tx_already_claimed, claim_exact_match,
  claim_underpaid, log_review_item, expire_past_due,
}

-- Each statement, with any arguments, takes a state to a related one.
pub record Statements {D : Type 0} ⦃dec : Decimals D⦄ (R : Database D → Database D → Type 0)
    : Type 0 where
  pub preorder : IsPreorder R
  pub logs :
      (id : Option ℕ) (chain tx event_type : String) (details : List (String × Detail))
      → Follows R (log {D = D} id chain tx event_type details)
  pub inserts :
      (d : Draw) (user_id chain : String) (base : D) (required expiry offset : ℤ)
      → Follows R (try_insert (new_order d user_id chain base required expiry offset))
  pub updates :
      (chain tx : String) (height n : ℤ)
      → Follows R (update_confirmations {D = D} chain tx height n)
  pub finds : (chain tx : String) → Follows R (tx_already_claimed {D = D} chain tx)
  pub claims_exact :
      (chain tx : String) (amount : D) (height n : ℤ) (tolerance : D)
      → Follows R (claim_exact_match chain tx amount height n tolerance)
  pub claims_underpaid :
      (chain tx : String) (amount : D) (height : ℤ) (max_gap : D)
      → Follows R (claim_underpaid chain tx amount height max_gap)
  pub reviews :
      (chain tx : String) (amount : D) (reason : ReviewReason) (related : Option ℕ)
      → Follows R (log_review_item chain tx amount reason related)
  pub expires : Follows R (expire_past_due {D = D})
