-- ===== src/Orders/Accounting.antt =====
-- Where the money went: a transfer is accounted for when an order holds it or the review queue lists it.
pub mod Claims
pub mod Shortfalls
pub mod Recorded
pub mod Redelivered
pub mod Admitted
pub mod Credited
pub mod Confirmed
pub mod Unhindered
pub mod Returned
use frpay.Prelude.{String, Bool, ◌&&◌, ◌||◌, List, str_eq, any, ◌≡◌, true}
use frpay.Decimal.{Decimals}
use frpay.Store.{Order, Database, has_tx}
use frpay.Chains.Watcher.{TransferEvent}
use frpay.Orders.Repository.{is_reviewed}

module _ {D : Type 0} ⦃dec : Decimals D⦄ where
  -- Some order of the chain holds the transfer.
  abbrev pub is_claimed : String → String → List (Order D) → Bool
  is_claimed chain tx = any λ o. str_eq o.chain chain && has_tx tx o.tx_hash

  abbrev pub is_recorded : TransferEvent D → Database D → Bool
  is_recorded e w =
      is_claimed e.chain e.tx_hash w.orders || is_reviewed e.chain e.tx_hash w.review_items
