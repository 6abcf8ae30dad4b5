-- ===== src/Orders/Repository/Read.antt =====
-- internal/orders/repository.go: GetOrder, ListConfirming and TxAlreadyClaimed.
use frpay.Prelude.{ℕ, String, Bool, ◌&&◌, none, some, List, ◌==◌, str_eq, any, select, first}
use frpay.Decimal.{Decimals}
use frpay.Store.{is_confirming, Order, has_tx, Statement, ok, err, Action, gets, wrap, statement}
use frpay.Orders.Repository.Errors.{
  Error, not_found, get_order_failed, list_confirming_failed, check_tx_failed,
}

module _ {D : Type 0} ⦃dec : Decimals D⦄ where
  unfoldable pub get_order : ℕ → Action D Error (Order D)
  get_order id w =
      elim (statement Statement.get_order (gets λ w. first (select (λ o. o.id == id) w.orders))
        w).0 [
          | ok none ↦ (err not_found, w)
          | ok (some o) ↦ (ok o, w)
          | err e ↦ (err (get_order_failed e), w)
        ]

  unfoldable pub list_confirming : String → Action D Error (List (Order D))
  list_confirming chain = wrap list_confirming_failed (
      statement Statement.list_confirming
        (gets λ w. select (λ o. str_eq o.chain chain && is_confirming o.status) w.orders))

  -- SELECT EXISTS(...)
  unfoldable pub tx_already_claimed : String → String → Action D Error Bool
  tx_already_claimed chain tx = wrap check_tx_failed (
      statement Statement.tx_already_claimed
        (gets λ w. any (λ o. str_eq o.chain chain && has_tx tx o.tx_hash) w.orders))
