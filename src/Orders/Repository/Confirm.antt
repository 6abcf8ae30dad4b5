-- ===== src/Orders/Repository/Confirm.antt =====
-- internal/orders/repository.go: UpdateConfirmations.
use frpay.Prelude.{
  ℤ, leb_ℤ, fits_int32, String, Bool, ◌&&◌, Option, some, str_eq, select, update, first, map,
  if◌then◌else◌,
}
use frpay.Decimal.{Decimals}
use frpay.Store.{
  confirming, confirmed, is_confirming, Order, has_tx, is_null, Statement, err, Action, wrap,
  out_of_range, statement, write_orders,
}
use frpay.Orders.Repository.Errors.{Error, update_failed}

module _ {D : Type 0} ⦃dec : Decimals D⦄ where
  -- UpdateConfirmations: its WHERE and its SET
  unfoldable pub awaits : String → String → ℤ → Order D → Bool
  awaits chain tx confirmations o =
      str_eq o.chain chain
      && (has_tx tx o.tx_hash && (is_confirming o.status && leb_ℤ o.confirmations confirmations))

  unfoldable pub advanced : ℤ → ℤ → ℤ → Order D → Order D
  advanced now block_height confirmations o =
      let reached = leb_ℤ o.required_confirmations confirmations in
      record o {
        tx_block_height = some block_height;
        confirmations = confirmations;
        status = if reached then confirmed else confirming;
        confirmed_at = if reached && is_null o.confirmed_at then some now else o.confirmed_at;
        updated_at = now;
      }

  unfoldable pub update_confirmations : String → String → ℤ → ℤ → Action D Error (Option (Order D))
  update_confirmations chain tx block_height confirmations = wrap update_failed (
      statement Statement.update_confirmations λ w.
        let hit = awaits chain tx confirmations in
        let set = advanced w.now block_height confirmations in
        if fits_int32 confirmations
        then write_orders (update hit set w.orders) (first (map set (select hit w.orders))) w
        else (err out_of_range, w))
