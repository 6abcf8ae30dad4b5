-- ===== src/Tests/Transfers.antt =====
-- OnTransfer with the payment of an order, CreateOrder and the expiry job.
use frpay.Prelude.{◌≡◌, refl, true, any, select, update, ◌+ℤ◌, ◌-ℤ◌}
use frpay.Store.{
  timestamptz, timestamptz, ok, wrap, statement, write_orders, consistent, conflicts, pure, raise,
  gets, same_pending_amount, same_tx, ignore, ◌>>=◌,
}
use frpay.Audit.{log}
use frpay.Orders.Repository.{
  with_times, with_times, update_confirmations, claim_exact_match, tx_already_claimed, try_insert,
  new_order, insert_order, insert_row, stored, checked, claim_found, oldest, in_window, advanced,
  awaits, tried, matched, update_by_id,
}
use frpay.Orders.Service.{
  on_transfer, settle, after_update, unless_claimed, on_new, after_exact, log_amounts, log_progress,
  log_if_confirmed,
}
use frpay.Orders.Accounting.{is_recorded}
use frpay.Orders.Accounting.Recorded.{nothing_dropped}
use frpay.Tests.Fixture.{decimals, opened, settings, transfer}

handled : (on_transfer settings transfer opened).0 ≡ ok tt
unfolding on_transfer settle ignore ◌>>=◌ log after_update tx_already_claimed unless_claimed on_new
    after_exact log_amounts log_progress log_if_confirmed try_insert update_confirmations wrap
    statement claim_exact_match insert_order insert_row stored new_order ◌+ℤ◌ ◌-ℤ◌ checked
    write_orders consistent any claim_found oldest select in_window advanced awaits tried matched
    update_by_id update conflicts pure raise gets same_pending_amount same_tx with_times timestamptz
handled = refl

nothing_dropped_example : is_recorded transfer (on_transfer settings transfer opened).1 ≡ true
unfolding try_insert insert_order statement insert_row stored new_order ◌+ℤ◌ checked write_orders
    consistent any with_times timestamptz
nothing_dropped_example = nothing_dropped settings transfer refl opened handled refl
