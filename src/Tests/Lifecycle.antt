-- ===== src/Tests/Lifecycle.antt =====
-- The lifecycle of one order, and what holds of it.
use frpay.Prelude.{
  map, Extends, first, ◌+ℤ◌, ◌-ℤ◌, any, select, update, fits_int32, ℤ, pos, ◌≡◌, refl, false, some,
  [], ◌∷◌, Memᴰ, ◌≤ℤ◌,
}
use frpay.Store.{
  timestamptz, wrap, statement, write_orders, consistent, conflicts, pure, raise,
  same_pending_amount, same_tx, Order, confirmed, is_null,
}
use frpay.Chains.Watcher.{polygon}
use frpay.Orders.Repository.{
  with_times, expire_past_due, new_order, try_insert, insert_order, update_confirmations,
  claim_exact_match, insert_row, stored, checked, claim_found, oldest, in_window, advanced, awaits,
  tried, matched, update_by_id,
}
use frpay.Orders.Phases.{Moves, phase, Run-Moves}
use frpay.Orders.Runs.{
  Run, Step, Run-Persists, Persists, final_forever, no_double_credit, confirmed_is_paid,
}
use frpay.Tests.Fixture.{
  decimals, empty, credited, alice, draw, ten_dollars, alice_amount, settings,
}

-- The order that the transfer has paid.
abbrev paid : Order ℤ
paid = record alice {
  tx_hash = some "0xabc";
  tx_block_height = some (pos 500);
  received_amount = some alice_amount;
  confirmations = pos 12;
  status = confirmed;
  confirmed_at = some (pos 1_000_000);
  updated_at = pos 1_000_000;
}

lifecycle : Run empty credited
lifecycle =
    Run.then_step
      (Run.then_step
        (Run.then_step Run.start
          (Step.inserts (draw 0) "alice" polygon ten_dollars (pos 12) (pos 1_200_000) (pos 5)))
        (Step.claims_exact polygon "0xabc" alice_amount (pos 500) (pos 1) settings.tolerance))
      (Step.updates polygon "0xabc" (pos 500) (pos 12))

credited_orders : credited.orders ≡ paid ∷ []
unfolding try_insert update_confirmations wrap statement claim_exact_match insert_order insert_row
    stored new_order ◌+ℤ◌ ◌-ℤ◌ checked write_orders consistent any claim_found oldest select
    in_window advanced awaits tried matched update_by_id update conflicts pure raise
    same_pending_amount same_tx fits_int32 first with_times timestamptz
credited_orders = refl

paid_mem : Memᴰ paid credited.orders
paid_mem = rw credited_orders (Memᴰ.head refl)

empty_orders : empty.orders ≡ []
empty_orders = refl

Run-Persists_example : Persists empty credited
Run-Persists_example = Run-Persists {u = empty} {v = credited} lifecycle

final_forever_example : Memᴰ paid (expire_past_due credited).1.orders
final_forever_example =
    final_forever {u = credited} {v = (expire_past_due credited).1} {o = paid}
      (Run.then_step Run.start Step.expires) paid_mem refl

no_double_credit_example : paid ≡ paid
no_double_credit_example =
    no_double_credit {u = empty} {v = credited} {o = paid} {p = paid} {tx = "0xabc"} refl lifecycle
      paid_mem paid_mem refl refl refl

confirmed_is_paid_example :
    (is_null paid.tx_hash ≡ false)
    × (is_null paid.received_amount ≡ false)
    × (is_null paid.confirmed_at ≡ false)
    × (paid.required_confirmations ≤ℤ paid.confirmations)
confirmed_is_paid_example =
    confirmed_is_paid {u = empty} {v = credited} {o = paid} refl lifecycle paid_mem refl

Run-Moves_example : Extends Moves (map phase empty.orders) (map phase credited.orders)
Run-Moves_example = Run-Moves {u = empty} {v = credited} tt lifecycle
