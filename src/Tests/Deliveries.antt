-- ===== src/Tests/Deliveries.antt =====
-- A transfer reported again, an underpayment, and a restart while a payment waits for confirmations.
use frpay.Prelude.{
  any, select, update, ◌+ℤ◌, ◌-ℤ◌, ℤ, pos, ◌≡◌, refl, arith, true, some, [], ◌∷◌, Memᴰ, ◌==◌,
  is_some, lookup,
}
use frpay.Decimal.{IsOrdered}
use frpay.Store.{
  ◌>>=◌, wrap, statement, write_orders, consistent, pure, transaction, conflicts, gets, raise,
  same_pending_amount, same_tx, Order, Database, ok, confirming,
}
use frpay.Chains.Watcher.{PendingTransfer, polygon}
use frpay.Chains.Manager.{chains, Manager}
use frpay.Chains.Evm.Watcher.{Watcher}
use frpay.Orders.Repository.{
  in_window, new_order, find_and_mark, update_by_id, candidates, closest, consider, falls_short,
  gap_percent, insert_by_expected, mark_best, mark_underpaid, order_by_expected, returned,
  send_mark, list_confirming, update_confirmations, claim_underpaid, short_paid,
}
use frpay.Orders.Service.{seed_chains, on_transfer, transfer_of, load_pending_transfers}
use frpay.Orders.Reseeded.{at_watcher}
use frpay.Orders.Accounting.{is_claimed}
use frpay.Orders.Accounting.Credited.{matching_payment_credited}
use frpay.Orders.Accounting.Redelivered.{redelivered_once}
use frpay.Orders.Contracts.Underpaid.{IsNearest, claim_underpaid_lem}
use frpay.Main.{AnyWatcher, evm_one, any_watcher}
use frpay.Main.Restart.{is_waiting, restart_forgets_nothing}
use frpay.Tests.Fixture.{decimals, empty, settings, transfer, alice, alice_amount, fixed}

-- Alice's order, whose payment was seen in block 500.
abbrev pub detected : Order ℤ
detected = record alice {
  tx_hash = some "0xabc";
  tx_block_height = some (pos 500);
  received_amount = some alice_amount;
  confirmations = pos 1;
  status = confirming;
}

abbrev pub confirms_soon : Database ℤ
confirms_soon = record empty { orders = detected ∷ [] }

already_claimed : is_claimed polygon "0xabc" confirms_soon.orders ≡ true
unfolding any new_order
already_claimed = refl

redelivered_once_example :
    ((on_transfer settings transfer confirms_soon).1.orders
      ≡ (update_confirmations polygon "0xabc" (pos 500) (pos 12) confirms_soon).1.orders)
    × ((on_transfer settings transfer confirms_soon).1.review_items ≡ confirms_soon.review_items)
redelivered_once_example = redelivered_once settings transfer confirms_soon already_claimed

ordered : IsOrdered decimals
ordered = record { asymmetric = λ a b h. ground arith; at_most_trans = λ a b c h k. ground arith }

abbrev six_dollars : ℤ
six_dollars = fixed (pos 6) (pos 0)

abbrev half_off : ℤ
half_off = settings.underpayment_max_gap_percent

abbrev asked : Database ℤ
asked = record empty { orders = alice ∷ [] }

abbrev alice_short : Order ℤ
alice_short = short_paid (pos 1_000_000) "0x5a" (pos 500) six_dollars alice

claims_short :
    (claim_underpaid polygon "0x5a" six_dollars (pos 500) half_off asked).0 ≡ ok (some alice_short)
unfolding claim_underpaid ◌>>=◌ wrap statement new_order ◌+ℤ◌ ◌-ℤ◌ write_orders consistent any pure
    transaction find_and_mark update_by_id candidates closest consider falls_short gap_percent
    insert_by_expected mark_best mark_underpaid order_by_expected returned send_mark short_paid
    select update conflicts gets raise same_pending_amount same_tx
claims_short = refl

claim_underpaid_lem_example :
    (t : Order ℤ) × (received : ℤ) × IsNearest ordered polygon "0x5a" six_dollars
      (pos 500)
      half_off
      asked
      t
    × (decimals.column six_dollars ≡ some received)
    × ((claim_underpaid polygon "0x5a" six_dollars (pos 500) half_off asked).1.orders
        ≡ update (λ p. p.id == t.id) (short_paid asked.now "0x5a" (pos 500) received) asked.orders)
claim_underpaid_lem_example =
    claim_underpaid_lem ordered polygon "0x5a" six_dollars (pos 500) half_off asked claims_short

abbrev polygon_watcher : Watcher ℤ
polygon_watcher = record {
  chain = polygon;
  address_topic = "0xaa";
  usdt_contract = "0xc2132D05D31c914a87C6611C10748AEb04B58e8F";
  required_confirms = pos 12;
  logs_batch_blocks = pos 2000;
  pending = [];
}

abbrev restarted : Manager (AnyWatcher ℤ)
restarted = (polygon, evm_one polygon_watcher) ∷ []

abbrev pub seed : PendingTransfer ℤ
seed = record { tx_hash = "0xabc"; amount = alice_amount; block_height = pos 500 }

loads : (load_pending_transfers any_watcher (pos 9) confirms_soon restarted).0 ≡ ok tt
unfolding load_pending_transfers seed_chains chains list_confirming wrap statement gets
loads = refl

on_its_way : transfer_of detected ≡ some seed
unfolding transfer_of
on_its_way = refl

served : is_some (lookup detected.chain restarted) ≡ true
unfolding lookup new_order
served = refl

restart_forgets_nothing_example :
    at_watcher
      (is_waiting "0xabc")
      (lookup detected.chain (load_pending_transfers any_watcher (pos 9) confirms_soon restarted).1)
    ≡ true
restart_forgets_nothing_example =
    restart_forgets_nothing (pos 9) confirms_soon restarted detected seed loads (Memᴰ.head refl)
      refl on_its_way served

matching_payment_credited_example :
    is_claimed polygon "0xabc" (on_transfer settings transfer asked).1.orders ≡ true
unfolding consistent any new_order in_window ◌+ℤ◌ ◌-ℤ◌
matching_payment_credited_example =
    matching_payment_credited settings transfer refl refl asked alice (λ st. refl) refl refl
      (Memᴰ.head refl) refl
