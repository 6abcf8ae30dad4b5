-- ===== src/Tests/Records.antt =====
-- Transfers that OnTransfer and a poll record while nothing fails.
use frpay.Prelude.{
  decimal_digit, decimal_digits, decimal_number, parse_int, decimal_digit, decimal_digits,
  decimal_number, parse_int, to_lower, to_lower, equal_fold, some, none, negsuc, [], ◌∷◌, insert,
  ◌-ℤ◌, ◌+ℤ◌, ◌-ℤ◌, select, any, ◌+ℤ◌, any, ◌+ℤ◌, any, ◌+ℤ◌, int64, ℤ, pos, negsuc, false, ◌+◌, ◌<◌,
  ◌^◌, pos_part, ◌≡◌, refl, ap, sym, ◌∙◌, subst, arith, none, some, [], Memᴰ, ◌||◌, true, lookup,
}
use frpay.Store.{
  timestamptz, timestamptz, timestamptz, timestamptz, write_orders, statement, write_orders,
  statement, write_orders, statement, Statement, consistent, ok,
}
use frpay.Chains.Cursors.{returned_cursor, get_cursor}
use frpay.Chains.Evm.Types.{
  hex_digit, hex_digits, trim_0x, signed_hex, hex_digit, hex_digits, trim_0x, signed_hex, hex_digit,
  hex_digits, trim_0x, signed_hex, parse_hex_big_int, parse_hex_quantity,
}
use frpay.Chains.Watcher.{polygon, tron}
use frpay.Chains.Paging.{Reads, last_page}
use frpay.Chains.Tron.Watcher.{
  or_empty, add_event, handle_event, TronTransfer, no_marks, see_events,
}
use frpay.Chains.Tron.Scan.{
  get_page, page_of, min_timestamp, scan_new_events, event_of as tron_event_of,
  poll_once as poll_tron,
}
use frpay.Orders.Polls.CaughtTron.{tron_poll_catches, scanned_pages}
use frpay.Tests.Polling.{event, grid, tron_watching}
use frpay.Chains.Evm.Watcher.{add_log, handle_log, Seen, handle_logs}
use frpay.Chains.Evm.Scan.{
  block_number, first_block, batch_size, poll_once, scan_new_logs, event_of,
}
use frpay.Orders.Repository.{
  with_times, with_times, with_times, with_times, checked, new_order, stored, insert_row,
  insert_order, try_insert, checked, new_order, stored, insert_row, insert_order, try_insert,
  checked, new_order, stored, insert_row, insert_order, try_insert, is_reviewed,
}
use frpay.Chains.Evm.Batches.{logs_between}
use frpay.Orders.Service.{on_transfer}
use frpay.Orders.Accounting.{is_claimed, is_recorded}
use frpay.Orders.Accounting.Returned.{always_recorded}
use frpay.Orders.Polls.Recorded.{Fits}
use frpay.Orders.Polls.Caught.{poll_catches, scanned}
use frpay.Tests.Fixture.{shifted, fixed, decimals, opened, settings, transfer}
use frpay.Tests.Watching.{payment, blocks, node, watching, answers}

calm : (st : Statement) → opened.fails st ≡ false
unfolding try_insert insert_order statement insert_row stored new_order ◌+ℤ◌ checked write_orders
    consistent any with_times timestamptz
calm st = refl

rows : consistent opened.orders ≡ true
unfolding consistent try_insert insert_order statement insert_row stored new_order ◌+ℤ◌ checked
    write_orders any with_times timestamptz
rows = refl

always_recorded_example :
    ((on_transfer settings transfer opened).0 ≡ ok tt)
    × (is_recorded transfer (on_transfer settings transfer opened).1 ≡ true)
always_recorded_example = always_recorded settings transfer refl refl opened calm rows

latest : block_number node ≡ some (pos 2)
unfolding block_number parse_hex_quantity signed_hex trim_0x hex_digits hex_digit int64
latest = refl

no_cursor : (get_cursor polygon opened).0 ≡ ok (pos 0, none)
unfolding get_cursor statement try_insert insert_order insert_row stored new_order ◌+ℤ◌ checked
    write_orders consistent any returned_cursor select with_times timestamptz
no_cursor = refl

begins : first_block (pos 2) (pos 0) ≡ pos 0
unfolding first_block int64 ◌-ℤ◌
begins = refl

small : 2 + pos_part (batch_size (pos 1)) < 2 ^ 63
unfolding batch_size
small = omega arith

amount_read : parse_hex_big_int "0x98a9f4" ≡ some (pos 10004980)
unfolding parse_hex_big_int signed_hex trim_0x hex_digits hex_digit
amount_read = refl

block_read : parse_hex_quantity "0x2" ≡ some (pos 2)
unfolding parse_hex_quantity signed_hex trim_0x hex_digits hex_digit int64
block_read = refl

-- What the watcher has seen of the last payment.
abbrev last : Seen ℤ
last = record { amount = fixed (pos 10004980) (negsuc 5); block_height = pos 2 }

handled_last : lookup "0xdef" (handle_logs (logs_between blocks 0 3) []) ≡ some last
unfolding lookup handle_logs logs_between handle_log add_log parse_hex_big_int signed_hex trim_0x
    hex_digits hex_digit parse_hex_quantity insert int64
handled_last = refl

scanned_last :
    lookup "0xdef" (scan_new_logs (pos 9) node (pos 2) watching opened).1.pending ≡ some last
scanned_last =
    ap (λ p. lookup "0xdef" p)
      (scanned (pos 9) node blocks 2 0 watching opened (pos 0) none answers small (omega arith)
        no_cursor begins)
    ∙ handled_last

same : {it : Seen ℤ} → some last ≡ some it → last ≡ it
same e = cc

last_fits : Fits (event_of (pos 9) (pos 2) polygon "0xdef" last)
unfolding event_of int64 ◌+ℤ◌ ◌-ℤ◌
last_fits = record { received = fixed (pos 10004980) (negsuc 5); amount = refl; counts = refl }

fits :
    (it : Seen ℤ)
    → lookup "0xdef" (scan_new_logs (pos 9) node (pos 2) watching opened).1.pending ≡ some it
    → Fits (event_of (pos 9) (pos 2) polygon "0xdef" it)
fits it e =
    subst (λ x. Fits (event_of (pos 9) (pos 2) polygon "0xdef" x)) (same (sym scanned_last ∙ e))
      last_fits

poll_catches_example :
    (is_claimed polygon "0xdef"
        (poll_once (on_transfer settings) (pos 9) node watching opened).1.orders
      || is_reviewed polygon "0xdef"
          (poll_once (on_transfer settings) (pos 9) node watching opened).1.review_items)
    ≡ true
poll_catches_example =
    poll_catches settings (pos 9) node blocks 2 0 2 watching opened (pos 0) none
      (payment "0xdef" "0x2") calm rows latest answers small no_cursor begins (omega arith)
      (omega arith) (Memᴰ.head refl) refl amount_read block_read fits

no_tron_cursor : (get_cursor tron opened).0 ≡ ok (pos 0, none)
unfolding get_cursor statement try_insert insert_order insert_row stored new_order ◌+ℤ◌ checked
    write_orders consistent any returned_cursor select with_times timestamptz
no_tron_cursor = refl

page_read : Reads (get_page grid tron_watching (min_timestamp (pos 9) none)) 20 "" (event ∷ [])
unfolding get_page page_of
page_read = last_page (record { items = event ∷ []; next = none }) refl refl

to_address : equal_fold "41aa" "41aa" ≡ true
unfolding equal_fold to_lower
to_address = refl

-- What the TRON watcher has seen of the payment.
abbrev paid : TronTransfer ℤ
paid = record { amount = shifted (fixed (pos 10000500) (pos 0)) (negsuc 5); block_height = pos 70 }

handled_paid : lookup "0xabc" (see_events "41aa" (event ∷ []) ([], no_marks)).0 ≡ some paid
unfolding lookup see_events handle_event equal_fold to_lower add_event parse_int decimal_number
    decimal_digits decimal_digit insert
handled_paid = refl

scanned_paid :
    lookup "0xabc" (scan_new_events (pos 9) grid tron_watching opened).1.pending ≡ some paid
scanned_paid =
    ap (λ p. lookup "0xabc" p)
      (scanned_pages (pos 9) grid tron_watching opened (pos 0) none no_tron_cursor page_read)
    ∙ handled_paid

same_paid : {it : TronTransfer ℤ} → some paid ≡ some it → paid ≡ it
same_paid e = cc

paid_fits : Fits (tron_event_of (pos 9) (pos 90) "0xabc" paid)
unfolding tron_event_of int64 ◌+ℤ◌ ◌-ℤ◌
paid_fits = record { received = paid.amount; amount = refl; counts = refl }

all_fit :
    (it : TronTransfer ℤ)
    → lookup "0xabc" (scan_new_events (pos 9) grid tron_watching opened).1.pending ≡ some it
    → Fits (tron_event_of (pos 9) (pos 90) "0xabc" it)
all_fit it e =
    subst (λ x. Fits (tron_event_of (pos 9) (pos 90) "0xabc" x)) (same_paid (sym scanned_paid ∙ e))
      paid_fits

tron_poll_catches_example :
    (is_claimed tron "0xabc"
        (poll_tron (on_transfer settings) (pos 9) grid tron_watching opened).1.orders
      || is_reviewed tron "0xabc"
          (poll_tron (on_transfer settings) (pos 9) grid tron_watching opened).1.review_items)
    ≡ true
unfolding or_empty lookup parse_int decimal_number decimal_digits decimal_digit
tron_poll_catches_example =
    tron_poll_catches settings (pos 9) grid (pos 90) tron_watching opened (pos 0) none event calm
      rows refl no_tron_cursor page_read (Memᴰ.head refl) to_address refl all_fit
