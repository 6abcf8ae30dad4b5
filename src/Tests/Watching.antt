-- ===== src/Tests/Watching.antt =====
-- An EVM watcher over a chain of three blocks, of which the last two each pay once.
use frpay.Chains.Pending.{settles}
use frpay.Prelude.{
  times_ℤ, ◌≤ℤ◌, ◌<ℤ◌, ◌+ℤ◌, int64, ℕ, zero, suc, ℤ, pos, ◌≡◌, refl, arith, String, Option, none,
  some, List, [], ◌∷◌, ◌-◌, lookup, pos_part, if◌then◌else◌,
}
use frpay.Store.{timestamptz, ok, statement}
use frpay.Chains.Cursors.{put_cursor, get_cursor, set_cursor}
use frpay.Chains.Cursors.Saved.{get-set_cursor}
use frpay.Chains.Watcher.{PendingTransfer, polygon}
use frpay.Chains.Evm.Types.{
  signed_hex, trim_0x, put_digits, hex_digits, hex_digit, RpcLog, parse_hex_quantity,
  to_hex_quantity, address_to_topic,
}
use frpay.Chains.Evm.Watcher.{Watcher, Node, seed_pending, handle_logs}
use frpay.Chains.Evm.Scan.{
  is_deep, ask_logs, scan_from, save_cursor, reached, refresh_confirmations, batch_size,
}
use frpay.Chains.Evm.Batches.{Answers, logs_between, scan_from_lem}
use frpay.Chains.Evm.Quantities.{parse-to_hex_quantity}
use frpay.Chains.Evm.Pending.{lookup-refresh_confirmations}
use frpay.Orders.Service.{on_transfer}
use frpay.Tests.Fixture.{empty, decimals, opened, settings}

abbrev pub payment : String → String → RpcLog
payment tx block = record {
  address = "0xc2132d05d31c914a87c6611c10748aeb04b58e8f";
  topics = "transfer" ∷ "sender" ∷ "receiver" ∷ [];
  log_data = "0x98a9f4";
  block_number = block;
  transaction_hash = tx;
}

abbrev pub blocks : ℕ → List RpcLog
blocks zero = []
blocks (suc zero) = payment "0xabc" "0x1" ∷ []
blocks (suc (suc n)) = payment "0xdef" "0x2" ∷ []

abbrev height : Option ℤ → ℕ
height none = 0
height (some n) = pos_part n

abbrev pub node : Node
node = record {
  block_number = some "0x2";
  get_logs = λ from to contract topic. some (
      logs_between blocks (height (parse_hex_quantity from))
        (suc (height (parse_hex_quantity to)) - height (parse_hex_quantity from)));
}

abbrev pub watching : Watcher ℤ
watching = record {
  chain = polygon;
  address_topic = address_to_topic "0x00000000000000000000000000000000000000aa";
  usdt_contract = "0xc2132d05d31c914a87c6611c10748aeb04b58e8f";
  required_confirms = pos 2;
  logs_batch_blocks = pos 1;
  pending = [];
}

pub answers : Answers (ask_logs ⦃dec = decimals⦄ node watching) blocks 2
unfolding ask_logs parse_hex_quantity signed_hex trim_0x to_hex_quantity put_digits hex_digits
    hex_digit int64
answers zero zero h k = refl
answers zero (suc zero) h k = refl
answers zero (suc (suc zero)) h k = refl
answers (suc zero) zero h k = absurd (omega arith)
answers (suc zero) (suc zero) h k = refl
answers (suc zero) (suc (suc zero)) h k = refl
answers (suc (suc zero)) zero h k = absurd (omega arith)
answers (suc (suc zero)) (suc zero) h k = absurd (omega arith)
answers (suc (suc zero)) (suc (suc zero)) h k = refl
answers (suc (suc (suc n))) b h k = absurd (omega arith)
answers a (suc (suc (suc b))) h k = absurd (omega arith)

scan_from_lem_example :
    scan_from (pos 9) node (pos 2) (pos 1) watching opened
    ≡ save_cursor
        (pos 9)
        watching
        (reached (pos 2), handle_logs (logs_between blocks 1 2) [])
        opened
unfolding batch_size
scan_from_lem_example =
    scan_from_lem (pos 9) node blocks 2 1 watching opened answers (omega arith) (omega arith)

abbrev seed : PendingTransfer ℤ
seed = record { tx_hash = "0xabc"; amount = pos 1000000000; block_height = pos 1 }

abbrev seeded_watcher : Watcher ℤ
seeded_watcher = seed_pending seed watching

lookup-refresh_confirmations_example :
    lookup "0xabc"
      (refresh_confirmations (on_transfer settings) (pos 9) (pos 2) seeded_watcher opened).0.pending
    ≡ (if settles (is_deep (pos 2) (pos 2)) "0xabc" seeded_watcher.pending
        then none
        else lookup "0xabc" seeded_watcher.pending)
unfolding seed_pending
lookup-refresh_confirmations_example =
    lookup-refresh_confirmations (on_transfer settings) (pos 9) (pos 2) seeded_watcher opened
      "0xabc"

saved : (set_cursor polygon (pos 500) (pos 1_234_567) empty).0 ≡ ok tt
unfolding set_cursor statement put_cursor timestamptz
saved = refl

get-set_cursor_example :
    (us : ℤ) × ((get_cursor polygon (set_cursor polygon (pos 500) (pos 1_234_567) empty).1).0
      ≡ ok (pos 500, some (times_ℤ us 1000)))
    × (times_ℤ us 1000 ≤ℤ pos 1_234_567)
    × (pos 1_234_567 <ℤ times_ℤ (us +ℤ pos 1) 1000)
get-set_cursor_example = get-set_cursor polygon (pos 500) (pos 1_234_567) empty saved refl

parse-to_hex_quantity_example : parse_hex_quantity (to_hex_quantity (pos 26)) ≡ some (pos 26)
parse-to_hex_quantity_example =
    parse-to_hex_quantity (pos 26) (record { above = omega arith; below = omega arith })
