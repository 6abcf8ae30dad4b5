-- ===== src/Chains/Evm/Scan.antt =====
-- internal/chains/evm/watcher.go: scanNewLogs, refreshConfirmations, emit and pollOnce.
use frpay.Prelude.{
  ℕ, zero, suc, ℤ, pos, ◌+ℤ◌, ◌-ℤ◌, ltb_ℤ, leb_ℤ, int64, pos_part, String, Bool, true, false,
  Option, none, some, List, Dict, if◌then◌else◌,
}
use frpay.Decimal.{Decimals}
use frpay.Store.{Database, Result, ok, err, Action, DbError}
use frpay.Chains.Watcher.{TransferEvent}
use frpay.Chains.Pending.{refresh_items}
use frpay.Chains.Cursors.{get_cursor, set_cursor}
use frpay.Chains.Evm.Types.{RpcLog, parse_hex_quantity, to_hex_quantity}
use frpay.Chains.Evm.Watcher.{Seen, Watcher, Node, handle_logs}

-- How scanNewLogs ends.
pub data Scan : Type 0 where
  -- the last block whose logs were handled
  reached : ℤ → Scan
  nothing_new get_logs_failed out_of_fuel : Scan
  load_cursor_failed save_cursor_failed : DbError → Scan

unfoldable pub is_zero : ℤ → Bool
is_zero (pos zero) = true
is_zero _ = false

-- The first block to scan, from the cursor's height.
unfoldable pub first_block : ℤ → ℤ → ℤ
unfolding is_zero
first_block latest height =
    if is_zero height
    then (if ltb_ℤ (int64 (latest -ℤ pos 50)) (pos 0) then pos 0 else int64 (latest -ℤ pos 50))
    else int64 (height +ℤ pos 1)

unfoldable pub batch_size : ℤ → ℤ
batch_size batch = if leb_ℤ batch (pos 0) then pos 2000 else batch

unfoldable pub batch_end : ℤ → ℤ → ℤ → ℤ
batch_end latest batch cursor =
    let to = int64 (int64 (cursor +ℤ batch) -ℤ pos 1) in if ltb_ℤ latest to then latest else to

unfoldable pub save_result : Result DbError Unit → ℤ → Scan
save_result (ok _) last_completed = reached last_completed
save_result (err e) last_completed = save_cursor_failed e

module _ {D : Type 0} ⦃dec : Decimals D⦄ where
  -- A batch's logs are handled and the loop goes on, or the scan ends.
  unfoldable pub after_logs :
      Option (List RpcLog)
      → (Dict (Seen D) → Scan × Dict (Seen D))
      → Dict (Seen D)
      → Scan × Dict (Seen D)
  after_logs none again p = (get_logs_failed, p)
  after_logs (some logs) again p = again (handle_logs logs p)

  -- The loop over the batches, whose size is at least one.
  unfoldable pub scan_batches :
      ℕ → (ℤ → ℤ → Option (List RpcLog)) → ℤ → ℤ → ℤ → ℤ → Dict (Seen D) → Scan × Dict (Seen D)
  scan_batches zero ask latest batch cursor last_completed p = (out_of_fuel, p)
  scan_batches (suc fuel) ask latest batch cursor last_completed p =
      let to = batch_end latest batch cursor in
      let again = scan_batches fuel ask latest batch (int64 (to +ℤ pos 1)) to in
      if leb_ℤ cursor latest
      then after_logs (ask cursor to) again p
      else (reached last_completed, p)

  -- eth_getLogs for a range of blocks.
  unfoldable pub ask_logs : Node → Watcher D → ℤ → ℤ → Option (List RpcLog)
  ask_logs node w from to =
      node.get_logs (to_hex_quantity from) (to_hex_quantity to) w.usdt_contract w.address_topic

  -- SetCursor, if every batch was scanned.
  unfoldable pub save_cursor :
      ℤ → Watcher D → Scan × Dict (Seen D) → Database D → Scan × Watcher D × Database D
  save_cursor t w (reached last_completed, p) db =
      let (r, db') = set_cursor w.chain last_completed t db in
      (save_result r last_completed, record w { pending = p }, db')
  save_cursor t w (scan, p) db = (scan, record w { pending = p }, db)

  unfoldable pub scan_from :
      ℤ → Node → ℤ → ℤ → Watcher D → Database D → Scan × Watcher D × Database D
  scan_from t node latest from w db =
      if ltb_ℤ latest from
      then (nothing_new, w, db)
      else (save_cursor t w
          (scan_batches (suc (suc (pos_part (latest -ℤ from)))) (ask_logs node w) latest
            (batch_size w.logs_batch_blocks) from (int64 (from -ℤ pos 1)) w.pending)
          db)

  unfoldable pub on_cursor :
      ℤ
      → Node
      → ℤ
      → Watcher D
      → Result DbError (ℤ × Option ℤ)
      → Database D
      → Scan × Watcher D × Database D
  on_cursor t node latest w (err e) db = (load_cursor_failed e, w, db)
  on_cursor t node latest w (ok (height, _)) db =
      scan_from t node latest (first_block latest height) w db

  unfoldable pub scan_new_logs :
      ℤ → Node → ℤ → Watcher D → Database D → Scan × Watcher D × Database D
  scan_new_logs t node latest w db =
      let (r, db') = get_cursor w.chain db in on_cursor t node latest w r db'

  -- What emit reports of a transfer.
  unfoldable pub event_of : ℤ → ℤ → String → String → Seen D → TransferEvent D
  event_of t latest chain tx it = record {
    chain = chain;
    tx_hash = tx;
    amount = it.amount;
    block_height = it.block_height;
    confirmations =
        let n = int64 (int64 (latest -ℤ it.block_height) +ℤ pos 1) in
        if ltb_ℤ n (pos 0) then pos 0 else n;
    observed_at = t;
  }

  unfoldable pub is_deep : ℤ → ℤ → Seen D → Bool
  is_deep latest required it = leb_ℤ required (int64 (int64 (latest -ℤ it.block_height) +ℤ pos 1))

-- eth_blockNumber
unfoldable pub block_number : Node → Option ℤ
block_number node = elim node.block_number [ none ↦ none | some answer ↦ parse_hex_quantity answer ]

module _ {D E : Type 0} ⦃dec : Decimals D⦄ (sink : TransferEvent D → Action D E Unit) where
  unfoldable pub refresh_confirmations : ℤ → ℤ → Watcher D → Database D → Watcher D × Database D
  refresh_confirmations t latest w db =
      let (p, db') =
        refresh_items sink (event_of t latest w.chain) (is_deep latest w.required_confirms)
          w.pending w.pending db in
      (record w { pending = p }, db')

  unfoldable pub poll_at : ℤ → Node → Option ℤ → Watcher D → Database D → Watcher D × Database D
  poll_at t node none w db = (w, db)
  poll_at t node (some latest) w db =
      let (scan, w', db') = scan_new_logs t node latest w db in
      refresh_confirmations t latest w' db'

  -- pollOnce at the host's time `t`; its error is only logged.
  unfoldable pub poll_once : ℤ → Node → Watcher D → Database D → Watcher D × Database D
  unfolding block_number
  poll_once t node w db = poll_at t node (block_number node) w db
