-- ===== src/Orders/Polls/Caught.antt =====
-- A poll of an EVM watcher while nothing fails: the transfers of the new blocks.
use frpay.Prelude.{
  sym, ℕ, ℤ, pos, pos_part, String, ◌≡◌, refl, subst, arith, true, false, some, Option, List, Memᴰ,
  lookup, ltb, length, ◌+◌, ◌-◌, ◌≤◌, ◌<◌, ◌^◌, zero, suc, ◌||◌, Option-cases, inl, inr, Bool-cases,
  ◌==◌, ==_iff,
}
use mathlib.Core.List.Memᴰ.{append_left, append_right}
use frpay.Decimal.{Decimals}
use frpay.Store.{Database, Statement, ok, consistent}
use frpay.Chains.Cursors.{get_cursor}
use frpay.Chains.Evm.Types.{RpcLog, parse_hex_big_int, parse_hex_quantity}
use frpay.Chains.Evm.Watcher.{Watcher, Node, Seen, handle_logs}
use frpay.Chains.Evm.Scan.{
  first_block, batch_size, ask_logs, event_of, scan_new_logs, poll_at, poll_once,
  refresh_confirmations, block_number, on_cursor, save_cursor, is_deep,
}
use frpay.Chains.Evm.Batches.{Answers, logs_between, scan_from_lem}
use frpay.Chains.Evm.Kept.{scan_new_logs-Keeps}
use frpay.Orders.Repository.{is_reviewed}
use frpay.Orders.Service.{Settings, on_transfer}
use frpay.Orders.Polls.Confirms.{mem-lookup}
use frpay.Orders.Polls.Recorded.{Fits, refresh_records, scan-Calms, handle_logs-adds}
use frpay.Orders.Accounting.{is_claimed, is_recorded}
use frpay.Orders.Accounting.Returned.{IsCalm}

-- The logs of a block are among those of a range that it is in.
mem-logs_between :
    (blocks : ℕ → List RpcLog) (a k n : ℕ) {l : RpcLog}
    → a ≤ n
    → n < a + k
    → Memᴰ l (blocks n)
    → Memᴰ l (logs_between blocks a k)
unfolding logs_between
mem-logs_between blocks a zero n h j m = absurd (omega arith)
mem-logs_between blocks a (suc k) n {l} h j m = elim (Bool-cases (n == a)) [
  | inl here ↦ append_left _ (subst (λ b. Memᴰ l (blocks b)) ((==_iff n a).0 here) m)
  | inr later ↦
      append_right (blocks a)
        (mem-logs_between blocks (suc a) k n (ground (arith, ==_iff n a)) (omega arith) m)
]

module _ {D : Type 0} ⦃dec : Decimals D⦄ where
  -- What waits after the scan of a poll is recorded at its end.
  poll_reports :
      (s : Settings D) (t : ℤ) (node : Node) (latest : ℤ) (w : Watcher D) (db : Database D)
      (tx : String) (it : Seen D)
      → IsCalm db
      → block_number node ≡ some latest
      → lookup tx (scan_new_logs t node latest w db).1.pending ≡ some it
      → Fits (event_of t latest w.chain tx it)
      → is_recorded (event_of t latest w.chain tx it) (poll_once (on_transfer s) t node w db).1
        ≡ true
  unfolding poll_once poll_at refresh_confirmations
  poll_reports s t node latest w db tx it c answered waits fits =
      let w' = (scan_new_logs t node latest w db).1 in
      let same = (scan_new_logs-Keeps t node latest w db).chain in
      let there = mem-lookup tx it w'.pending waits in
      let calm = scan-Calms t node latest w db c in
      let f = subst (λ x. Fits (event_of t latest x tx it)) (sym same) fits in
      rw answered (
        subst
          (λ x.
            is_recorded (event_of t latest x tx it)
              (refresh_confirmations (on_transfer s) t latest w'
                (scan_new_logs t node latest w db).2).1
            ≡ true)
          same
          (refresh_records s (event_of t latest w'.chain) (is_deep latest w'.required_confirms)
            w'.pending w'.pending tx it (scan_new_logs t node latest w db).2 calm there f))

  -- The scan of a poll is of the blocks from `a` on.
  pub scanned :
      (t : ℤ) (node : Node) (blocks : ℕ → List RpcLog) (l a : ℕ) (w : Watcher D) (db : Database D)
      (height : ℤ) (at : Option ℤ)
      → Answers (ask_logs node w) blocks l
      → l + pos_part (batch_size w.logs_batch_blocks) < 2 ^ 63
      → a ≤ l
      → (get_cursor w.chain db).0 ≡ ok (height, at)
      → first_block (pos l) height ≡ pos a
      → (scan_new_logs t node (pos l) w db).1.pending
        ≡ handle_logs (logs_between blocks a (suc l - a)) w.pending
  unfolding scan_new_logs on_cursor save_cursor
  scanned t node blocks l a w db height at answers small h cursor first =
      rw
        (cursor, first, scan_from_lem t node blocks l a w (get_cursor w.chain db).1 answers small h)
        refl

  -- While no statement fails, the orders are consistent, and the node answers the latest block and,
  -- for every range up to it, the logs of its blocks: a poll of an EVM watcher that scans from
  -- block `a` on leaves the hash of every transfer that a log of a block from `a` to the latest
  -- decodes to on an order of its chain or in the review queue, if the latest block and the size of
  -- a batch together fit an int64, and what the scan has seen last under the hash fits its columns.
  pub poll_catches :
      (s : Settings D) (t : ℤ) (node : Node) (blocks : ℕ → List RpcLog) (l a n : ℕ) (w : Watcher D)
      (db : Database D) (height : ℤ) (at : Option ℤ) (log : RpcLog) {raw block : ℤ}
      → ((st : Statement) → db.fails st ≡ false)
      → consistent db.orders ≡ true
      → block_number node ≡ some (pos l)
      → Answers (ask_logs node w) blocks l
      → l + pos_part (batch_size w.logs_batch_blocks) < 2 ^ 63
      → (get_cursor w.chain db).0 ≡ ok (height, at)
      → first_block (pos l) height ≡ pos a
      → a ≤ n
      → n ≤ l
      → Memᴰ log (blocks n)
      → ltb (length log.topics) 3 ≡ false
      → parse_hex_big_int log.log_data ≡ some raw
      → parse_hex_quantity log.block_number ≡ some block
      → ((it : Seen D)
          → lookup log.transaction_hash (scan_new_logs t node (pos l) w db).1.pending ≡ some it
          → Fits (event_of t (pos l) w.chain log.transaction_hash it))
      → (is_claimed w.chain log.transaction_hash (poll_once (on_transfer s) t node w db).1.orders
          || is_reviewed w.chain log.transaction_hash
              (poll_once (on_transfer s) t node w db).1.review_items)
        ≡ true
  unfolding event_of
  poll_catches s t node blocks l a n w db height at log up rows answered answers small cursor first
        from to m whole value block fits =
      let pending =
        scanned t node blocks l a w db height at answers small (omega arith) cursor first in
      let among = mem-logs_between blocks a (suc l - a) n from (omega arith) m in
      let seen = rw (← pending) at (
        handle_logs-adds (logs_between blocks a (suc l - a)) log w.pending among whole value
          block) in
      elim (Option-cases
        (lookup log.transaction_hash (scan_new_logs t node (pos l) w db).1.pending)) [
          | inl none_there ↦ cc
          | inr (it, waits) ↦
              poll_reports s t node (pos l) w db log.transaction_hash it
                (record { up = up; rows = rows }) answered waits (fits it waits)
        ]
