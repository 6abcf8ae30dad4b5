-- ===== src/Orders/Polls.antt =====
-- Polls of the watchers whose sink is OnTransfer, from the answers of the node or API to the tables.
pub mod Ticks
pub mod Evm
pub mod Confirms
pub mod Recorded
pub mod Caught
pub mod CaughtTron
pub mod Tron
pub mod Ton
use frpay.Prelude.{
  Bool, ℤ, String, Option, none, some, List, [], ◌∷◌, Dict, Bool-cases, inl, inr, Extends-refl,
  ltb_ℤ,
}
use frpay.Decimal.{Decimals}
use frpay.Store.{IsPreorder, Cursor, Database, Result, ok, err, DbError, statement-cases, Statement}
use frpay.Chains.Pending.{refresh_items}
use frpay.Chains.Watcher.{TransferEvent}
use frpay.Chains.Cursors.{returned_cursor, get_cursor, set_cursor}
use frpay.Chains.Evm.Watcher.{Seen, Watcher, Node}
use frpay.Chains.Evm.Scan.{
  Scan, reached, nothing_new, get_logs_failed, out_of_fuel, load_cursor_failed, save_cursor_failed,
  save_cursor, scan_from, on_cursor, scan_new_logs, refresh_confirmations, poll_at, poll_once,
}
use frpay.Chains.Evm.Only.{scan_new_logs_by}
use frpay.Orders.Service.{Settings, on_transfer}
use frpay.Orders.Lifecycle.{Progress, Progress-refl, same_refl}
use frpay.Orders.Lifecycle.Transfers.{on_transfer-Later}
use frpay.Orders.Runs.{Persists-preorder, cursors_only, Persists, of_Later, Persists-trans}

module _ {D : Type 0} ⦃dec : Decimals D⦄ where
  -- The events of one round of refreshConfirmations, of whichever watcher.
  pub refresh_items-Persists :
      {I : Type 0} (s : Settings D) (report : String → I → TransferEvent D) (settled : I → Bool)
      (items p : Dict I) (db : Database D)
      → Persists db (refresh_items (on_transfer s) report settled items p db).1
  unfolding refresh_items
  refresh_items-Persists s report settled [] p db = cursors_only db db.cursors
  refresh_items-Persists s report settled ((tx, it) ∷ items) p db =
      Persists-trans db _ _ (of_Later (on_transfer-Later s (report tx it) db))
        (refresh_items-Persists s report settled items _ _)

  poll_at-Persists :
      (s : Settings D) (t : ℤ) (node : Node) (latest : Option ℤ) (w : Watcher D) (db : Database D)
      → Persists db (poll_at (on_transfer s) t node latest w db).1
  unfolding poll_at refresh_confirmations
  poll_at-Persists s t node none w db = cursors_only db db.cursors
  poll_at-Persists s t node (some latest) w db =
      Persists-trans db _ _
        (scan_new_logs_by Persists Persists-preorder cursors_only t node latest w db)
        (refresh_items-Persists s _ _ _ _ _)

  -- Whatever the RPC node answers, and whichever statements fail, a poll of an EVM watcher that
  -- reports to OnTransfer only takes orders along the arrows of the lifecycle, keeps the orders
  -- well-formed and consistent if they were, and takes nothing from the review queue or the audit
  -- trail.
  pub poll_once-Persists :
      (s : Settings D) (t : ℤ) (node : Node) (w : Watcher D) (db : Database D)
      → Persists db (poll_once (on_transfer s) t node w db).1
  unfolding poll_once
  poll_once-Persists s t node w db = poll_at-Persists s t node _ w db
