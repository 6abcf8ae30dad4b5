-- ===== src/Orders/Polls/Tron.antt =====
-- A poll of the TRON watcher whose sink is OnTransfer, from the client's answers to the tables.
use frpay.Prelude.{Bool, List, All, ℤ, Option, none, some}
use frpay.Chains.Runs.{tron_tick, tron_run}
use frpay.Chains.Ticks.{Tick}
use frpay.Orders.Polls.Ticks.{IsKept, run-Persists}
use frpay.Decimal.{Decimals}
use frpay.Store.{Database}
use frpay.Chains.Tron.Watcher.{TronWatcher}
use frpay.Chains.Tron.Scan.{Grid, refresh_confirmations, poll_at, poll_once}
use frpay.Chains.Tron.Only.{scan_new_events_by}
use frpay.Orders.Service.{Settings, on_transfer}
use frpay.Orders.Runs.{cursors_only, Persists-preorder, Persists, Persists-trans}
use frpay.Orders.Polls.{refresh_items-Persists}

module _ {D : Type 0} ⦃dec : Decimals D⦄ where
  poll_at-Persists :
      (s : Settings D) (t : ℤ) (grid : Grid) (latest : Option ℤ) (w : TronWatcher D)
      (db : Database D)
      → Persists db (poll_at (on_transfer s) t grid latest w db).1
  unfolding poll_at refresh_confirmations
  poll_at-Persists s t grid none w db = cursors_only db db.cursors
  poll_at-Persists s t grid (some latest) w db =
      Persists-trans db _ _ (scan_new_events_by Persists Persists-preorder cursors_only t grid w db)
        (refresh_items-Persists s _ _ _ _ _)

  -- Whatever the TRON API answers, and whichever statements fail, a poll of a TRON watcher that
  -- reports to OnTransfer only takes orders along the arrows of the lifecycle, keeps the orders
  -- well-formed and consistent if they were, and takes nothing from the review queue or the audit
  -- trail.
  pub tron_poll-Persists :
      (s : Settings D) (t : ℤ) (grid : Grid) (w : TronWatcher D) (db : Database D)
      → Persists db (poll_once (on_transfer s) t grid w db).1
  unfolding poll_once
  tron_poll-Persists s t grid w db = poll_at-Persists s t grid grid.now_block w db

  -- However often the TRON watcher polls, whatever its API answers at each tick and whichever
  -- statements fail, if what the other goroutines do between the ticks only takes orders along the
  -- arrows of the lifecycle, keeps the orders well-formed and consistent and takes nothing from the
  -- review queue or the audit trail, so does the whole run of a watcher that reports to OnTransfer.
  pub tron_run-Persists :
      (s : Settings D) (enabled : Bool) (ticks : List (Tick D (ℤ × Grid))) (w : TronWatcher D)
      (db : Database D)
      → All IsKept ticks
      → Persists db (tron_run (on_transfer s) enabled ticks w db).1
  tron_run-Persists s enabled ticks w db h =
      run-Persists (tron_tick (on_transfer s))
        (λ (a : ℤ × Grid) w db. tron_poll-Persists s a.0 a.1 w db) enabled ticks w db h
