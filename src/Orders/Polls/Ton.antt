-- ===== src/Orders/Polls/Ton.antt =====
-- A poll of the TON watcher whose sink is OnTransfer, from the client's answers to the tables.
use frpay.Prelude.{Bool, List, All, ℤ}
use frpay.Chains.Runs.{ton_tick, ton_run}
use frpay.Chains.Ticks.{Tick}
use frpay.Orders.Polls.Ticks.{IsKept, run-Persists}
use frpay.Decimal.{Decimals}
use frpay.Store.{Database}
use frpay.Chains.Ton.Watcher.{TonWatcher}
use frpay.Chains.Ton.Scan.{Center, refresh_confirmations, poll_once}
use frpay.Chains.Ton.Only.{scan_new_transfers_by}
use frpay.Orders.Service.{Settings, on_transfer}
use frpay.Orders.Runs.{cursors_only, Persists-preorder, Persists, Persists-trans}
use frpay.Orders.Polls.{refresh_items-Persists}

module _ {D : Type 0} ⦃dec : Decimals D⦄ where
  -- Whatever the TON API answers, and whichever statements fail, a poll of a TON watcher that
  -- reports to OnTransfer only takes orders along the arrows of the lifecycle, keeps the orders
  -- well-formed and consistent if they were, and takes nothing from the review queue or the audit
  -- trail.
  pub ton_poll-Persists :
      (s : Settings D) (t : ℤ) (center : Center) (w : TonWatcher D) (db : Database D)
      → Persists db (poll_once (on_transfer s) t center w db).1
  unfolding poll_once refresh_confirmations
  ton_poll-Persists s t center w db =
      Persists-trans db _ _
        (scan_new_transfers_by Persists Persists-preorder cursors_only t center w db)
        (refresh_items-Persists s _ _ _ _ _)

  -- However often the TON watcher polls, whatever its API answers at each tick and whichever
  -- statements fail, if what the other goroutines do between the ticks only takes orders along the
  -- arrows of the lifecycle, keeps the orders well-formed and consistent and takes nothing from the
  -- review queue or the audit trail, so does the whole run of a watcher that reports to OnTransfer.
  pub ton_run-Persists :
      (s : Settings D) (enabled : Bool) (ticks : List (Tick D (ℤ × Center))) (w : TonWatcher D)
      (db : Database D)
      → All IsKept ticks
      → Persists db (ton_run (on_transfer s) enabled ticks w db).1
  ton_run-Persists s enabled ticks w db h =
      run-Persists (ton_tick (on_transfer s))
        (λ (a : ℤ × Center) w db. ton_poll-Persists s a.0 a.1 w db) enabled ticks w db h
