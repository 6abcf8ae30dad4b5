-- ===== src/Orders/Polls/Evm.antt =====
-- The run of an EVM watcher whose sink is OnTransfer.
use frpay.Prelude.{ℤ, Bool, List, All}
use frpay.Decimal.{Decimals}
use frpay.Store.{Database}
use frpay.Chains.Evm.Watcher.{Watcher, Node}
use frpay.Chains.Runs.{evm_tick, evm_run}
use frpay.Chains.Ticks.{Tick}
use frpay.Orders.Service.{Settings, on_transfer}
use frpay.Orders.Runs.{Persists}
use frpay.Orders.Polls.{poll_once-Persists}
use frpay.Orders.Polls.Ticks.{IsKept, run-Persists}

module _ {D : Type 0} ⦃dec : Decimals D⦄ where
  -- The same as of the other watchers: a run keeps what its polls keep.
  pub evm_run-Persists :
      (s : Settings D) (enabled : Bool) (ticks : List (Tick D (ℤ × Node))) (w : Watcher D)
      (db : Database D)
      → All IsKept ticks
      → Persists db (evm_run (on_transfer s) enabled ticks w db).1
  evm_run-Persists s enabled ticks w db h =
      run-Persists (evm_tick (on_transfer s))
        (λ (a : ℤ × Node) w db. poll_once-Persists s a.0 a.1 w db) enabled ticks w db h
