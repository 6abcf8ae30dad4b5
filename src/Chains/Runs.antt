-- ===== src/Chains/Runs.antt =====
-- Run of the three watchers, each over the ticks that it polls on.
use frpay.Prelude.{ℤ, Bool, List}
use frpay.Decimal.{Decimals}
use frpay.Store.{Database, Action}
use frpay.Chains.Watcher.{TransferEvent}
use frpay.Chains.Ticks.{Tick, run}
use frpay.Chains.Evm.Watcher.{Watcher, Node}
use frpay.Chains.Evm.Scan.{poll_once}
use frpay.Chains.Tron.Watcher.{TronWatcher}
use frpay.Chains.Tron.Scan.{Grid, poll_once as poll_tron}
use frpay.Chains.Ton.Watcher.{TonWatcher}
use frpay.Chains.Ton.Scan.{Center, poll_once as poll_ton}

module _ {D E : Type 0} ⦃dec : Decimals D⦄ (sink : TransferEvent D → Action D E Unit) where
  -- What a tick meets: the host's time, and the client's answers.
  abbrev pub evm_tick : ℤ × Node → Watcher D → Database D → Watcher D × Database D
  evm_tick (t, node) w db = poll_once sink t node w db

  -- Run of internal/chains/evm/watcher.go
  abbrev pub evm_run :
      Bool → List (Tick D (ℤ × Node)) → Watcher D → Database D → Watcher D × Database D
  evm_run enabled ticks w db = run evm_tick enabled ticks w db

  abbrev pub tron_tick : ℤ × Grid → TronWatcher D → Database D → TronWatcher D × Database D
  tron_tick (t, grid) w db = poll_tron sink t grid w db

  -- Run of internal/chains/tron/watcher.go
  abbrev pub tron_run :
      Bool → List (Tick D (ℤ × Grid)) → TronWatcher D → Database D → TronWatcher D × Database D
  tron_run enabled ticks w db = run tron_tick enabled ticks w db

  abbrev pub ton_tick : ℤ × Center → TonWatcher D → Database D → TonWatcher D × Database D
  ton_tick (t, center) w db = poll_ton sink t center w db

  -- Run of internal/chains/ton/watcher.go
  abbrev pub ton_run :
      Bool → List (Tick D (ℤ × Center)) → TonWatcher D → Database D → TonWatcher D × Database D
  ton_run enabled ticks w db = run ton_tick enabled ticks w db
