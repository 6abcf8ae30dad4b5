-- ===== src/Main/Polls.antt =====
-- A poll of any watcher that main may enable: what it keeps of the orders and of the watcher.
use frpay.Prelude.{ℤ, ◌≡◌, refl, Option, none, some}
use frpay.Decimal.{Decimals}
use frpay.Store.{Database, Action}
use frpay.Chains.Watcher.{TransferEvent}
use frpay.Chains.Evm.Watcher.{Node, Watcher}
use frpay.Chains.Evm.Scan.{poll_once, poll_at, refresh_confirmations}
use frpay.Chains.Evm.Kept.{scan_new_logs-Keeps}
use frpay.Chains.Evm.Pending.{evm_watcher}
use frpay.Chains.Tron.Watcher.{TronWatcher, tron_watcher}
use frpay.Chains.Tron.Scan as Tron
use frpay.Chains.Tron.Kept.{scan_new_events-Keeps}
use frpay.Chains.Ton.Watcher.{TonWatcher, ton_watcher}
use frpay.Chains.Ton.Scan as Ton
use frpay.Chains.Ton.Kept.{scan_new_transfers-Keeps}
use frpay.Orders.Service.{Settings}
use frpay.Orders.Runs.{Persists}
use frpay.Orders.Polls.{poll_once-Persists}
use frpay.Orders.Polls.Tron.{tron_poll-Persists}
use frpay.Orders.Polls.Ton.{ton_poll-Persists}
use frpay.Main.{AnyWatcher, tron_one, ton_one, evm_one, any_watcher, required_of}
use frpay.Main.Running.{Outside, poll_any, proxy_on_transfer}

module _ {D E : Type 0} ⦃dec : Decimals D⦄ (sink : TransferEvent D → Action D E Unit) where
  evm_poll_required :
      (t : ℤ) (node : Node) (latest : Option ℤ) (w : Watcher D) (db : Database D)
      → (poll_at sink t node latest w db).0.required_confirms ≡ w.required_confirms
  unfolding poll_at refresh_confirmations
  evm_poll_required t node none w db = refl
  evm_poll_required t node (some latest) w db =
      (scan_new_logs-Keeps t node latest w db).required_confirms

  tron_poll_required :
      (t : ℤ) (grid : Tron.Grid) (latest : Option ℤ) (w : TronWatcher D) (db : Database D)
      → (Tron.poll_at sink t grid latest w db).0.required_confirms ≡ w.required_confirms
  unfolding Tron.poll_at Tron.refresh_confirmations
  tron_poll_required t grid none w db = refl
  tron_poll_required t grid (some latest) w db =
      (scan_new_events-Keeps t grid w db).required_confirms

  ton_poll_required :
      (t : ℤ) (center : Ton.Center) (w : TonWatcher D) (db : Database D)
      → (Ton.poll_once sink t center w db).0.required_confirms ≡ w.required_confirms
  unfolding Ton.poll_once Ton.refresh_confirmations
  ton_poll_required t center w db = (scan_new_transfers-Keeps t center w db).required_confirms

module _ {D : Type 0} ⦃dec : Decimals D⦄ where
  -- A poll of whichever watcher only takes orders along the lifecycle.
  pub poll_any-Persists :
      (s : Settings D) (o : Outside) (w : AnyWatcher D) (db : Database D)
      → Persists db (poll_any s o w db).1
  unfolding poll_any proxy_on_transfer
  poll_any-Persists s o (tron_one w) db = tron_poll-Persists s o.time o.grid w db
  poll_any-Persists s o (ton_one w) db = ton_poll-Persists s o.time o.center w db
  poll_any-Persists s o (evm_one w) db = poll_once-Persists s o.time o.node w db

  -- It leaves what the watcher requires.
  pub poll_any_required :
      (s : Settings D) (o : Outside) (w : AnyWatcher D) (db : Database D)
      → any_watcher.required_confirmations (poll_any s o w db).0
        ≡ any_watcher.required_confirmations w
  unfolding poll_any proxy_on_transfer any_watcher required_of evm_watcher tron_watcher ton_watcher
      poll_once Tron.poll_once
  poll_any_required s o (tron_one w) db = tron_poll_required _ o.time o.grid _ w db
  poll_any_required s o (ton_one w) db = ton_poll_required _ o.time o.center w db
  poll_any_required s o (evm_one w) db = evm_poll_required _ o.time o.node _ w db
