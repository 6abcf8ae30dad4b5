-- ===== src/Main/Confirming.antt =====
-- What a poll of any watcher reports, and what becomes of the orders that wait for it.
use frpay.Prelude.{subst, sym, List, ℤ, String, ◌≡◌, refl, Option, none, some, lookup}
use frpay.Decimal.{Decimals}
use frpay.Store.{Order, Database, confirming, IsPreorder, Cursor}
use frpay.Chains.Watcher.{TransferEvent}
use frpay.Chains.Evm.Watcher.{Node, Watcher}
use frpay.Chains.Evm.Scan.{
  poll_once, poll_at, refresh_confirmations, scan_new_logs, block_number, event_of,
}
use frpay.Chains.Evm.Only.{scan_new_logs_by}
use frpay.Chains.Tron.Watcher.{TronWatcher}
use frpay.Chains.Tron.Scan as Tron
use frpay.Chains.Tron.Only.{scan_new_events_by}
use frpay.Chains.Ton.Watcher.{TonWatcher, unix}
use frpay.Chains.Ton.Scan as Ton
use frpay.Chains.Ton.Only.{scan_new_transfers_by}
use frpay.Orders.Service.{Settings, on_transfer}
use frpay.Orders.Lifecycle.{IsWellFormed}
use frpay.Orders.Polls.Confirms.{refresh_confirms, Reaches, IsUp, HoldsConfirmed, mem-lookup}
use frpay.Main.{AnyWatcher, tron_one, ton_one, evm_one}
use frpay.Main.Running.{Outside, poll_any, proxy_on_transfer}

abbrev pub reports : {I E : Type 0} → (I → E) → Option I → Option E
reports f none = none
reports f (some it) = some (f it)

module _ {D : Type 0} ⦃dec : Decimals D⦄ where
  -- The event of the transfer that the EVM watcher reports once its scan is done, if it waits for it.
  abbrev pub evm_reported :
      ℤ → Node → Option ℤ → Watcher D → Database D → String → Option (TransferEvent D)
  evm_reported t node none w db tx = none
  evm_reported t node (some latest) w db tx =
      let w' = (scan_new_logs t node latest w db).1 in
      reports (event_of t latest w'.chain tx) (lookup tx w'.pending)

  abbrev pub tron_reported :
      ℤ → Tron.Grid → Option ℤ → TronWatcher D → Database D → String → Option (TransferEvent D)
  tron_reported t grid none w db tx = none
  tron_reported t grid (some latest) w db tx =
      let w' = (Tron.scan_new_events t grid w db).1 in
      reports (Tron.event_of t latest tx) (lookup tx w'.pending)

  abbrev pub ton_reported :
      ℤ → Ton.Center → TonWatcher D → Database D → String → Option (TransferEvent D)
  ton_reported t center w db tx =
      let w' = (Ton.scan_new_transfers t center w db).1 in
      reports (Ton.event_of t (unix t) tx) (lookup tx w'.pending)

  -- The event of the transfer that the watcher reports in a poll, none if it does not wait for it after
  -- its scan, or the client does not answer the latest block.
  unfoldable pub reported : Outside → AnyWatcher D → Database D → String → Option (TransferEvent D)
  reported o (tron_one w) db tx = tron_reported o.time o.grid o.grid.now_block w db tx
  reported o (ton_one w) db tx = ton_reported o.time o.center w db tx
  reported o (evm_one w) db tx = evm_reported o.time o.node (block_number o.node) w db tx

module _ {D : Type 0} ⦃dec : Decimals D⦄ where
  reported_it :
      {I : Type 0} (f : I → TransferEvent D) (found : Option I) {e : TransferEvent D}
      → reports f found ≡ some e
      → (it : I) × (found ≡ some it) × (f it ≡ e)
  reported_it f none h = cc
  reported_it f (some it) h = (it, refl, cc)

  abbrev StaysUp : Order D → Database D → Database D → Type 0
  StaysUp o w w' = IsUp o w → IsUp o w'

  StaysUp-preorder : (o : Order D) → IsPreorder (StaysUp o)
  StaysUp-preorder o = record { reflexive = λ w h. h; transitive = λ a b c h k u. k (h u) }

  only_cursors :
      (o : Order D) (w : Database D) (cs : List Cursor) → StaysUp o w (record w { cursors = cs })
  only_cursors o w cs u = record { up = u.up; rows = u.rows; there = u.there }

module _ {D : Type 0} ⦃dec : Decimals D⦄ (s : Settings D) (o : Order D) (tx : String)
    (well : IsWellFormed o) (waits : o.status ≡ confirming) (held : o.tx_hash ≡ some tx)
    (e : TransferEvent D) (r : Reaches o tx e) where
  evm_poll_confirms :
      (t : ℤ) (node : Node) (latest : Option ℤ) (w : Watcher D) (db : Database D)
      → evm_reported t node latest w db tx ≡ some e
      → IsUp o db
      → HoldsConfirmed o (poll_at (on_transfer s) t node latest w db).1
  unfolding poll_at refresh_confirmations
  evm_poll_confirms t node none w db h u = cc
  evm_poll_confirms t node (some latest) w db h u =
      let w' = (scan_new_logs t node latest w db).1 in
      let (it, found, same) =
        reported_it (event_of t latest w'.chain tx) (lookup tx w'.pending) h in
      refresh_confirms s o tx well waits held (event_of t latest w'.chain) _ w'.pending _ it _
        (scan_new_logs_by (StaysUp o) (StaysUp-preorder o) (only_cursors o) t node latest w db u)
        (mem-lookup tx it w'.pending found) (subst (Reaches o tx) (sym same) r)

  tron_poll_confirms :
      (t : ℤ) (grid : Tron.Grid) (latest : Option ℤ) (w : TronWatcher D) (db : Database D)
      → tron_reported t grid latest w db tx ≡ some e
      → IsUp o db
      → HoldsConfirmed o (Tron.poll_at (on_transfer s) t grid latest w db).1
  unfolding Tron.poll_at Tron.refresh_confirmations
  tron_poll_confirms t grid none w db h u = cc
  tron_poll_confirms t grid (some latest) w db h u =
      let w' = (Tron.scan_new_events t grid w db).1 in
      let (it, found, same) = reported_it (Tron.event_of t latest tx) (lookup tx w'.pending) h in
      refresh_confirms s o tx well waits held (Tron.event_of t latest) _ w'.pending _ it _
        (scan_new_events_by (StaysUp o) (StaysUp-preorder o) (only_cursors o) t grid w db u)
        (mem-lookup tx it w'.pending found) (subst (Reaches o tx) (sym same) r)

  ton_poll_confirms :
      (t : ℤ) (center : Ton.Center) (w : TonWatcher D) (db : Database D)
      → ton_reported t center w db tx ≡ some e
      → IsUp o db
      → HoldsConfirmed o (Ton.poll_once (on_transfer s) t center w db).1
  unfolding Ton.poll_once Ton.refresh_confirmations
  ton_poll_confirms t center w db h u =
      let w' = (Ton.scan_new_transfers t center w db).1 in
      let (it, found, same) = reported_it (Ton.event_of t (unix t) tx) (lookup tx w'.pending) h in
      refresh_confirms s o tx well waits held (Ton.event_of t (unix t)) _ w'.pending _ it _
        (scan_new_transfers_by (StaysUp o) (StaysUp-preorder o) (only_cursors o) t center w db u)
        (mem-lookup tx it w'.pending found) (subst (Reaches o tx) (sym same) r)

  -- s
  pub poll_confirms :
      (out : Outside) (w : AnyWatcher D) (db : Database D)
      → reported out w db tx ≡ some e
      → IsUp o db
      → HoldsConfirmed o (poll_any s out w db).1
  unfolding poll_any proxy_on_transfer poll_once Tron.poll_once reported
  poll_confirms out (tron_one w) db = tron_poll_confirms out.time out.grid _ w db
  poll_confirms out (ton_one w) db = ton_poll_confirms out.time out.center w db
  poll_confirms out (evm_one w) db = evm_poll_confirms out.time out.node _ w db
