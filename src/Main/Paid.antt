-- ===== src/Main/Paid.antt =====
-- A payment on its way through the running service, and through a restart.
use frpay.Chains.Evm.Kept.{scan_new_logs-Keeps}
use frpay.Chains.Ton.Kept.{scan_new_transfers-Keeps}
use frpay.Main.Confirmations.{configured}
use frpay.Chains.Tron.Kept.{scan_new_events-Keeps}
use frpay.Chains.Evm.Watcher.{Node, Watcher}
use frpay.Chains.Tron.Watcher.{TronWatcher}
use frpay.Chains.Tron.Scan as Tron
use frpay.Chains.Evm.Scan.{block_number}
use frpay.Orders.Reseeded.{at_watcher}
use frpay.Api.Limiter.{Counters}
use frpay.Main.Ready.{start_forgets_nothing}
use frpay.Main.Start.{start, Service, Host}
use frpay.Main.Restart.{is_waiting}
use frpay.Orders.Service.{transfer_of}
use frpay.Prelude.{
  Bool, true, refl, none, is_some, lookup, arith, arith, is_some, Option, String, ◌≡◌, true, false,
  some, List, ◌∷◌, Memᴰ, lookup,
}
use frpay.Decimal.{Decimals}
use frpay.Store.{Database, Order, Statement, confirming, consistent}
use frpay.Chains.Watcher.{PendingTransfer, TransferEvent}
use frpay.Orders.Lifecycle.{IsWellFormed, Progress-refl}
use frpay.Orders.Polls.Confirms.{HoldsConfirmed, Reaches, confirmed_stays}
use frpay.Api.Responses.{Formats}
use frpay.Main.{evm_one, ton_one, ok, tron_one, ℤ, AnyWatcher, settings_of}
use frpay.Main.Confirming.{evm_reported, tron_reported, reports, reported, poll_confirms}
use frpay.Main.Lasting.{run_events-Persists}
use frpay.Main.Running.{Outside, System, Event, ticks, poll_chain, after_poll, step, run_events}

module _ {D Handle : Type 0} ⦃dec : Decimals D⦄ (formats : Formats) where
  -- While nothing fails and the orders are consistent: when the watcher of a chain polls and
  -- reports a transfer of the chain with a count of confirmations that fits an int32, a well-formed
  -- order of the chain that waits with it, and requires no more confirmations than are reported, is
  -- confirmed, and stays so whatever happens afterwards.
  pub confirmed_for_good :
      (sys : System D Handle) (out : Outside) (w : AnyWatcher D) (o : Order D) (tx : String)
      (e : TransferEvent D) (es : List Event)
      → lookup o.chain sys.service.manager ≡ some w
      → reported out w sys.state.database tx ≡ some e
      → ((st : Statement) → sys.state.database.fails st ≡ false)
      → consistent sys.state.database.orders ≡ true
      → Memᴰ o sys.state.database.orders
      → IsWellFormed o
      → o.status ≡ confirming
      → o.tx_hash ≡ some tx
      → Reaches o tx e
      → HoldsConfirmed o (run_events formats sys (ticks o.chain out ∷ es)).state.database
  unfolding run_events step after_poll poll_chain
  confirmed_for_good sys out w o tx e es served says up rows m well waits held r =
      let now : HoldsConfirmed o (step formats sys (ticks o.chain out)).state.database =
        rw (served, poll_chain)
          (poll_confirms (settings_of sys.service.config) o tx well waits held e r out w
            sys.state.database says
            (record { up = up; rows = rows; there = (o, m, Progress-refl o) })) in
      confirmed_stays o _ _ (run_events-Persists formats (step formats sys (ticks o.chain out)) es)
        now

module _ {D : Type 0} ⦃dec : Decimals D⦄ where
  found_reported :
      {I : Type 0} (f : I → TransferEvent D) (found : Option I)
      → is_some found ≡ true
      → (e : TransferEvent D) × (reports f found ≡ some e)
  found_reported f none h = cc
  found_reported f (some it) h = (f it, refl)

  -- A transfer that waits is reported, once the client answers the latest block.
  tron_waiting_reported :
      (t : ℤ) (grid : Tron.Grid) (latest : Option ℤ) (w : TronWatcher D) (db : Database D)
      (tx : String)
      → is_some latest ≡ true
      → is_some (lookup tx w.pending) ≡ true
      → (e : TransferEvent D) × (tron_reported t grid latest w db tx ≡ some e)
  tron_waiting_reported t grid none w db tx known h = cc
  tron_waiting_reported t grid (some latest) w db tx known h =
      found_reported _ _ ((scan_new_events-Keeps t grid w db).pending tx h)

  evm_waiting_reported :
      (t : ℤ) (node : Node) (latest : Option ℤ) (w : Watcher D) (db : Database D) (tx : String)
      → is_some latest ≡ true
      → is_some (lookup tx w.pending) ≡ true
      → (e : TransferEvent D) × (evm_reported t node latest w db tx ≡ some e)
  evm_waiting_reported t node none w db tx known h = cc
  evm_waiting_reported t node (some latest) w db tx known h =
      found_reported _ _ ((scan_new_logs-Keeps t node latest w db).pending tx h)

  -- The client of the watcher answers the latest block; TON's watcher does not ask for one.
  abbrev pub answers_latest : Outside → AnyWatcher D → Bool
  answers_latest out (tron_one w) = is_some out.grid.now_block
  answers_latest out (ton_one w) = true
  answers_latest out (evm_one w) = is_some (block_number out.node)

  waiting_reported :
      (out : Outside) (w : AnyWatcher D) (db : Database D) (tx : String)
      → answers_latest out w ≡ true
      → is_waiting tx w ≡ true
      → (e : TransferEvent D) × (reported out w db tx ≡ some e)
  unfolding reported is_waiting
  waiting_reported out (tron_one w) db tx answers h =
      tron_waiting_reported out.time out.grid _ w db tx answers h
  waiting_reported out (ton_one w) db tx answers h =
      found_reported _ _ ((scan_new_transfers-Keeps out.time out.center w db).pending tx h)
  waiting_reported out (evm_one w) db tx answers h =
      evm_waiting_reported out.time out.node _ w db tx answers h

  waiting_there :
      (tx : String) (found : Option (AnyWatcher D))
      → at_watcher (is_waiting tx) found ≡ true
      → (v : AnyWatcher D) × (found ≡ some v) × (is_waiting tx v ≡ true)
  waiting_there tx none h = cc
  waiting_there tx (some v) h = (v, refl, h)

  transfer_held :
      (o : Order D) {p : PendingTransfer D} → transfer_of o ≡ some p → o.tx_hash ≡ some p.tx_hash
  unfolding transfer_of
  transfer_held o h = ground arith

module _ {D Migrator Handle : Type 0} ⦃dec : Decimals D⦄ (formats : Formats)
    (host : Host D Migrator Handle) (counters : Counters) (w : Database D) (sv : Service D Handle)
    (started : (start host w).0 ≡ ok sv) where
  -- The service as it starts to serve.
  abbrev pub fresh : System D Handle
  fresh = record {
    service = sv;
    state = record { database = (start host w).1; counters = counters };
  }

  -- If main gets to its goroutines, nothing fails and the orders are consistent, and the client of
  -- the chain answers the latest block: a well-formed order of an enabled chain that waits in the
  -- database with its transfer and a received amount for confirmations is confirmed by the first
  -- poll of its chain, and stays confirmed whatever happens afterwards, if what the watcher reports
  -- of the transfer in that poll is of its chain, and has a count of confirmations that fits an
  -- int32 and is no smaller than the order requires.
  pub confirmed_after_restart :
      (o : Order D) (p : PendingTransfer D) (out : Outside) (es : List Event)
      → Memᴰ o (start host w).1.orders
      → IsWellFormed o
      → o.status ≡ confirming
      → transfer_of o ≡ some p
      → is_some (configured sv.config.chains o.chain) ≡ true
      → ((st : Statement) → (start host w).1.fails st ≡ false)
      → consistent (start host w).1.orders ≡ true
      → ((v : AnyWatcher D) → lookup o.chain sv.manager ≡ some v → answers_latest out v ≡ true)
      → ((v : AnyWatcher D) (e : TransferEvent D)
          → lookup o.chain sv.manager ≡ some v
          → reported out v (start host w).1 p.tx_hash ≡ some e
          → Reaches o p.tx_hash e)
      → HoldsConfirmed o (run_events formats fresh (ticks o.chain out ∷ es)).state.database
  confirmed_after_restart o p out es m well waits e on up rows answers deep =
      let (v, served, has) =
        waiting_there p.tx_hash (lookup o.chain sv.manager)
          (start_forgets_nothing host w sv started o p m (rw waits refl) e on) in
      let (event, says) =
        waiting_reported out v (start host w).1 p.tx_hash (answers v served) has in
      confirmed_for_good formats fresh out v o p.tx_hash event es served says up rows m well waits
        (transfer_held o e) (deep v event served says)
