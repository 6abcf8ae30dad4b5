-- ===== src/Orders/Polls/CaughtTron.antt =====
-- A poll of the TRON watcher while nothing fails: the transfers on the pages that it reads.
use frpay.Prelude.{
  equal_fold, sym, ℤ, pos, ltb_ℤ, String, ◌≡◌, refl, subst, true, false, some, Option, List, [],
  ◌∷◌, Memᴰ, Dict, lookup, lookup-insert, is_some, ◌||◌, Option-cases, inl, inr, Bool-cases, eq_iff,
  equal_fold,
}
use frpay.Decimal.{Decimals}
use frpay.Store.{Database, Statement, ok, consistent}
use frpay.Chains.Watcher.{tron}
use frpay.Chains.Paging.{Reads}
use frpay.Chains.Cursors.{get_cursor}
use frpay.Chains.Tron.Watcher.{
  TronWatcher, TronTransfer, ContractEvent, Marks, mark, no_marks, field_of, add_event,
  handle_event, see_events,
}
use frpay.Chains.Tron.Scan.{
  Grid, min_timestamp, get_page, save_marks, on_cursor, event_of, scan_new_events, poll_at,
  poll_once, refresh_confirmations, is_deep,
}
use frpay.Chains.Tron.Events.{scan_from-Reads}
use frpay.Chains.Tron.Kept.{see_events-KeepsKeys}
use frpay.Chains.Tron.Only.{scan_new_events_by}
use frpay.Orders.Repository.{is_reviewed}
use frpay.Orders.Service.{Settings, on_transfer}
use frpay.Orders.Polls.Confirms.{mem-lookup}
use frpay.Orders.Polls.Recorded.{Fits, Calms, Calms-preorder, refresh_records}
use frpay.Orders.Accounting.{is_claimed, is_recorded}
use frpay.Orders.Accounting.Returned.{IsCalm}

module _ {D : Type 0} ⦃dec : Decimals D⦄ where
  -- The event is of a payment to the address, and its hash waits once it is handled.
  handle_event-adds :
      (hex : String) (ev : ContractEvent) (p : Dict (TronTransfer D)) {raw : D}
      → equal_fold (field_of "to" ev) hex ≡ true
      → dec.parse (field_of "value" ev) ≡ some raw
      → is_some (lookup ev.transaction_id (handle_event hex ev p)) ≡ true
  unfolding handle_event add_event
  handle_event-adds hex ev p here value =
      rw
        (
          here,
          value,
          lookup-insert ev.transaction_id ev.transaction_id _ p,
          (eq_iff ev.transaction_id ev.transaction_id).1 refl,
        )
        refl

  see_events-adds :
      (hex : String) (evs : List ContractEvent) (ev : ContractEvent) (p : Dict (TronTransfer D))
      (m : Marks) {raw : D}
      → Memᴰ ev evs
      → equal_fold (field_of "to" ev) hex ≡ true
      → dec.parse (field_of "value" ev) ≡ some raw
      → is_some (lookup ev.transaction_id (see_events hex evs (p, m)).0) ≡ true
  unfolding see_events
  see_events-adds hex [] ev p m k here value = elim k [ ]
  see_events-adds hex (v ∷ evs) ev p m (Memᴰ.head e) here value =
      see_events-KeepsKeys hex evs (handle_event hex v p, mark v m) ev.transaction_id
        (subst (λ x. is_some (lookup ev.transaction_id (handle_event hex x p)) ≡ true) e
          (handle_event-adds hex ev p here value))
  see_events-adds hex (v ∷ evs) ev p m (Memᴰ.tail k) here value =
      see_events-adds hex evs ev (handle_event hex v p) (mark v m) k here value

  save_marks-pending :
      (w : TronWatcher D) (p : Dict (TronTransfer D)) (m : Marks) (db : Database D)
      → (save_marks w (p, m) db).1.pending ≡ p
  unfolding save_marks
  save_marks-pending w p m db = elim (Bool-cases (ltb_ℤ (pos 0) m.timestamp)) [
    | inl moved ↦ rw moved refl
    | inr still ↦ rw still refl
  ]

  -- What waits after the scan of a poll is recorded at its end.
  poll_reports :
      (s : Settings D) (t : ℤ) (grid : Grid) (latest : ℤ) (w : TronWatcher D) (db : Database D)
      (tx : String) (it : TronTransfer D)
      → IsCalm db
      → grid.now_block ≡ some latest
      → lookup tx (scan_new_events t grid w db).1.pending ≡ some it
      → Fits (event_of t latest tx it)
      → is_recorded (event_of t latest tx it) (poll_once (on_transfer s) t grid w db).1 ≡ true
  unfolding poll_once poll_at refresh_confirmations
  poll_reports s t grid latest w db tx it c answered waits fits =
      let w' = (scan_new_events t grid w db).1 in
      let there = mem-lookup tx it w'.pending waits in
      let calm =
        scan_new_events_by Calms Calms-preorder (λ w cs c. record { up = c.up; rows = c.rows }) t
          grid w db c in
      subst
        (λ x.
          is_recorded (event_of t latest tx it) (poll_at (on_transfer s) t grid x w db).1 ≡ true)
        (sym answered)
        (refresh_records s (event_of t latest) (is_deep latest w'.required_confirms) w'.pending
          w'.pending tx it (scan_new_events t grid w db).2 calm there fits)

  pub scanned_pages :
      (t : ℤ) (grid : Grid) (w : TronWatcher D) (db : Database D) (height : ℤ) (at : Option ℤ)
      {vs : List ContractEvent}
      → (get_cursor tron db).0 ≡ ok (height, at)
      → Reads (get_page grid w (min_timestamp t at)) 20 "" vs
      → (scan_new_events t grid w db).1.pending
        ≡ (see_events w.address_hex vs (w.pending, no_marks)).0
  unfolding scan_new_events on_cursor
  scanned_pages t grid w db height at {vs} cursor reads =
      rw (cursor, scan_from-Reads grid w (min_timestamp t at) (get_cursor tron db).1 reads)
        (save_marks-pending w _ _ (get_cursor tron db).1)

  -- While no statement fails, the orders are consistent, and the API answers the latest block and
  -- these pages of events from the start of the scan on: a poll of the TRON watcher leaves the hash
  -- of every transfer to its address that an event on the pages decodes to on an order of the chain
  -- or in the review queue, if what the scan has seen last under the hash fits its columns.
  pub tron_poll_catches :
      (s : Settings D) (t : ℤ) (grid : Grid) (latest : ℤ) (w : TronWatcher D) (db : Database D)
      (height : ℤ) (at : Option ℤ) {vs : List ContractEvent} (ev : ContractEvent) {raw : D}
      → ((st : Statement) → db.fails st ≡ false)
      → consistent db.orders ≡ true
      → grid.now_block ≡ some latest
      → (get_cursor tron db).0 ≡ ok (height, at)
      → Reads (get_page grid w (min_timestamp t at)) 20 "" vs
      → Memᴰ ev vs
      → equal_fold (field_of "to" ev) w.address_hex ≡ true
      → dec.parse (field_of "value" ev) ≡ some raw
      → ((it : TronTransfer D)
          → lookup ev.transaction_id (scan_new_events t grid w db).1.pending ≡ some it
          → Fits (event_of t latest ev.transaction_id it))
      → (is_claimed tron ev.transaction_id (poll_once (on_transfer s) t grid w db).1.orders
          || is_reviewed tron ev.transaction_id
              (poll_once (on_transfer s) t grid w db).1.review_items)
        ≡ true
  unfolding event_of
  tron_poll_catches s t grid latest w db height at {vs} ev up rows answered cursor reads m here
        value fits =
      let pending = scanned_pages t grid w db height at cursor reads in
      let seen =
        rw (← pending) at (see_events-adds w.address_hex vs ev w.pending no_marks m here value) in
      elim (Option-cases (lookup ev.transaction_id (scan_new_events t grid w db).1.pending)) [
        | inl none_there ↦ cc
        | inr (it, waits) ↦
            poll_reports s t grid latest w db ev.transaction_id it (record { up = up; rows = rows })
              answered waits (fits it waits)
      ]
