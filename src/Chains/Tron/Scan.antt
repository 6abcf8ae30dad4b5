-- ===== src/Chains/Tron/Scan.antt =====
-- internal/chains/tron/watcher.go: scanNewEvents, refreshConfirmations, emit and pollOnce. A time is
-- in nanoseconds, so a millisecond is a million of them.
use frpay.Prelude.{
  ℤ, pos, ◌+ℤ◌, ◌-ℤ◌, ltb_ℤ, leb_ℤ, int64, times_ℤ, floor_ℤ, String, Bool, true, false, ◌||◌,
  Option, none, some, List, str_eq, ltb, length, Dict, if◌then◌else◌,
}
use frpay.Decimal.{Decimals}
use frpay.Store.{Database, Result, ok, err, DbError, Action}
use frpay.Chains.Watcher.{TransferEvent, tron}
use frpay.Chains.Pending.{refresh_items}
use frpay.Chains.Paging.{
  Page, PageScan, nothing_new, fetch_failed, load_cursor_failed, save_result, fetch_pages,
}
use frpay.Chains.Cursors.{get_cursor, set_cursor}
use frpay.Chains.Tron.Watcher.{
  ContractEvent, TronTransfer, TronWatcher, Marks, no_marks, see_events,
}

-- contractEventsResponse
pub record EventsResponse : Type 0 where
  pub events : List ContractEvent
  pub fingerprint : String

-- What the client answers during a poll, none for an error: the latest block, and the events of a
-- contract from a timestamp on, after a fingerprint.
pub record Grid : Type 0 where
  pub now_block : Option ℤ
  pub contract_events : String → ℤ → String → Option EventsResponse

-- UnixMilli, of a time and to one
abbrev pub unix_milli : ℤ → ℤ
unix_milli t = floor_ℤ t 1_000_000

abbrev pub from_milli : ℤ → ℤ
from_milli ms = times_ℤ ms 1_000_000

-- A cursor that was never moved has no time; the lookback is of ten minutes.
unfoldable pub min_timestamp : ℤ → Option ℤ → ℤ
min_timestamp t none = unix_milli (t -ℤ pos 600_000_000_000)
min_timestamp t (some at) = int64 (unix_milli at +ℤ pos 1)

-- The page, and whether another follows.
unfoldable pub page_of : Option EventsResponse → Option (Page String ContractEvent)
page_of none = none
page_of (some r) = some (record {
  items = r.events;
  next = if str_eq r.fingerprint "" || ltb (length r.events) 200 then none else some r.fingerprint;
})

module _ {D : Type 0} where
  unfoldable pub get_page : Grid → TronWatcher D → ℤ → String → Option (Page String ContractEvent)
  get_page grid w from fingerprint = page_of (grid.contract_events w.usdt_contract from fingerprint)

module _ {D : Type 0} ⦃dec : Decimals D⦄ where
  -- The end of a scan whose requests were all answered, with what it has seen.
  unfoldable pub save_marks :
      TronWatcher D
      → Dict (TronTransfer D) × Marks
      → Database D
      → PageScan × TronWatcher D × Database D
  save_marks w (p, m) db =
      let w' = record w { pending = p } in
      let (r, db') = set_cursor tron m.block (from_milli m.timestamp) db in
      if ltb_ℤ (pos 0) m.timestamp then (save_result r, w', db') else (nothing_new, w', db)

  unfoldable pub after_pages :
      TronWatcher D
      → Bool × (Dict (TronTransfer D) × Marks)
      → Database D
      → PageScan × TronWatcher D × Database D
  after_pages w (true, (p, m)) db = save_marks w (p, m) db
  after_pages w (false, (p, m)) db = (fetch_failed, record w { pending = p }, db)

  -- The loop over at most 20 pages.
  unfoldable pub scan_from :
      Grid → TronWatcher D → ℤ → Database D → PageScan × TronWatcher D × Database D
  scan_from grid w from db =
      after_pages w
        (fetch_pages (get_page grid w from) (see_events w.address_hex) 20 "" (w.pending, no_marks))
        db

  unfoldable pub on_cursor :
      ℤ
      → Grid
      → TronWatcher D
      → Result DbError (ℤ × Option ℤ)
      → Database D
      → PageScan × TronWatcher D × Database D
  on_cursor t grid w (err e) db = (load_cursor_failed e, w, db)
  on_cursor t grid w (ok (_, last_scanned_at)) db =
      scan_from grid w (min_timestamp t last_scanned_at) db

  unfoldable pub scan_new_events :
      ℤ → Grid → TronWatcher D → Database D → PageScan × TronWatcher D × Database D
  scan_new_events t grid w db = let (r, db') = get_cursor tron db in on_cursor t grid w r db'

  unfoldable pub event_of : ℤ → ℤ → String → TronTransfer D → TransferEvent D
  event_of t latest tx it = record {
    chain = tron;
    tx_hash = tx;
    amount = it.amount;
    block_height = it.block_height;
    confirmations =
        let n = int64 (int64 (latest -ℤ it.block_height) +ℤ pos 1) in
        if ltb_ℤ n (pos 0) then pos 0 else n;
    observed_at = t;
  }

  unfoldable pub is_deep : ℤ → ℤ → TronTransfer D → Bool
  is_deep latest required it = leb_ℤ required (int64 (int64 (latest -ℤ it.block_height) +ℤ pos 1))

module _ {D E : Type 0} ⦃dec : Decimals D⦄ (sink : TransferEvent D → Action D E Unit) where
  unfoldable pub refresh_confirmations :
      ℤ → ℤ → TronWatcher D → Database D → TronWatcher D × Database D
  refresh_confirmations t latest w db =
      let (p, db') =
        refresh_items sink (event_of t latest) (is_deep latest w.required_confirms) w.pending
          w.pending db in
      (record w { pending = p }, db')

  unfoldable pub poll_at :
      ℤ → Grid → Option ℤ → TronWatcher D → Database D → TronWatcher D × Database D
  poll_at t grid none w db = (w, db)
  poll_at t grid (some latest) w db =
      let (scan, w', db') = scan_new_events t grid w db in refresh_confirmations t latest w' db'

  -- pollOnce at the host's time `t`; its error is only logged.
  unfoldable pub poll_once : ℤ → Grid → TronWatcher D → Database D → TronWatcher D × Database D
  poll_once t grid w db = poll_at t grid grid.now_block w db
