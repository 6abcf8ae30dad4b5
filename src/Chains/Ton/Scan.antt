-- ===== src/Chains/Ton/Scan.antt =====
-- internal/chains/ton/watcher.go: scanNewTransfers, refreshConfirmations and pollOnce.
use frpay.Prelude.{
  ℕ, ℤ, pos, ◌+ℤ◌, ◌-ℤ◌, ltb_ℤ, leb_ℤ, int64, times_ℤ, quot_ℤ, String, Bool, true, false, Option,
  none, some, List, ltb, length, Dict, if◌then◌else◌, ◌+◌,
}
use frpay.Decimal.{Decimals}
use frpay.Store.{Database, Result, ok, err, DbError, Action}
use frpay.Chains.Watcher.{TransferEvent, ton}
use frpay.Chains.Pending.{refresh_items}
use frpay.Chains.Paging.{
  Page, PageScan, nothing_new, fetch_failed, load_cursor_failed, save_result, fetch_pages,
}
use frpay.Chains.Cursors.{get_cursor, set_cursor}
use frpay.Chains.Ton.Watcher.{
  JettonTransfer, TonTransfer, TonWatcher, TonMarks, no_ton_marks, see_transfers, unix,
}

-- What the client answers during a poll, none for an error: the transfers to an owner of a jetton
-- from a second on, after an offset.
pub record Center : Type 0 where
  pub jetton_transfers : String → String → ℤ → ℕ → Option (List JettonTransfer)

-- time.Unix(s, 0)
abbrev pub from_unix : ℤ → ℤ
from_unix s = times_ℤ s 1_000_000_000

-- A cursor that was never moved has no time; the lookback is of ten minutes.
unfoldable pub start_utime : ℤ → Option ℤ → ℤ
start_utime t none = unix (t -ℤ pos 600_000_000_000)
start_utime t (some at) = int64 (unix at +ℤ pos 1)

-- The page at an offset, and whether another follows.
unfoldable pub page_of : ℕ → Option (List JettonTransfer) → Option (Page ℕ JettonTransfer)
page_of offset none = none
page_of offset (some trs) =
    some (record { items = trs; next = if ltb (length trs) 100 then none else some (offset + 100) })

module _ {D : Type 0} where
  -- Five seconds stand for a block.
  unfoldable pub confirmations_at : ℤ → TonTransfer D → ℤ
  confirmations_at now_unix it =
      let n = quot_ℤ (int64 (now_unix -ℤ it.observed)) 5 in if ltb_ℤ n (pos 0) then pos 0 else n

  unfoldable pub get_page : Center → TonWatcher D → ℤ → ℕ → Option (Page ℕ JettonTransfer)
  get_page center w from offset =
      page_of offset (center.jetton_transfers w.address w.usdt_jetton_master from offset)

module _ {D : Type 0} ⦃dec : Decimals D⦄ where
  -- The end of a scan whose requests were all answered, with what it has seen.
  unfoldable pub save_marks :
      TonWatcher D
      → Dict (TonTransfer D) × TonMarks
      → Database D
      → PageScan × TonWatcher D × Database D
  save_marks w (p, m) db =
      let w' = record w { pending = p } in
      let (r, db') = set_cursor ton m.lt (from_unix m.utime) db in
      if ltb_ℤ (pos 0) m.utime then (save_result r, w', db') else (nothing_new, w', db)

  unfoldable pub after_pages :
      TonWatcher D
      → Bool × (Dict (TonTransfer D) × TonMarks)
      → Database D
      → PageScan × TonWatcher D × Database D
  after_pages w (true, (p, m)) db = save_marks w (p, m) db
  after_pages w (false, (p, m)) db = (fetch_failed, record w { pending = p }, db)

  -- The loop over at most 20 pages.
  unfoldable pub scan_from :
      Center → TonWatcher D → ℤ → Database D → PageScan × TonWatcher D × Database D
  scan_from center w from db =
      after_pages w
        (fetch_pages (get_page center w from) see_transfers 20 0 (w.pending, no_ton_marks)) db

  unfoldable pub on_cursor :
      ℤ
      → Center
      → TonWatcher D
      → Result DbError (ℤ × Option ℤ)
      → Database D
      → PageScan × TonWatcher D × Database D
  on_cursor t center w (err e) db = (load_cursor_failed e, w, db)
  on_cursor t center w (ok (_, last_scanned_at)) db =
      scan_from center w (start_utime t last_scanned_at) db

  unfoldable pub scan_new_transfers :
      ℤ → Center → TonWatcher D → Database D → PageScan × TonWatcher D × Database D
  scan_new_transfers t center w db = let (r, db') = get_cursor ton db in on_cursor t center w r db'

  unfoldable pub event_of : ℤ → ℤ → String → TonTransfer D → TransferEvent D
  event_of t now_unix tx it = record {
    chain = ton;
    tx_hash = tx;
    amount = it.amount;
    block_height = it.lt;
    confirmations = confirmations_at now_unix it;
    observed_at = t;
  }

  unfoldable pub is_old : ℤ → ℤ → TonTransfer D → Bool
  is_old now_unix required it = leb_ℤ required (confirmations_at now_unix it)

module _ {D E : Type 0} ⦃dec : Decimals D⦄ (sink : TransferEvent D → Action D E Unit) where
  unfoldable pub refresh_confirmations :
      ℤ → ℤ → TonWatcher D → Database D → TonWatcher D × Database D
  refresh_confirmations t now_unix w db =
      let (p, db') =
        refresh_items sink (event_of t now_unix) (is_old now_unix w.required_confirms) w.pending
          w.pending db in
      (record w { pending = p }, db')

  -- pollOnce at the host's time `t`; its error is only logged.
  unfoldable pub poll_once : ℤ → Center → TonWatcher D → Database D → TonWatcher D × Database D
  poll_once t center w db =
      let (scan, w', db') = scan_new_transfers t center w db in
      refresh_confirmations t (unix t) w' db'
