-- ===== src/Chains/Ton/Only.antt =====
-- The scan of internal/chains/ton/watcher.go writes nothing but the cursors.
use frpay.Prelude.{Bool, ℤ, pos, Option, List, Dict, Bool-cases, inl, inr, ltb_ℤ, true, false}
use frpay.Decimal.{Decimals}
use frpay.Store.{Cursor, Database, Result, ok, err, DbError, IsPreorder}
use frpay.Chains.Cursors.{get_cursor}
use frpay.Chains.Watcher.{ton}
use frpay.Chains.Ton.Watcher.{TonWatcher, TonTransfer, TonMarks}
use frpay.Chains.Ton.Scan.{
  Center, save_marks, after_pages, scan_from, on_cursor, scan_new_transfers,
}
use frpay.Chains.Cursors.Only.{get_cursor_by, set_cursor_by}

module _ {D : Type 0} ⦃dec : Decimals D⦄ (R : Database D → Database D → Type 0) (pre : IsPreorder R)
    (only : (w : Database D) (cs : List Cursor) → R w (record w { cursors = cs })) where
  save_marks_by :
      (w : TonWatcher D) (p : Dict (TonTransfer D)) (m : TonMarks) (db : Database D)
      → R db (save_marks w (p, m) db).2
  unfolding save_marks
  save_marks_by w p m db = elim (Bool-cases (ltb_ℤ (pos 0) m.utime)) [
    | inl seen ↦ rw seen (set_cursor_by R pre only ton _ _ db)
    | inr nothing ↦ rw nothing (pre.reflexive db)
  ]

  after_pages_by :
      (w : TonWatcher D) (all : Bool) (p : Dict (TonTransfer D)) (m : TonMarks) (db : Database D)
      → R db (after_pages w (all, (p, m)) db).2
  unfolding after_pages
  after_pages_by w true p m db = save_marks_by w p m db
  after_pages_by w false p m db = pre.reflexive db

  on_cursor_by :
      (t : ℤ) (center : Center) (w : TonWatcher D) (r : Result DbError (ℤ × Option ℤ))
      (db : Database D)
      → R db (on_cursor t center w r db).2
  unfolding on_cursor scan_from
  on_cursor_by t center w (err e) db = pre.reflexive db
  on_cursor_by t center w (ok (height, at)) db = after_pages_by w _ _ _ db

  -- A scan keeps what the statements on the cursors keep.
  pub scan_new_transfers_by :
      (t : ℤ) (center : Center) (w : TonWatcher D) (db : Database D)
      → R db (scan_new_transfers t center w db).2
  unfolding scan_new_transfers
  scan_new_transfers_by t center w db =
      pre.transitive db (get_cursor ton db).1 _ (get_cursor_by R pre only ton db)
        (on_cursor_by t center w (get_cursor ton db).0 (get_cursor ton db).1)
