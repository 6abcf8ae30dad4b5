-- ===== src/Chains/Evm/Only.antt =====
-- The scan of internal/chains/evm/watcher.go writes nothing but the cursors.
use frpay.Prelude.{ℤ, Option, List, Dict, Bool-cases, inl, inr, ltb_ℤ}
use frpay.Decimal.{Decimals}
use frpay.Store.{Cursor, Database, Result, ok, err, DbError, IsPreorder}
use frpay.Chains.Cursors.{get_cursor}
use frpay.Chains.Evm.Watcher.{Seen, Watcher, Node}
use frpay.Chains.Evm.Scan.{
  Scan, reached, nothing_new, get_logs_failed, out_of_fuel, load_cursor_failed, save_cursor_failed,
  save_cursor, scan_from, on_cursor, scan_new_logs,
}
use frpay.Chains.Cursors.Only.{get_cursor_by, set_cursor_by}

module _ {D : Type 0} ⦃dec : Decimals D⦄ (R : Database D → Database D → Type 0) (pre : IsPreorder R)
    (only : (w : Database D) (cs : List Cursor) → R w (record w { cursors = cs })) where
  save_cursor_by :
      (t : ℤ) (w : Watcher D) (scan : Scan) (p : Dict (Seen D)) (db : Database D)
      → R db (save_cursor t w (scan, p) db).2
  unfolding save_cursor
  save_cursor_by t w (reached n) p db = set_cursor_by R pre only w.chain n t db
  save_cursor_by t w nothing_new p db = pre.reflexive db
  save_cursor_by t w get_logs_failed p db = pre.reflexive db
  save_cursor_by t w out_of_fuel p db = pre.reflexive db
  save_cursor_by t w (load_cursor_failed e) p db = pre.reflexive db
  save_cursor_by t w (save_cursor_failed e) p db = pre.reflexive db

  scan_from_by :
      (t : ℤ) (node : Node) (latest from : ℤ) (w : Watcher D) (db : Database D)
      → R db (scan_from t node latest from w db).2
  unfolding scan_from
  scan_from_by t node latest from w db = elim (Bool-cases (ltb_ℤ latest from)) [
    | inl up_to_date ↦ rw up_to_date (pre.reflexive db)
    | inr new_blocks ↦ rw new_blocks (save_cursor_by t w _ _ db)
  ]

  on_cursor_by :
      (t : ℤ) (node : Node) (latest : ℤ) (w : Watcher D) (r : Result DbError (ℤ × Option ℤ))
      (db : Database D)
      → R db (on_cursor t node latest w r db).2
  unfolding on_cursor
  on_cursor_by t node latest w (err e) db = pre.reflexive db
  on_cursor_by t node latest w (ok (height, at)) db = scan_from_by t node latest _ w db

  -- A scan keeps what the statements on the cursors keep.
  pub scan_new_logs_by :
      (t : ℤ) (node : Node) (latest : ℤ) (w : Watcher D) (db : Database D)
      → R db (scan_new_logs t node latest w db).2
  unfolding scan_new_logs
  scan_new_logs_by t node latest w db =
      pre.transitive db (get_cursor w.chain db).1 _ (get_cursor_by R pre only w.chain db)
        (on_cursor_by t node latest w (get_cursor w.chain db).0 (get_cursor w.chain db).1)
