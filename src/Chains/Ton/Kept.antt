-- ===== src/Chains/Ton/Kept.antt =====
-- What a scan of internal/chains/ton/watcher.go leaves of the watcher: what NewWatcher has set, and every
-- transfer that waits.
use frpay.Prelude.{
  ℤ, pos, ltb_ℤ, ◌≡◌, refl, Bool, true, false, Bool-cases, inl, inr, Option, none, some, List, [],
  ◌∷◌, Dict,
}
use frpay.Decimal.{Decimals}
use frpay.Store.{Database, Result, ok, err, DbError}
use frpay.Chains.Watcher.{ton}
use frpay.Chains.Pending.{KeepsKeys, insert-KeepsKeys, Seen-preorder}
use frpay.Chains.Paging.{fetch_pages_by}
use frpay.Chains.Cursors.{get_cursor}
use frpay.Chains.Ton.Watcher.{
  JettonTransfer, TonWatcher, TonTransfer, TonMarks, no_ton_marks, add_transfer, handle_transfer,
  see_transfers, mark_transfer,
}
use frpay.Chains.Ton.Scan.{
  Center, get_page, save_marks, after_pages, scan_from, on_cursor, scan_new_transfers, start_utime,
}

module _ {D : Type 0} where
  pub record Keeps (w w' : TonWatcher D) : Type 0 where
    pub required_confirms : w'.required_confirms ≡ w.required_confirms
    pub pending : KeepsKeys w.pending w'.pending

module _ {D : Type 0} ⦃dec : Decimals D⦄ where
  add_transfer-KeepsKeys :
      (tr : JettonTransfer) (raw : Option D) (lt : Option ℤ) (p : Dict (TonTransfer D))
      → KeepsKeys p (add_transfer tr raw lt p)
  unfolding add_transfer
  add_transfer-KeepsKeys tr (some raw) (some lt) p = insert-KeepsKeys tr.transaction_hash _ p
  add_transfer-KeepsKeys tr (some raw) none p = λ j h. h
  add_transfer-KeepsKeys tr none lt p = λ j h. h

  see_transfers-KeepsKeys :
      (trs : List JettonTransfer) (s : Dict (TonTransfer D) × TonMarks)
      → KeepsKeys s.0 (see_transfers trs s).0
  unfolding see_transfers handle_transfer
  see_transfers-KeepsKeys [] s = λ j h. h
  see_transfers-KeepsKeys (tr ∷ trs) (p, m) = λ j h.
      see_transfers-KeepsKeys trs (handle_transfer tr p, mark_transfer tr m) j
        (add_transfer-KeepsKeys tr _ _ p j h)

  save_marks-Keeps :
      (w : TonWatcher D) (p : Dict (TonTransfer D)) (m : TonMarks) (db : Database D)
      → KeepsKeys w.pending p
      → Keeps w (save_marks w (p, m) db).1
  unfolding save_marks
  save_marks-Keeps w p m db h = elim (Bool-cases (ltb_ℤ (pos 0) m.utime)) [
    | inl seen ↦ rw seen (record { required_confirms = refl; pending = h })
    | inr nothing ↦ rw nothing (record { required_confirms = refl; pending = h })
  ]

  after_pages-Keeps :
      (w : TonWatcher D) (all : Bool) (p : Dict (TonTransfer D)) (m : TonMarks) (db : Database D)
      → KeepsKeys w.pending p
      → Keeps w (after_pages w (all, (p, m)) db).1
  unfolding after_pages
  after_pages-Keeps w true p m db h = save_marks-Keeps w p m db h
  after_pages-Keeps w false p m db h = record { required_confirms = refl; pending = h }

  on_cursor-Keeps :
      (t : ℤ) (center : Center) (w : TonWatcher D) (r : Result DbError (ℤ × Option ℤ))
      (db : Database D)
      → Keeps w (on_cursor t center w r db).1
  unfolding on_cursor scan_from
  on_cursor-Keeps t center w (err e) db = record { required_confirms = refl; pending = λ j h. h }
  on_cursor-Keeps t center w (ok (height, at)) db = after_pages-Keeps w _ _ _ db (
      fetch_pages_by (get_page center w (start_utime t at)) see_transfers _ Seen-preorder
        see_transfers-KeepsKeys 20 0 (w.pending, no_ton_marks))

  pub scan_new_transfers-Keeps :
      (t : ℤ) (center : Center) (w : TonWatcher D) (db : Database D)
      → Keeps w (scan_new_transfers t center w db).1
  unfolding scan_new_transfers
  scan_new_transfers-Keeps t center w db =
      on_cursor-Keeps t center w (get_cursor ton db).0 (get_cursor ton db).1
