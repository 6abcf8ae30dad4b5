-- ===== src/Chains/Tron/Kept.antt =====
-- What a scan of internal/chains/tron/watcher.go leaves of the watcher: what NewWatcher has set, and every
-- transfer that waits.
use frpay.Prelude.{
  equal_fold, ℤ, pos, ltb_ℤ, String, ◌≡◌, refl, Bool, true, false, Bool-cases, inl, inr, Option,
  none, some, List, [], ◌∷◌, Dict,
}
use frpay.Decimal.{Decimals}
use frpay.Store.{Database, Result, ok, err, DbError}
use frpay.Chains.Watcher.{tron}
use frpay.Chains.Pending.{KeepsKeys, insert-KeepsKeys, Seen-preorder}
use frpay.Chains.Paging.{fetch_pages_by}
use frpay.Chains.Cursors.{get_cursor}
use frpay.Chains.Tron.Watcher.{
  ContractEvent, TronWatcher, TronTransfer, Marks, no_marks, field_of, add_event, handle_event,
  see_events, mark,
}
use frpay.Chains.Tron.Scan.{
  Grid, get_page, save_marks, after_pages, scan_from, on_cursor, scan_new_events, min_timestamp,
}

module _ {D : Type 0} where
  pub record Keeps (w w' : TronWatcher D) : Type 0 where
    pub required_confirms : w'.required_confirms ≡ w.required_confirms
    pub pending : KeepsKeys w.pending w'.pending

module _ {D : Type 0} ⦃dec : Decimals D⦄ where
  add_event-KeepsKeys :
      (ev : ContractEvent) (raw : Option D) (p : Dict (TronTransfer D))
      → KeepsKeys p (add_event ev raw p)
  unfolding add_event
  add_event-KeepsKeys ev none p = λ j h. h
  add_event-KeepsKeys ev (some raw) p = insert-KeepsKeys ev.transaction_id _ p

  handle_event-KeepsKeys :
      (address_hex : String) (ev : ContractEvent) (p : Dict (TronTransfer D))
      → KeepsKeys p (handle_event address_hex ev p)
  unfolding handle_event
  handle_event-KeepsKeys address_hex ev p =
      elim (Bool-cases (equal_fold (field_of "to" ev) address_hex)) [
        | inl here ↦ rw here (add_event-KeepsKeys ev _ p)
        | inr elsewhere ↦ rw elsewhere (λ j h. h)
      ]

  pub see_events-KeepsKeys :
      (address_hex : String) (evs : List ContractEvent) (s : Dict (TronTransfer D) × Marks)
      → KeepsKeys s.0 (see_events address_hex evs s).0
  unfolding see_events
  see_events-KeepsKeys address_hex [] s = λ j h. h
  see_events-KeepsKeys address_hex (ev ∷ evs) (p, m) = λ j h.
      see_events-KeepsKeys address_hex evs (handle_event address_hex ev p, mark ev m) j
        (handle_event-KeepsKeys address_hex ev p j h)

  save_marks-Keeps :
      (w : TronWatcher D) (p : Dict (TronTransfer D)) (m : Marks) (db : Database D)
      → KeepsKeys w.pending p
      → Keeps w (save_marks w (p, m) db).1
  unfolding save_marks
  save_marks-Keeps w p m db h = elim (Bool-cases (ltb_ℤ (pos 0) m.timestamp)) [
    | inl seen ↦ rw seen (record { required_confirms = refl; pending = h })
    | inr nothing ↦ rw nothing (record { required_confirms = refl; pending = h })
  ]

  after_pages-Keeps :
      (w : TronWatcher D) (all : Bool) (p : Dict (TronTransfer D)) (m : Marks) (db : Database D)
      → KeepsKeys w.pending p
      → Keeps w (after_pages w (all, (p, m)) db).1
  unfolding after_pages
  after_pages-Keeps w true p m db h = save_marks-Keeps w p m db h
  after_pages-Keeps w false p m db h = record { required_confirms = refl; pending = h }

  on_cursor-Keeps :
      (t : ℤ) (grid : Grid) (w : TronWatcher D) (r : Result DbError (ℤ × Option ℤ))
      (db : Database D)
      → Keeps w (on_cursor t grid w r db).1
  unfolding on_cursor scan_from
  on_cursor-Keeps t grid w (err e) db = record { required_confirms = refl; pending = λ j h. h }
  on_cursor-Keeps t grid w (ok (height, at)) db = after_pages-Keeps w _ _ _ db (
      fetch_pages_by (get_page grid w (min_timestamp t at)) (see_events w.address_hex) _
        Seen-preorder (see_events-KeepsKeys w.address_hex) 20 "" (w.pending, no_marks))

  pub scan_new_events-Keeps :
      (t : ℤ) (grid : Grid) (w : TronWatcher D) (db : Database D)
      → Keeps w (scan_new_events t grid w db).1
  unfolding scan_new_events
  scan_new_events-Keeps t grid w db =
      on_cursor-Keeps t grid w (get_cursor tron db).0 (get_cursor tron db).1
