-- ===== src/Chains/Tron/Events.antt =====
-- What scanNewEvents of internal/chains/tron/watcher.go makes of the events on the pages that it reads.
use frpay.Prelude.{
  times_ℤ, ◌⊎◌, inl, inr, refl, Bool, true, false, negsuc, some, ℤ, pos, ◌≤ℤ◌, ◌<ℤ◌, ◌+ℤ◌, ltb_ℤ,
  int64, String, ◌≡◌, arith, List, [], ◌∷◌, ◌++◌, ◌^◌, All, Dict, Bool-cases,
}
use frpay.Decimal.{Decimals}
use frpay.Store.{DbError, Result, Database, Statement, ok}
use frpay.Chains.Watcher.{tron}
use frpay.Chains.Paging.{
  fetch_pages, fetch_pages-cases, fetch_failed, Reads, fetch_pages-Reads, scanned, save_result,
}
use frpay.Chains.Cursors.{get_cursor}
use frpay.Chains.Cursors.Saved.{get-set_exact}
use frpay.Chains.Paging.Saves.{Saves, none_seen, save-Saves, milli_micro}
use frpay.Chains.Tron.Watcher.{
  handle_event, ContractEvent, TronTransfer, TronWatcher, Marks, no_marks, mark, see_events,
}
use frpay.Chains.Tron.Scan.{
  Grid, from_milli, min_timestamp, get_page, save_marks, after_pages, scan_from,
}

resumes :
    (t m : ℤ) → pos 0 <ℤ m → m <ℤ pos (2 ^ 62) → min_timestamp t (some (from_milli m)) ≡ m +ℤ pos 1
unfolding min_timestamp int64 ◌+ℤ◌
resumes t (pos m) low high = ground arith
resumes t (negsuc m) low high = ground arith

-- The marks of a list of events.
unfoldable pub marked : List ContractEvent → Marks → Marks
marked [] m = m
marked (ev ∷ evs) m = marked evs (mark ev m)

unfoldable pub latest : List ContractEvent → Marks
latest evs = marked evs no_marks

save_result-ok : (r : Result DbError Unit) → save_result r ≡ scanned → r ≡ ok tt
unfolding save_result
save_result-ok r e = ground arith

mark-above :
    (ev : ContractEvent) (m : Marks)
    → (m.timestamp ≤ℤ (mark ev m).timestamp) × (ev.block_timestamp ≤ℤ (mark ev m).timestamp)
unfolding mark
mark-above ev m = ground arith

module _ {D : Type 0} ⦃dec : Decimals D⦄ where
  see_events-marked :
      (hex : String) (evs : List ContractEvent) (p : Dict (TronTransfer D)) (m : Marks)
      → (see_events hex evs (p, m)).1 ≡ marked evs m
  unfolding see_events marked
  see_events-marked hex [] p m = refl
  see_events-marked hex (ev ∷ evs) p m = see_events-marked hex evs _ _

  see_events-append :
      (hex : String) (xs ys : List ContractEvent) (s : Dict (TronTransfer D) × Marks)
      → see_events hex (xs ++ ys) s ≡ see_events hex ys (see_events hex xs s)
  unfolding see_events
  see_events-append hex [] ys s = refl
  see_events-append hex (x ∷ xs) ys (p, m) = see_events-append hex xs ys _

  see_events-nothing : (hex : String) (s : Dict (TronTransfer D) × Marks) → see_events hex [] s ≡ s
  unfolding see_events
  see_events-nothing hex s = refl

  -- No event is later than the marks, and these never fall.
  marks_above :
      (hex : String) (evs : List ContractEvent) (p : Dict (TronTransfer D)) (m : Marks)
      → (m.timestamp ≤ℤ (see_events hex evs (p, m)).1.timestamp)
        × All (λ ev. ev.block_timestamp ≤ℤ (see_events hex evs (p, m)).1.timestamp) evs
  unfolding see_events
  marks_above hex [] p m = (omega arith, tt)
  marks_above hex (ev ∷ evs) p m =
      let (above, rest) = marks_above hex evs (handle_event hex ev p) (mark ev m) in
      let (kept, covered) = mark-above ev m in
      (omega (arith, kept, above), (omega (arith, covered, above), rest))

  -- If the pages from the start on, up to the last one or the limit of 20, hold these events, a
  -- scan handles all of them in order and then saves the marks that it has reached.
  pub scan_from-Reads :
      (grid : Grid) (w : TronWatcher D) (from : ℤ) (db : Database D) {vs : List ContractEvent}
      → Reads (get_page grid w from) 20 "" vs
      → scan_from grid w from db
        ≡ save_marks w (see_events w.address_hex vs (w.pending, no_marks)) db
  unfolding scan_from
  scan_from-Reads grid w from db {vs} r =
      rw
        (fetch_pages-Reads (get_page grid w from) (see_events w.address_hex)
          (see_events-nothing w.address_hex) (see_events-append w.address_hex) (w.pending, no_marks)
          r)
        (unfold after_pages in refl)

  failed_scan :
      (w : TronWatcher D) (r : Bool × (Dict (TronTransfer D) × Marks)) (db : Database D)
      → r.0 ≡ false
      → ((after_pages w r db).0 ≡ fetch_failed) × ((after_pages w r db).2 ≡ db)
  unfolding after_pages
  failed_scan w (true, (p, m)) db h = cc
  failed_scan w (false, (p, m)) db h = (refl, refl)

  save_marks-Saves :
      (w : TronWatcher D) (p : Dict (TronTransfer D)) (m : Marks) (db : Database D)
      → ((save_marks w (p, m) db).1.pending ≡ p)
        × Saves tron m.block m.timestamp
            (from_milli m.timestamp)
            db
            (save_marks w (p, m) db).0
            (save_marks w (p, m) db).2
  unfolding save_marks
  save_marks-Saves w p m db = elim (Bool-cases (ltb_ℤ (pos 0) m.timestamp)) [
    | inl some_event ↦ rw some_event (
      refl,
      save-Saves tron m.block m.timestamp (from_milli m.timestamp) (times_ℤ m.timestamp 1000) db
          (milli_micro m.timestamp) (ground arith),
    )
    | inr nothing ↦ rw nothing (refl, none_seen (ground arith))
  ]

  pub scan_from-cases :
      (grid : Grid) (w : TronWatcher D) (from : ℤ) (db : Database D)
      → (((scan_from grid w from db).0 ≡ fetch_failed) × ((scan_from grid w from db).2 ≡ db))
        ⊎ ((vs : List ContractEvent) × Reads (get_page grid w from) 20 "" vs
            × ((scan_from grid w from db).1.pending
                ≡ (see_events w.address_hex vs (w.pending, no_marks)).0)
            × Saves tron
                (latest vs).block
                (latest vs).timestamp
                (from_milli (latest vs).timestamp)
                db
                (scan_from grid w from db).0
                (scan_from grid w from db).2)
  unfolding latest
  scan_from-cases grid w from db =
      elim (fetch_pages-cases (get_page grid w from) (see_events w.address_hex) 20 ""
        (w.pending, no_marks)) [
          | inl failed ↦ inl (
              unfold scan_from in
              failed_scan w
                (fetch_pages (get_page grid w from) (see_events w.address_hex) 20 ""
                  (w.pending, no_marks))
                db failed)
          | inr (vs, r) ↦
              let seen = see_events w.address_hex vs (w.pending, no_marks) in
              let read = scan_from-Reads grid w from db r in
              let marks = see_events-marked w.address_hex vs w.pending no_marks in
              let (pending, saves) = save_marks-Saves w seen.0 seen.1 db in
              inr (vs, r, rw read pending, rw (read, ← marks) saves)
        ]

  saved_marks :
      (w : TronWatcher D) (p : Dict (TronTransfer D)) (m : Marks) (db : Database D)
      → (save_marks w (p, m) db).0 ≡ scanned
      → db.fails Statement.get_cursor ≡ false
      → (pos 0 <ℤ m.timestamp)
        × ((get_cursor tron (save_marks w (p, m) db).2).0
            ≡ ok (m.block, some (from_milli m.timestamp)))
  unfolding save_marks
  saved_marks w p m db done up = elim (Bool-cases (ltb_ℤ (pos 0) m.timestamp)) [
    | inl some_event ↦ (
      ground arith,
      rw some_event (
          get-set_exact tron m.block (from_milli m.timestamp) (times_ℤ m.timestamp 1000) db
            (milli_micro m.timestamp) (save_result-ok _ (rw some_event at done)) up),
    )
    | inr nothing ↦ cc (rw nothing at done)
  ]

  pub next_scan_starts_after :
      (t : ℤ) (grid : Grid) (w : TronWatcher D) (from : ℤ) (db : Database D)
      {vs : List ContractEvent}
      → Reads (get_page grid w from) 20 "" vs
      → (scan_from grid w from db).0 ≡ scanned
      → db.fails Statement.get_cursor ≡ false
      → (latest vs).timestamp <ℤ pos (2 ^ 62)
      → ((get_cursor tron (scan_from grid w from db).2).0
          ≡ ok ((latest vs).block, some (from_milli (latest vs).timestamp)))
        × (min_timestamp t (some (from_milli (latest vs).timestamp))
            ≡ (latest vs).timestamp +ℤ pos 1)
        × All (λ ev. ev.block_timestamp ≤ℤ (latest vs).timestamp) vs
  next_scan_starts_after t grid w from db {vs} r done up small =
      let read = scan_from-Reads grid w from db r in
      let seen = see_events w.address_hex vs (w.pending, no_marks) in
      let same : seen.1 ≡ latest vs =
        unfold latest in see_events-marked w.address_hex vs w.pending no_marks in
      let (some_event, answer) = saved_marks w seen.0 seen.1 db (rw read at done) up in
      (
        rw (read, ← same) answer,
        resumes t (latest vs).timestamp (rw same at some_event) small,
        rw same at (marks_above w.address_hex vs w.pending no_marks).1,
      )
