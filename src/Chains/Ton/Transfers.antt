-- ===== src/Chains/Ton/Transfers.antt =====
-- What scanNewTransfers of internal/chains/ton/watcher.go makes of the transfers on the pages that it
-- reads, and how old a transfer counts as after a restart.
use frpay.Chains.Paging.Saves.{Saves, none_seen, save-Saves, second_micro}
use frpay.Prelude.{
  times_ℤ, ltb_ℤ, Bool-cases, ◌⊎◌, inl, inr, refl, Bool, true, false, ℤ, pos, ◌≤ℤ◌, ◌<ℤ◌, ◌-ℤ◌,
  quot_ℤ, int64, ◌≡◌, arith, List, [], ◌∷◌, ◌++◌, ◌^◌, Dict,
}
use frpay.Decimal.{Decimals}
use frpay.Store.{Database}
use frpay.Chains.Watcher.{PendingTransfer, ton}
use frpay.Chains.Paging.{fetch_pages, fetch_pages-cases, fetch_failed, Reads, fetch_pages-Reads}
use frpay.Chains.Ton.Watcher.{
  mark_transfer, JettonTransfer, TonTransfer, TonWatcher, TonMarks, no_ton_marks, see_transfers,
  ton_transfer, unix,
}
use frpay.Chains.Ton.Scan.{
  from_unix, Center, get_page, save_marks, after_pages, scan_from, confirmations_at,
}

older :
    (now o p : ℤ)
    → pos 0 ≤ℤ o
    → o ≤ℤ p
    → p <ℤ pos (2 ^ 62)
    → pos 0 ≤ℤ now
    → now <ℤ pos (2 ^ 62)
    → quot_ℤ (int64 (now -ℤ p)) 5 ≤ℤ quot_ℤ (int64 (now -ℤ o)) 5
unfolding int64 ◌-ℤ◌
older (pos n) (pos o) (pos p) a b c d e = ground arith
older now o p a b c d e = absurd (omega arith)

-- The marks of a list of transfers.
unfoldable pub marked : List JettonTransfer → TonMarks → TonMarks
marked [] m = m
marked (tr ∷ trs) m = marked trs (mark_transfer tr m)

module _ {D : Type 0} ⦃dec : Decimals D⦄ where
  see_transfers-marked :
      (trs : List JettonTransfer) (p : Dict (TonTransfer D)) (m : TonMarks)
      → (see_transfers trs (p, m)).1 ≡ marked trs m
  unfolding see_transfers marked
  see_transfers-marked [] p m = refl
  see_transfers-marked (tr ∷ trs) p m = see_transfers-marked trs _ _

  see_transfers-append :
      (xs ys : List JettonTransfer) (s : Dict (TonTransfer D) × TonMarks)
      → see_transfers (xs ++ ys) s ≡ see_transfers ys (see_transfers xs s)
  unfolding see_transfers
  see_transfers-append [] ys s = refl
  see_transfers-append (x ∷ xs) ys (p, m) = see_transfers-append xs ys _

  see_transfers-nothing : (s : Dict (TonTransfer D) × TonMarks) → see_transfers [] s ≡ s
  unfolding see_transfers
  see_transfers-nothing s = refl

  -- If the pages from the start on, up to the last one or the limit of 20, hold these transfers, a
  -- scan of the TON watcher handles all of them in order and then saves the marks that it has
  -- reached.
  pub scan_transfers-Reads :
      (center : Center) (w : TonWatcher D) (from : ℤ) (db : Database D) {vs : List JettonTransfer}
      → Reads (get_page center w from) 20 0 vs
      → scan_from center w from db ≡ save_marks w (see_transfers vs (w.pending, no_ton_marks)) db
  unfolding scan_from after_pages
  scan_transfers-Reads center w from db {vs} r =
      rw
        (fetch_pages-Reads (get_page center w from) see_transfers see_transfers-nothing
          see_transfers-append (w.pending, no_ton_marks) r)
        refl

  failed_scan :
      (w : TonWatcher D) (r : Bool × (Dict (TonTransfer D) × TonMarks)) (db : Database D)
      → r.0 ≡ false
      → ((after_pages w r db).0 ≡ fetch_failed) × ((after_pages w r db).2 ≡ db)
  unfolding after_pages
  failed_scan w (true, (p, m)) db h = cc
  failed_scan w (false, (p, m)) db h = (refl, refl)

  save_marks-Saves :
      (w : TonWatcher D) (p : Dict (TonTransfer D)) (m : TonMarks) (db : Database D)
      → ((save_marks w (p, m) db).1.pending ≡ p)
        × Saves ton m.lt m.utime
            (from_unix m.utime)
            db
            (save_marks w (p, m) db).0
            (save_marks w (p, m) db).2
  unfolding save_marks
  save_marks-Saves w p m db = elim (Bool-cases (ltb_ℤ (pos 0) m.utime)) [
    | inl some_transfer ↦ rw some_transfer (
      refl,
      save-Saves ton m.lt m.utime (from_unix m.utime) (times_ℤ m.utime 1_000_000) db
          (second_micro m.utime) (ground arith),
    )
    | inr nothing ↦ rw nothing (refl, none_seen (ground arith))
  ]

  pub scan_transfers-cases :
      (center : Center) (w : TonWatcher D) (from : ℤ) (db : Database D)
      → (((scan_from center w from db).0 ≡ fetch_failed) × ((scan_from center w from db).2 ≡ db))
        ⊎ ((vs : List JettonTransfer) × Reads (get_page center w from) 20 0 vs
            × ((scan_from center w from db).1.pending
                ≡ (see_transfers vs (w.pending, no_ton_marks)).0)
            × Saves ton
                (marked vs no_ton_marks).lt
                (marked vs no_ton_marks).utime
                (from_unix (marked vs no_ton_marks).utime)
                db
                (scan_from center w from db).0
                (scan_from center w from db).2)
  scan_transfers-cases center w from db =
      elim (fetch_pages-cases (get_page center w from) see_transfers 20 0
        (w.pending, no_ton_marks)) [
          | inl failed ↦ inl (
              unfold scan_from in
              failed_scan w
                (fetch_pages (get_page center w from) see_transfers 20 0 (w.pending, no_ton_marks))
                db failed)
          | inr (vs, r) ↦
              let seen = see_transfers vs (w.pending, no_ton_marks) in
              let read = scan_transfers-Reads center w from db r in
              let marks = see_transfers-marked vs w.pending no_ton_marks in
              let (pending, saves) = save_marks-Saves w seen.0 seen.1 db in
              inr (vs, r, rw read pending, rw (read, ← marks) saves)
        ]

module _ {D : Type 0} where
  -- If the transfer was observed at or before the time of the restart, and the times are neither
  -- negative nor beyond 2^62 seconds, reseeding at the restart never counts more confirmations for
  -- a TON transfer than the watcher would have counted without it.
  pub reseeded_not_early :
      (t now : ℤ) (it : TonTransfer D) (seed : PendingTransfer D)
      → pos 0 ≤ℤ it.observed
      → it.observed ≤ℤ unix t
      → unix t <ℤ pos (2 ^ 62)
      → pos 0 ≤ℤ now
      → now <ℤ pos (2 ^ 62)
      → confirmations_at now (ton_transfer t seed) ≤ℤ confirmations_at now it
  unfolding confirmations_at
  reseeded_not_early t now it seed a b c d e =
      let le = older now it.observed (unix t) a b c d e in ground (arith, le)
