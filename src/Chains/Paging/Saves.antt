-- ===== src/Chains/Paging/Saves.antt =====
-- The end of a scan that has read its pages: how the marks come to the cursor store.
use frpay.Prelude.{ℤ, pos, negsuc, ◌≤ℤ◌, ◌<ℤ◌, times_ℤ, String, ◌≡◌, sym, subst, arith, inl, inr}
use frpay.Store.{Database, DbError}
use frpay.Chains.Cursors.{set_cursor, upsert_cursor}
use frpay.Chains.Cursors.Saved.{set_cursor-cases, timestamptz_exact}
use frpay.Chains.Paging.{PageScan, scanned, nothing_new, save_cursor_failed, save_result}

-- How a scan ends that has seen items up to `height`, the latest of them at `mark`, which is the time
-- `at`: nothing was seen, and nothing is written; the save failed, and nothing is written; or the
-- row of the chain holds the height and the time.
pub data Saves {D : Type 0} (chain : String) (height mark at : ℤ) (db : Database D)
    : PageScan → Database D → Type 0 where
  none_seen : mark ≤ℤ pos 0 → Saves chain height mark at db nothing_new db
  not_saved :
      (e : DbError) → pos 0 <ℤ mark → Saves chain height mark at db (save_cursor_failed e) db
  saved :
      pos 0 <ℤ mark
      → Saves chain height mark at db scanned
          (record db { cursors = upsert_cursor chain height at db.cursors })

pub milli_micro : (m : ℤ) → times_ℤ m 1_000_000 ≡ times_ℤ (times_ℤ m 1000) 1000
milli_micro (pos n) = ground arith
milli_micro (negsuc n) = ground arith

pub second_micro : (s : ℤ) → times_ℤ s 1_000_000_000 ≡ times_ℤ (times_ℤ s 1_000_000) 1000
second_micro (pos n) = ground arith
second_micro (negsuc n) = ground arith

module _ {D : Type 0} where
  -- The save of a time in whole microseconds.
  micro-Saves :
      (chain : String) (height mark us : ℤ) (db : Database D)
      → pos 0 <ℤ mark
      → Saves chain height mark
          (times_ℤ us 1000)
          db
          (save_result (set_cursor chain height (times_ℤ us 1000) db).0)
          (set_cursor chain height (times_ℤ us 1000) db).1
  unfolding save_result
  micro-Saves chain height mark us db seen =
      elim (set_cursor-cases chain height (times_ℤ us 1000) db) [
        | inl (e, failed) ↦ rw failed (not_saved e seen)
        | inr (at, value, wrote) ↦ rw (wrote, timestamptz_exact us value) (saved seen)
      ]

  pub save-Saves :
      (chain : String) (height mark at us : ℤ) (db : Database D)
      → at ≡ times_ℤ us 1000
      → pos 0 <ℤ mark
      → Saves chain height mark at db
          (save_result (set_cursor chain height at db).0)
          (set_cursor chain height at db).1
  save-Saves chain height mark at us db e seen =
      subst
        (λ t.
          Saves chain height mark t db (save_result (set_cursor chain height t db).0)
            (set_cursor chain height t db).1)
        (sym e) (micro-Saves chain height mark us db seen)
