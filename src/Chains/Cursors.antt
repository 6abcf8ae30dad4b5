-- ===== src/Chains/Cursors.antt =====
-- internal/db/cursor_store.go: the block up to which a chain is scanned.
pub mod Saved
pub mod Only
use frpay.Prelude.{
  ℤ, pos, String, Bool, Option, none, some, List, [], ◌∷◌, ◌++◌, str_eq, any, select, update, first,
  if◌then◌else◌,
}
use frpay.Store.{Cursor, Statement, Action, DbError, ok, err, out_of_range, timestamptz, statement}

abbrev pub of_chain : String → Cursor → Bool
of_chain chain c = str_eq c.chain chain

unfoldable pub moved : ℤ → ℤ → Cursor → Cursor
moved height scanned_at c = record c {
  last_scanned_height = height;
  last_scanned_at = some scanned_at;
}

unfoldable pub upsert_cursor : String → ℤ → ℤ → List Cursor → List Cursor
upsert_cursor chain height scanned_at cs =
    if any (of_chain chain) cs
    then update (of_chain chain) (moved height scanned_at) cs
    else (cs
        ++ record { chain = chain; last_scanned_height = height; last_scanned_at = some scanned_at }
          ∷ [])

module _ {D : Type 0} where
  -- The row of the chain, or a new one at height 0.
  unfoldable pub returned_cursor : String → Option Cursor → Action D DbError (ℤ × Option ℤ)
  returned_cursor chain (some c) w = (ok (c.last_scanned_height, c.last_scanned_at), w)
  returned_cursor chain none w = (
    ok (pos 0, none),
    record w {
      cursors =
          w.cursors
          ++ record { chain = chain; last_scanned_height = pos 0; last_scanned_at = none } ∷ [];
    },
  )

  unfoldable pub get_cursor : String → Action D DbError (ℤ × Option ℤ)
  get_cursor chain =
      statement Statement.get_cursor
        λ w. returned_cursor chain (first (select (of_chain chain) w.cursors)) w

  -- The row that SetCursor writes, with the value of the time's column.
  unfoldable pub put_cursor : String → ℤ → Option ℤ → Action D DbError Unit
  put_cursor chain height none w = (err out_of_range, w)
  put_cursor chain height (some at) w =
      (ok tt, record w { cursors = upsert_cursor chain height at w.cursors })

  unfoldable pub set_cursor : String → ℤ → ℤ → Action D DbError Unit
  set_cursor chain height scanned_at =
      statement Statement.set_cursor (put_cursor chain height (timestamptz scanned_at))
