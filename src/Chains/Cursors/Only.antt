-- ===== src/Chains/Cursors/Only.antt =====
-- The two statements of internal/db/cursor_store.go write nothing but the cursors.
use frpay.Prelude.{ℤ, String, Option, none, some, List}
use frpay.Store.{Cursor, Database, IsPreorder, Statement, statement-cases}
use frpay.Chains.Cursors.{put_cursor, returned_cursor, get_cursor, set_cursor}

module _ {D : Type 0} (R : Database D → Database D → Type 0) (pre : IsPreorder R)
    (only : (w : Database D) (cs : List Cursor) → R w (record w { cursors = cs })) where
  returned_cursor_by :
      (chain : String) (c : Option Cursor) (w : Database D) → R w (returned_cursor chain c w).1
  unfolding returned_cursor
  returned_cursor_by chain none w = only w _
  returned_cursor_by chain (some c) w = pre.reflexive w

  pub get_cursor_by : (chain : String) (w : Database D) → R w (get_cursor chain w).1
  unfolding get_cursor
  get_cursor_by chain w =
      statement-cases Statement.get_cursor _ w (λ r. R w r.1) (pre.reflexive w)
        (returned_cursor_by chain _ w)

  put_cursor_by :
      (chain : String) (height : ℤ) (at : Option ℤ) (w : Database D)
      → R w (put_cursor chain height at w).1
  unfolding put_cursor
  put_cursor_by chain height none w = pre.reflexive w
  put_cursor_by chain height (some at) w = only w _

  pub set_cursor_by :
      (chain : String) (height t : ℤ) (w : Database D) → R w (set_cursor chain height t w).1
  unfolding set_cursor
  set_cursor_by chain height t w =
      statement-cases Statement.set_cursor _ w (λ r. R w r.1) (pre.reflexive w)
        (put_cursor_by chain height _ w)
