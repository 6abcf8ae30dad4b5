-- ===== src/Store/Sql.antt =====
-- Statements against the tables: results, their composition, and the constraints and indexes of
-- migrations/000001_init_schema.up.sql that the database enforces on `orders`.
use frpay.Prelude.{
  times_ℤ, pos, ltb_ℤ, negsuc, leb_ℤ, floor_ℤ, Option, ℤ, Bool, true, false, not, ◌&&◌, ◌||◌, none,
  some, List, [], ◌∷◌, ◌==◌, str_eq, any, if◌then◌else◌,
}
use frpay.Decimal.{Decimals}
use frpay.Store.Rows.{Order, Database, Statement, is_pending, has_tx}

pub data Result (E A : Type 0) : Type 0 where
  ok : A → Result E A
  err : E → Result E A

-- Code that reads and writes the database, and may return an error. What it wrote stays written.
abbrev pub Action : Type 0 → Type 0 → Type 0 → Type 0
Action D E A = Database D → Result E A × Database D

module _ {D E : Type 0} where
  unfoldable pub pure : {A : Type 0} → A → Action D E A
  pure a w = (ok a, w)

  unfoldable pub raise : {A : Type 0} → E → Action D E A
  raise e w = (err e, w)

  unfoldable pub gets : {A : Type 0} → (Database D → A) → Action D E A
  gets f w = (ok (f w), w)

module _ {D E A B : Type 0} where
  abbrev pub go_on : (A → Action D E B) → Result E A → Database D → Result E B × Database D
  go_on f (ok a) w = f a w
  go_on f (err e) w = (err e, w)

  infixl 5 ◌>>=◌ ◌>>◌
  unfoldable pub ◌>>=◌ : Action D E A → (A → Action D E B) → Action D E B
  ◌>>=◌ m f w = let (r, w') = m w in go_on f r w'

  abbrev pub ◌>>◌ : Action D E A → Action D E B → Action D E B
  m >> k = m >>= λ _. k

-- A transaction that ends with an error is rolled back.
abbrev pub commit_or_rollback :
    {D E A : Type 0} → Database D → Result E A → Database D → Result E A × Database D
commit_or_rollback w (ok a) w' = (ok a, w')
commit_or_rollback w (err e) w' = (err e, w)

unfoldable pub transaction : {D E A : Type 0} → Action D E A → Action D E A
transaction m w = let (r, w') = m w in commit_or_rollback w r w'

-- `_ = m`, and an error that is only logged
unfoldable pub ignore : {D E F A : Type 0} → Action D E A → Action D F Unit
ignore m w = (ok tt, (m w).1)

-- fmt.Errorf("...: %w", err)
abbrev pub wrapped : {E F A : Type 0} → (E → F) → Result E A → Result F A
wrapped f (ok a) = ok a
wrapped f (err e) = err (f e)

unfoldable pub wrap : {D E F A : Type 0} → (E → F) → Action D E A → Action D F A
wrap f m w = let (r, w') = m w in (wrapped f r, w')

-- `out_of_range`: a number that its column cannot hold; `no_rows`: sql.ErrNoRows.
pub data DbError : Type 0 where
  unique_violation check_violation out_of_range no_rows unavailable : DbError

-- Send a statement.
unfoldable pub statement : {D A : Type 0} → Statement → Action D DbError A → Action D DbError A
statement s m w = if w.fails s then (err DbError.unavailable, w) else m w

-- The value of a TIMESTAMPTZ column for a time in nanoseconds since 1970, none if it is out of the
-- range of the type, from 4714 BC to the end of the year 294276. A column keeps whole microseconds.
unfoldable pub timestamptz : ℤ → Option ℤ
timestamptz t =
    let us = floor_ℤ t 1000 in
    if leb_ℤ (negsuc 210_866_803_199_999_999) us && ltb_ℤ us (pos 9_224_318_016_000_000_000)
    then some (times_ℤ us 1000)
    else none

module _ {D : Type 0} ⦃dec : Decimals D⦄ where
  -- `=` on NUMERIC: neither is the smaller
  abbrev pub same_amount : D → D → Bool
  same_amount a b = not (dec.lt a b) && not (dec.lt b a)

  -- idx_orders_chain_pending_amount
  unfoldable pub same_pending_amount : Order D → Order D → Bool
  same_pending_amount o p =
      is_pending o.status
      && (is_pending p.status
          && (str_eq o.chain p.chain && same_amount o.expected_amount p.expected_amount))

  -- idx_orders_chain_txhash
  unfoldable pub same_tx : Order D → Order D → Bool
  same_tx o p =
      str_eq o.chain p.chain && elim o.tx_hash [ none ↦ false | some tx ↦ has_tx tx p.tx_hash ]

  -- Two rows that the primary key or a unique index keeps apart.
  unfoldable pub conflicts : Order D → Order D → Bool
  unfolding same_pending_amount same_tx
  conflicts o p = o.id == p.id || (same_pending_amount o p || same_tx o p)

  unfoldable pub consistent : List (Order D) → Bool
  consistent [] = true
  consistent (o ∷ os) = not (any (conflicts o) os) && consistent os

  -- A statement that leaves `orders` with these rows, if the indexes admit them.
  unfoldable pub write_orders : {A : Type 0} → List (Order D) → A → Action D DbError A
  write_orders rows a w =
      if consistent rows
      then (ok a, record w { orders = rows })
      else (err DbError.unique_violation, w)
