-- ===== src/Store/Consistent.antt =====
-- What the indexes of `orders` give: rows are told apart by their key and by their transfer.
use frpay.Prelude.{
  ◌≡◌, ◌≢◌, sym, ◌∙◌, arith, Bool, true, false, List, [], ◌∷◌, Memᴰ, eq_iff, some, String, any,
  any-none, mem-update, update, if◌then◌else◌,
}
use frpay.Decimal.{Decimals}
use frpay.Store.Rows.{Order}
use frpay.Store.Sql.{conflicts, consistent, same_tx}

module _ {D : Type 0} ⦃dec : Decimals D⦄ where
  -- The two halves of a consistent table.
  pub consistent-cons :
      (o : Order D) (os : List (Order D))
      → consistent (o ∷ os) ≡ true
      → (any (conflicts o) os ≡ false) × (consistent os ≡ true)
  unfolding consistent
  consistent-cons o os h = ground arith

  conflicts-id : (o p : Order D) → conflicts o p ≡ false → o.id ≢ p.id
  unfolding conflicts
  conflicts-id o p h e = ground arith

  kept_id :
      (p : Order D → Bool) (f : Order D → Order D)
      → ((o : Order D) → (f o).id ≡ o.id)
      → (o : Order D) → (if p o then f o else o).id ≡ o.id
  kept_id p f keeps o = ground (arith, keeps o)

  head_id :
      (p : Order D → Bool) (f : Order D → Order D)
      → ((o : Order D) → (f o).id ≡ o.id)
      → (x t : Order D) (xs : List (Order D)) → consistent (update p f (x ∷ xs)) ≡ true
      → Memᴰ t xs
      → x.id ≢ t.id
  unfolding update
  head_id p f keeps x t xs c k e =
      conflicts-id _ _ (any-none _ (consistent-cons _ _ c).0 (mem-update p f k))
        (kept_id p f keeps x ∙ e ∙ sym (kept_id p f keeps t))

  -- In a table whose update keeps the keys and is admitted, a key names one row.
  pub update_id_unique :
      (p : Order D → Bool) (f : Order D → Order D)
      → ((o : Order D) → (f o).id ≡ o.id)
      → (rows : List (Order D)) {o t : Order D} → consistent (update p f rows) ≡ true
      → Memᴰ o rows
      → Memᴰ t rows
      → o.id ≡ t.id
      → o ≡ t
  unfolding update
  update_id_unique p f keeps [] c m k e = elim m [ ]
  update_id_unique p f keeps (x ∷ xs) c (Memᴰ.head a) (Memᴰ.head b) e = a ∙ sym b
  update_id_unique p f keeps (x ∷ xs) {o} {t} c (Memᴰ.head a) (Memᴰ.tail k) e =
      absurd (head_id p f keeps x t xs c k (rw (← a) e))
  update_id_unique p f keeps (x ∷ xs) {o} {t} c (Memᴰ.tail m) (Memᴰ.head b) e =
      absurd (head_id p f keeps x o xs c m (rw (← b) (sym e)))
  update_id_unique p f keeps (x ∷ xs) c (Memᴰ.tail m) (Memᴰ.tail k) e =
      update_id_unique p f keeps xs (consistent-cons _ _ c).1 m k e

  conflicts-tx :
      (o p : Order D) {tx : String}
      → conflicts o p ≡ false
      → o.chain ≡ p.chain
      → o.tx_hash ≡ some tx
      → p.tx_hash ≡ some tx
      → ⊥
  unfolding conflicts same_tx
  conflicts-tx o p {tx} h c a b = ground (arith, eq_iff o.chain p.chain, eq_iff tx tx)

  -- A transfer is attributed to one order of its chain at most.
  pub tx_unique :
      (rows : List (Order D)) {o p : Order D} {tx : String}
      → consistent rows ≡ true
      → Memᴰ o rows
      → Memᴰ p rows
      → o.chain ≡ p.chain
      → o.tx_hash ≡ some tx
      → p.tx_hash ≡ some tx
      → o ≡ p
  tx_unique [] c m k e a b = elim m [ ]
  tx_unique (x ∷ xs) c (Memᴰ.head m) (Memᴰ.head k) e a b = m ∙ sym k
  tx_unique (x ∷ xs) {o} {p} c (Memᴰ.head m) (Memᴰ.tail k) e a b =
      absurd (conflicts-tx o p (rw m (any-none _ (consistent-cons _ _ c).0 k)) e a b)
  tx_unique (x ∷ xs) {o} {p} c (Memᴰ.tail m) (Memᴰ.head k) e a b =
      absurd (conflicts-tx p o (rw k (any-none _ (consistent-cons _ _ c).0 m)) (sym e) b a)
  tx_unique (x ∷ xs) c (Memᴰ.tail m) (Memᴰ.tail k) e a b =
      tx_unique xs (consistent-cons _ _ c).1 m k e a b
