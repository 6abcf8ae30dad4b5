-- ===== src/Chains/Cursors/Saved.antt =====
-- What GetCursor answers after SetCursor.
use frpay.Prelude.{
  pos, negsuc, arith, ◌/◌, Option-cases, ◌+ℤ◌, ◌⊎◌, ◌<ℤ◌, ◌≤ℤ◌, times_ℤ, ap, ℤ, String, ◌≡◌, refl,
  eq_iff, true, false, Option, none, some, List, [], ◌∷◌, ◌++◌, str_eq, any, select, update, first,
  Bool-cases, inl, inr,
}
use frpay.Store.{
  Cursor, Database, Statement, ok, err, DbError, out_of_range, timestamptz, statement,
}
use frpay.Chains.Cursors.{
  put_cursor, of_chain, moved, upsert_cursor, returned_cursor, get_cursor, set_cursor,
}

-- The height and the time of a row.
abbrev position : Option Cursor → Option (ℤ × Option ℤ)
position none = none
position (some c) = some (c.last_scanned_height, c.last_scanned_at)

update_lem :
    (chain : String) (height t : ℤ) (cs : List Cursor)
    → any (of_chain chain) cs ≡ true
    → position (first (select (of_chain chain) (update (of_chain chain) (moved height t) cs)))
      ≡ some (height, some t)
unfolding any select update moved
update_lem chain height t [] h = cc
update_lem chain height t (c ∷ cs) h = elim (Bool-cases (str_eq c.chain chain)) [
  | inl here ↦ rw (here, here) refl
  | inr other ↦ rw (other, other) (update_lem chain height t cs (rw other at h))
]

append_lem :
    (chain : String) (c : Cursor) (cs : List Cursor)
    → of_chain chain c ≡ true
    → any (of_chain chain) cs ≡ false
    → first (select (of_chain chain) (cs ++ c ∷ [])) ≡ some c
unfolding any select
append_lem chain c [] e h = rw e refl
append_lem chain c (d ∷ cs) e h = elim (Bool-cases (str_eq d.chain chain)) [
  | inl here ↦ cc (rw here at h)
  | inr other ↦ rw other (append_lem chain c cs e (rw other at h))
]

abbrev fresh : String → ℤ → ℤ → Cursor
fresh chain height t = record {
  chain = chain;
  last_scanned_height = height;
  last_scanned_at = some t;
}

upsert_lem :
    (chain : String) (height t : ℤ) (cs : List Cursor)
    → position (first (select (of_chain chain) (upsert_cursor chain height t cs)))
      ≡ some (height, some t)
unfolding upsert_cursor
upsert_lem chain height t cs = elim (Bool-cases (any (of_chain chain) cs)) [
  | inl old ↦ rw old (update_lem chain height t cs old)
  | inr new ↦
      rw (new, append_lem chain (fresh chain height t) cs ((eq_iff chain chain).1 refl) new) refl
]

-- A value of the column is the time rounded down to a whole microsecond.
pub timestamptz_lem :
    (t : ℤ) {at : ℤ}
    → timestamptz t ≡ some at
    → (us : ℤ) × (at ≡ times_ℤ us 1000) × (times_ℤ us 1000 ≤ℤ t) × (t <ℤ times_ℤ (us +ℤ pos 1) 1000)
unfolding timestamptz ◌+ℤ◌
timestamptz_lem (pos n) h = (pos (n / 1000), ground arith, omega arith, ground arith)
timestamptz_lem (negsuc n) h = (negsuc (n / 1000), ground arith, omega arith, ground arith)

-- A time in whole microseconds is its own value.
pub timestamptz_exact :
    (us : ℤ) {at : ℤ} → timestamptz (times_ℤ us 1000) ≡ some at → at ≡ times_ℤ us 1000
unfolding timestamptz
timestamptz_exact (pos n) h = ground arith
timestamptz_exact (negsuc n) h = ground arith

same_position : {p q : ℤ × Option ℤ} → some p ≡ some q → p ≡ q
same_position e = cc

module _ {D : Type 0} where
  answered :
      (chain : String) (c : Option Cursor) (w : Database D) {h : ℤ} {t : Option ℤ}
      → position c ≡ some (h, t)
      → (returned_cursor chain c w).0 ≡ ok (h, t)
  unfolding returned_cursor
  answered chain none w e = cc
  answered chain (some c) w e = ap (λ p. ok p) (same_position e)

  -- How SetCursor ends: the time has no value in its column or the statement fails, and nothing is
  -- written; or the row of the chain holds the height and the value.
  pub set_cursor-cases :
      (chain : String) (height t : ℤ) (w : Database D)
      → ((e : DbError) × (set_cursor chain height t w ≡ (err e, w)))
        ⊎ ((at : ℤ) × (timestamptz t ≡ some at)
            × (set_cursor chain height t w
                ≡ (ok tt, record w { cursors = upsert_cursor chain height at w.cursors })))
  unfolding set_cursor put_cursor statement
  set_cursor-cases chain height t w = elim (Bool-cases (w.fails Statement.set_cursor)) [
    | inl down ↦ inl (DbError.unavailable, rw down refl)
    | inr fine ↦ elim (Option-cases (timestamptz t)) [
      | inl no_value ↦ inl (out_of_range, rw (fine, no_value) refl)
      | inr (at, value) ↦ inr (at, value, rw (fine, value) refl)
    ]
  ]

  -- After SetCursor has returned, and while the statement of GetCursor does not fail, GetCursor
  -- answers for that chain the height that was saved and the time rounded down to a whole
  -- microsecond.
  pub get-set_cursor :
      (chain : String) (height t : ℤ) (w : Database D)
      → (set_cursor chain height t w).0 ≡ ok tt
      → w.fails Statement.get_cursor ≡ false
      → (us : ℤ) × ((get_cursor chain (set_cursor chain height t w).1).0
          ≡ ok (height, some (times_ℤ us 1000)))
        × (times_ℤ us 1000 ≤ℤ t)
        × (t <ℤ times_ℤ (us +ℤ pos 1) 1000)
  unfolding get_cursor statement
  get-set_cursor chain height t w done up = elim (set_cursor-cases chain height t w) [
    | inl (e, failed) ↦ cc
    | inr (at, value, wrote) ↦
        let (us, rounded, low, high) = timestamptz_lem t value in
        (
          us,
          rw (wrote, up, ← rounded) (answered chain _ _ (upsert_lem chain height at w.cursors)),
          low,
          high,
        )
  ]

  micro_answer :
      (chain : String) (height us : ℤ) (w : Database D)
      → (set_cursor chain height (times_ℤ us 1000) w).0 ≡ ok tt
      → w.fails Statement.get_cursor ≡ false
      → (get_cursor chain (set_cursor chain height (times_ℤ us 1000) w).1).0
        ≡ ok (height, some (times_ℤ us 1000))
  unfolding get_cursor statement
  micro_answer chain height us w done up =
      elim (set_cursor-cases chain height (times_ℤ us 1000) w) [
        | inl (e, failed) ↦ cc
        | inr (at, value, wrote) ↦
            rw (wrote, up, timestamptz_exact us value)
              (answered chain _ _ (upsert_lem chain height (times_ℤ us 1000) w.cursors))
      ]

  -- The same of a time in whole microseconds, which is answered as it was.
  pub get-set_exact :
      (chain : String) (height t us : ℤ) (w : Database D)
      → t ≡ times_ℤ us 1000
      → (set_cursor chain height t w).0 ≡ ok tt
      → w.fails Statement.get_cursor ≡ false
      → (get_cursor chain (set_cursor chain height t w).1).0 ≡ ok (height, some t)
  get-set_exact chain height t us w e done up =
      rw e (micro_answer chain height us w (rw e at done) up)
