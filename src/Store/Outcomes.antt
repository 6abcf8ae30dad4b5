-- ===== src/Store/Outcomes.antt =====
-- What is known once code has returned a value: every part of it returned one.
use frpay.Prelude.{◌≡◌, refl}
use frpay.Store.Rows.{Database, Statement}
use frpay.Store.Sql.{
  Result, go_on, commit_or_rollback, wrapped, ok, err, Action, pure, gets, ◌>>=◌, transaction, wrap,
  DbError, statement,
}
use frpay.Store.Effects.{statement-cases}

pub returned : {E A : Type 0} {a b : A} → ◌≡◌ {A = Result E A} (ok a) (ok b) → b ≡ a
returned e = cc

-- A statement that returned was carried out.
pub sent :
    {D F A : Type 0} (f : DbError → F) (s : Statement) (m : Action D DbError A) (w : Database D)
    {a : A}
    → (wrap f (statement s m) w).0 ≡ ok a
    → ((m w).0 ≡ ok a) × ((wrap f (statement s m) w).1 ≡ (m w).1)
unfolding wrap
sent {A} f s m w {a} =
    statement-cases s m w (λ r. wrapped f r.0 ≡ ok a → ((m w).0 ≡ ok a) × (r.1 ≡ (m w).1)) (λ e. cc)
      (λ e. (returned_ok (m w).0 e, refl))
  where
    returned_ok : (r : Result DbError A) → wrapped f r ≡ ok a → r ≡ ok a
    returned_ok (ok x) e = cc
    returned_ok (err x) e = cc

pub bound :
    {D E A B : Type 0} (m : Action D E A) (f : A → Action D E B) (w : Database D) {b : B}
    → ((m >>= f) w).0 ≡ ok b
    → (a : A) × ((m w).0 ≡ ok a) × ((m >>= f) w ≡ f a (m w).1)
unfolding ◌>>=◌
bound {D} {E} {A} {B} m f w {b} e = go (m w).0 refl e
  where
    go :
        (r : Result E A)
        → (m w).0 ≡ r
        → (go_on f r (m w).1).0 ≡ ok b
        → (a : A) × ((m w).0 ≡ ok a) × (go_on f (m w).0 (m w).1 ≡ f a (m w).1)
    go (ok a) h k = (a, h, rw h refl)
    go (err x) h k = cc

-- A transaction that returned is committed.
pub committed :
    {D E A : Type 0} (m : Action D E A) (w : Database D) {a : A}
    → (transaction m w).0 ≡ ok a
    → transaction m w ≡ m w
unfolding transaction
committed {D} {E} {A} m w {a} e = go (m w).0 refl e
  where
    go :
        (r : Result E A)
        → (m w).0 ≡ r
        → (commit_or_rollback w r (m w).1).0 ≡ ok a
        → commit_or_rollback w (m w).0 (m w).1 ≡ m w
    go (ok b) h k = rw (h, ← h) refl
    go (err x) h k = cc

-- A SELECT, or a statement without a table, leaves everything as it is.
pub read_only :
    {D F A : Type 0} (f : DbError → F) (s : Statement) (g : Database D → A) (w : Database D) {a : A}
    → (wrap f (statement s (gets g)) w).0 ≡ ok a
    → (g w ≡ a) × ((wrap f (statement s (gets g)) w).1 ≡ w)
unfolding gets
read_only f s g w e = let (done, same) = sent f s (gets g) w e in (cc, same)

pub ping :
    {D F : Type 0} (f : DbError → F) (s : Statement) (w : Database D) {a : Unit}
    → (wrap f (statement s (pure tt)) w).0 ≡ ok a
    → (wrap f (statement s (pure tt)) w).1 ≡ w
unfolding pure
ping f s w e = (sent f s (pure tt) w e).1
