-- ===== src/Store/Values.antt =====
-- Code that returns a value from a state, and the rules that carry it from statements to whole methods.
use frpay.Prelude.{◌≡◌, refl, false}
use frpay.Store.Rows.{Database, Statement}
use frpay.Store.Sql.{ok, Action, pure, ◌>>=◌, ignore, transaction, wrap, DbError, statement}

pub record Returns {D E A : Type 0} (m : Action D E A) (w : Database D) : Type 0 where
  pub value : A
  pub done : (m w).0 ≡ ok value

module _ {D : Type 0} where
  pub pure-Returns : {E A : Type 0} (a : A) (w : Database D) → Returns (pure {E = E} a) w
  unfolding pure
  pure-Returns a w = record { value = a; done = refl }

  pub ignore-Returns :
      {E F A : Type 0} (m : Action D E A) (w : Database D) → Returns (ignore {F = F} m) w
  unfolding ignore
  ignore-Returns m w = record { value = tt; done = refl }

  pub >>=-Returns :
      {E A B : Type 0} (m : Action D E A) (f : A → Action D E B) (w : Database D)
      → (r : Returns m w) → Returns (f r.value) (m w).1
      → Returns (m >>= f) w
  unfolding ◌>>=◌
  >>=-Returns m f w r k = record { value = k.value; done = rw (r.done) (k.done) }

  pub sent-Returns :
      {F A : Type 0} (f : DbError → F) (s : Statement) (m : Action D DbError A) (w : Database D)
      → w.fails s ≡ false
      → Returns m w
      → Returns (wrap f (statement s m)) w
  unfolding wrap statement
  sent-Returns f s m w up r = record { value = r.value; done = rw (up, r.done) refl }

  pub transaction-Returns :
      {E A : Type 0} (m : Action D E A) (w : Database D) → Returns m w → Returns (transaction m) w
  unfolding transaction
  transaction-Returns m w r = record { value = r.value; done = rw (r.done) refl }
