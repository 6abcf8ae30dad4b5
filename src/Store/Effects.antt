-- ===== src/Store/Effects.antt =====
-- What code does to the database, as a relation between the states before and after, and the rules
-- that carry it from statements to whole methods.
use frpay.Prelude.{◌≡◌, refl, true, false, if◌then◌else◌}
use frpay.Store.Rows.{Database, Statement}
use frpay.Store.Sql.{
  Result, go_on, commit_or_rollback, wrapped, ok, err, Action, pure, raise, gets, ◌>>=◌, ignore,
  transaction, wrap, DbError, statement,
}

-- Whatever state `m` starts from, it ends in a related one.
pub record Follows {D E A : Type 0} (R : Database D → Database D → Type 0) (m : Action D E A)
    : Type 0 where
  pub at : (w : Database D) → R w (m w).1

pub record IsPreorder {A : Type 0} (R : A → A → Type 0) : Type 0 where
  pub reflexive : (a : A) → R a a
  pub transitive : (a b c : A) → R a b → R b c → R a c

-- A statement fails and changes nothing, or is carried out.
pub statement-cases :
    {D A : Type 0} (s : Statement) (m : Action D DbError A) (w : Database D)
    (P : Result DbError A × Database D → Type 0)
    → P (err DbError.unavailable, w)
    → P (m w)
    → P (statement s m w)
unfolding statement
statement-cases s m w P down up =
    elim (w.fails s) as (λ b. P (if b then (err DbError.unavailable, w) else m w)) [
      | true ↦ down
      | false ↦ up
    ]

-- The first part returns and the rest goes on, or it fails.
pub >>=-cases :
    {D E A B : Type 0} (m : Action D E A) (f : A → Action D E B) (w : Database D)
    (P : Result E B × Database D → Type 0)
    → ((a : A) → (m w).0 ≡ ok a → P (f a (m w).1))
    → ((e : E) → (m w).0 ≡ err e → P (err e, (m w).1))
    → P ((m >>= f) w)
unfolding ◌>>=◌
>>=-cases {D} {E} {A} m f w P good bad = go (m w).0 refl
  where
    go : (r : Result E A) → (m w).0 ≡ r → P (go_on f r (m w).1)
    go (ok a) e = good a e
    go (err x) e = bad x e

pub wrap-cases :
    {D E F A : Type 0} (f : E → F) (m : Action D E A) (w : Database D)
    (P : Result F A × Database D → Type 0)
    → ((a : A) → (m w).0 ≡ ok a → P (ok a, (m w).1))
    → ((e : E) → (m w).0 ≡ err e → P (err (f e), (m w).1))
    → P (wrap f m w)
unfolding wrap
wrap-cases {D} {E} {F} {A} f m w P good bad = go (m w).0 refl
  where
    go : (r : Result E A) → (m w).0 ≡ r → P (wrapped f r, (m w).1)
    go (ok a) e = good a e
    go (err x) e = bad x e

pub transaction-cases :
    {D E A : Type 0} (m : Action D E A) (w : Database D) (P : Result E A × Database D → Type 0)
    → ((a : A) → (m w).0 ≡ ok a → P (ok a, (m w).1))
    → ((e : E) → (m w).0 ≡ err e → P (err e, w))
    → P (transaction m w)
unfolding transaction
transaction-cases {D} {E} {A} m w P good bad = go (m w).0 refl
  where
    go : (r : Result E A) → (m w).0 ≡ r → P (commit_or_rollback w r (m w).1)
    go (ok a) e = good a e
    go (err x) e = bad x e

-- A SELECT changes nothing.
pub read-cases :
    {D F A : Type 0} (f : DbError → F) (s : Statement) (g : Database D → A) (w : Database D)
    (P : Result F A × Database D → Type 0)
    → P (err (f DbError.unavailable), w)
    → P (ok (g w), w)
    → P (wrap f (statement s (gets g)) w)
unfolding wrap gets
read-cases f s g w P down up = statement-cases s (gets g) w (λ r. P (wrapped f r.0, r.1)) down up

module _ {D : Type 0} {R : Database D → Database D → Type 0} (pre : IsPreorder R) where
  pub pure-Follows : {E A : Type 0} (a : A) → Follows R (pure {E = E} a)
  unfolding pure
  pure-Follows a = record { at = pre.reflexive }

  pub raise-Follows : {E A : Type 0} (e : E) → Follows R (raise {A = A} e)
  unfolding raise
  raise-Follows e = record { at = pre.reflexive }

  pub gets-Follows : {E A : Type 0} (f : Database D → A) → Follows R (gets {E = E} f)
  unfolding gets
  gets-Follows f = record { at = pre.reflexive }

  pub >>=-from :
      {E A B : Type 0} (m : Action D E A) (f : A → Action D E B) (w : Database D)
      → R w (m w).1
      → ((a : A) → Follows R (f a))
      → R w ((m >>= f) w).1
  >>=-from m f w h hf =
      >>=-cases m f w (λ r. R w r.1) (λ a e. pre.transitive w _ _ h ((hf a).at (m w).1)) (λ x e. h)

  pub >>=-Follows :
      {E A B : Type 0} {m : Action D E A} {f : A → Action D E B}
      → Follows R m
      → ((a : A) → Follows R (f a))
      → Follows R (m >>= f)
  >>=-Follows {m} {f} hm hf = record { at = λ w. >>=-from m f w (hm.at w) hf }

  pub transaction-Follows :
      {E A : Type 0} {m : Action D E A} → Follows R m → Follows R (transaction m)
  transaction-Follows {m} hm = record {
    at = λ w. transaction-cases m w (λ r. R w r.1) (λ a e. hm.at w) (λ x e. pre.reflexive w);
  }

  pub statement-from :
      {A : Type 0} (s : Statement) (m : Action D DbError A) (w : Database D)
      → R w (m w).1
      → R w (statement s m w).1
  statement-from s m w h = statement-cases s m w (λ r. R w r.1) (pre.reflexive w) h

  pub statement-Follows :
      {A : Type 0} (s : Statement) {m : Action D DbError A}
      → Follows R m
      → Follows R (statement s m)
  statement-Follows s {m} hm = record { at = λ w. statement-from s m w (hm.at w) }

  pub wrap-from :
      {E F A : Type 0} (f : E → F) (m : Action D E A) (w : Database D)
      → R w (m w).1
      → R w (wrap f m w).1
  wrap-from f m w h = wrap-cases f m w (λ r. R w r.1) (λ a e. h) (λ x e. h)

  pub wrap-Follows :
      {E F A : Type 0} (f : E → F) {m : Action D E A} → Follows R m → Follows R (wrap f m)
  wrap-Follows f {m} hm = record { at = λ w. wrap-from f m w (hm.at w) }

  pub ignore-Follows :
      {E F A : Type 0} {m : Action D E A} → Follows R m → Follows R (ignore {F = F} m)
  unfolding ignore
  ignore-Follows hm = record { at = hm.at }
