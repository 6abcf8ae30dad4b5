-- ===== src/Orders/Contracts/Expiry.antt =====
-- The rows that ExpirePastDue returns and writes.
use frpay.Prelude.{
  Bool, true, ap, suc, subst, ◌<ℤ◌, ◌⊎◌, All, Extends, Memᴰ, length, ℤ, ◌≡◌, refl, arith, false,
  List, [], ◌∷◌, any, update, select, map, Bool-cases, inl, inr,
}
use frpay.Decimal.{Decimals}
use frpay.Store.{pending, expired, Order, Database, Statement, ok, sent, write_orders, consistent}
use frpay.Orders.Repository.{past_due, lapsed, expire_past_due, expire_failed}

module _ {D : Type 0} ⦃dec : Decimals D⦄ where
  none_past_due :
      (now : ℤ) (os : List (Order D))
      → any (past_due now) (update (past_due now) (lapsed now) os) ≡ false
  unfolding any update past_due lapsed
  none_past_due now [] = refl
  none_past_due now (o ∷ os) = ground (arith, none_past_due now os)

  -- A write that returned has put the rows in place.
  pub wrote :
      {A : Type 0} (rows : List (Order D)) (a b : A) (w : Database D)
      → (write_orders rows a w).0 ≡ ok b
      → (a ≡ b) × ((write_orders rows a w).1 ≡ record w { orders = rows })
  unfolding write_orders
  wrote rows a b w h = elim (Bool-cases (consistent rows)) [
    | inl good ↦ (cc (rw good at h), rw good refl)
    | inr bad ↦ cc (rw bad at h)
  ]

  -- The order `p` is the order `o`, which waited in vain, as expired.
  pub record HasExpired (now : ℤ) (o p : Order D) : Type 0 where
    pub waited : o.status ≡ pending
    pub late : o.expires_at <ℤ now
    pub same : p ≡ record o { status = expired; updated_at = now }

  -- A row of the table stays as it is, if it does not wait or is not late yet, or expires and is
  -- returned.
  abbrev pub Lapses : ℤ → List (Order D) → Order D → Order D → Type 0
  Lapses now rs o p = ((p ≡ o) × (past_due now o ≡ false)) ⊎ (HasExpired now o p × Memᴰ p rs)

  lapsed-HasExpired :
      (now : ℤ) (o : Order D) → past_due now o ≡ true → HasExpired now o (lapsed now o)
  unfolding past_due lapsed
  lapsed-HasExpired now o h = record { waited = ground arith; late = ground arith; same = refl }

  rows-Lapses :
      (now : ℤ) (rs os : List (Order D))
      → ((p : Order D) → Memᴰ p (map (lapsed now) (select (past_due now) os)) → Memᴰ p rs)
      → Extends (Lapses now rs) os (update (past_due now) (lapsed now) os)
  unfolding update select
  rows-Lapses now rs [] h = tt
  rows-Lapses now rs (o ∷ os) h = elim (Bool-cases (past_due now o)) [
    | inl due ↦
        let here = rw due at h in
        rw due (
          inr (lapsed-HasExpired now o due, here (lapsed now o) (Memᴰ.head refl)),
          rows-Lapses now rs os (λ p m. here p (Memᴰ.tail m)),
        )
    | inr waits ↦ rw waits (inl (refl, refl), rows-Lapses now rs os (rw waits at h))
  ]

  length-update :
      (q : Order D → Bool) (f : Order D → Order D) (os : List (Order D))
      → length (update q f os) ≡ length os
  unfolding update
  length-update q f [] = refl
  length-update q f (o ∷ os) = ap (λ n. suc n) (length-update q f os)

  each_expired :
      (now : ℤ) (os us : List (Order D))
      → ((o : Order D) → Memᴰ o os → Memᴰ o us)
      → All
          (λ p. (o : Order D) × Memᴰ o us × HasExpired now o p)
          (map (lapsed now) (select (past_due now) os))
  unfolding select
  each_expired now [] us h = tt
  each_expired now (o ∷ os) us h = elim (Bool-cases (past_due now o)) [
    | inl due ↦ rw due (
      (o, h o (Memᴰ.head refl), lapsed-HasExpired now o due),
      each_expired now os us (λ x m. h x (Memᴰ.tail m)),
    )
    | inr waits ↦ rw waits (each_expired now os us (λ x m. h x (Memᴰ.tail m)))
  ]

  -- When ExpirePastDue returns, every order that it returns is a pending order of the table whose
  -- time is past, with the status expired; the table has as many rows as before and in the same
  -- order, of which each has expired and is returned, or is unchanged and was not past due; and no
  -- pending order is past due any more.
  pub expire_past_due_lem :
      (w : Database D) {rs : List (Order D)}
      → (expire_past_due w).0 ≡ ok rs
      → All (λ p. (o : Order D) × Memᴰ o w.orders × HasExpired w.now o p) rs
        × Extends (Lapses w.now rs) w.orders (expire_past_due w).1.orders
        × (length (expire_past_due w).1.orders ≡ length w.orders)
        × (any (past_due w.now) (expire_past_due w).1.orders ≡ false)
  unfolding expire_past_due
  expire_past_due_lem w {rs} e =
      let (done, same) = sent expire_failed Statement.expire_past_due _ w e in
      let (these, state) = wrote _ _ _ w done in
      rw (same, state)
        (
          subst (All (λ p. (o : Order D) × Memᴰ o w.orders × HasExpired w.now o p)) these
              (each_expired w.now w.orders w.orders (λ o m. m)),
          rows-Lapses w.now rs w.orders (λ p m. subst (Memᴰ p) these m),
          length-update _ _ w.orders,
          none_past_due w.now w.orders,
        )
