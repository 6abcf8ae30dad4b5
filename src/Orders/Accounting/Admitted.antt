-- ===== src/Orders/Accounting/Admitted.antt =====
-- The indexes admit the row of an order that takes a transfer which no order of its chain holds.
use frpay.Prelude.{
  ==_iff, ◌==◌, sym, ◌∙◌, Bool-cases, inl, inr, if◌then◌else◌, String, str_eq, eq_iff, ◌≡◌, ◌≢◌,
  refl, arith, Bool, true, false, ◌&&◌, Option, none, some, List, [], ◌∷◌, Memᴰ, any, any-none,
  update,
}
use frpay.Decimal.{Decimals}
use frpay.Store.{
  Order, is_pending, has_tx, conflicts, consistent, same_pending_amount, same_tx, consistent-cons,
}
use frpay.Orders.Accounting.{is_claimed}

not_held :
    (tx : String) (held taken : Option String)
    → taken ≡ some tx
    → has_tx tx held ≡ false
    → (elim held [ none ↦ false | some s ↦ has_tx s taken ]) ≡ false
not_held tx none taken e h = refl
not_held tx (some s) taken e h = rw e (ground (arith, eq_iff s tx, eq_iff tx s))

module _ {D : Type 0} ⦃dec : Decimals D⦄ where
  any_updated :
      (q p : Order D → Bool) (f : Order D → Order D) (os : List (Order D))
      → ((o : Order D) → Memᴰ o os → q (if p o then f o else o) ≡ false)
      → any q (update p f os) ≡ false
  unfolding any update
  any_updated q p f [] h = refl
  any_updated q p f (o ∷ os) h =
      rw (h o (Memᴰ.head refl)) (any_updated q p f os (λ x m. h x (Memᴰ.tail m)))

  -- An update that takes no two rows into a conflict keeps the table consistent.
  pub consistent_updated :
      (p : Order D → Bool) (f : Order D → Order D) (os : List (Order D))
      → ((a b : Order D)
          → Memᴰ a os
          → Memᴰ b os
          → conflicts a b ≡ false
          → conflicts (if p a then f a else a) (if p b then f b else b) ≡ false)
      → consistent os ≡ true
      → consistent (update p f os) ≡ true
  unfolding consistent update
  consistent_updated p f [] h c = refl
  consistent_updated p f (o ∷ os) h c =
      let (apart, rest) = consistent-cons o os c in
      rw
        (any_updated _ p f os
          (λ b m. h o b (Memᴰ.head refl) (Memᴰ.tail m) (any-none (conflicts o) apart m)))
        (consistent_updated p f os (λ a b m k. h a b (Memᴰ.tail m) (Memᴰ.tail k)) rest)

  same_id : (o p : Order D) → conflicts o p ≡ false → o.id ≢ p.id
  unfolding conflicts
  same_id o p h e = ground (arith, ==_iff o.id p.id)

  pub id_unique :
      (os : List (Order D)) {a b : Order D}
      → consistent os ≡ true
      → Memᴰ a os
      → Memᴰ b os
      → a.id ≡ b.id
      → a ≡ b
  id_unique [] c m k e = elim m [ ]
  id_unique (x ∷ xs) c (Memᴰ.head m) (Memᴰ.head k) e = m ∙ sym k
  id_unique (x ∷ xs) {a} {b} c (Memᴰ.head m) (Memᴰ.tail k) e =
      absurd (same_id a b (rw m (any-none _ (consistent-cons _ _ c).0 k)) e)
  id_unique (x ∷ xs) {a} {b} c (Memᴰ.tail m) (Memᴰ.head k) e =
      absurd (same_id b a (rw k (any-none _ (consistent-cons _ _ c).0 m)) (sym e))
  id_unique (x ∷ xs) c (Memᴰ.tail m) (Memᴰ.tail k) e = id_unique xs (consistent-cons _ _ c).1 m k e

  -- The row takes the transfer, and is pending no more.
  pub record Takes (tx : String) (f : Order D → Order D) : Type 0 where
    pub id : (o : Order D) → (f o).id ≡ o.id
    pub chain : (o : Order D) → (f o).chain ≡ o.chain
    pub status : (o : Order D) → is_pending (f o).status ≡ false
    pub tx_hash : (o : Order D) → (f o).tx_hash ≡ some tx

  taker_first :
      (tx : String) (f : Order D → Order D) (a b : Order D)
      → Takes tx f
      → conflicts a b ≡ false
      → (str_eq b.chain a.chain && has_tx tx b.tx_hash) ≡ false
      → conflicts (f a) b ≡ false
  unfolding conflicts same_pending_amount same_tx
  taker_first tx f a b k apart free =
      rw (k.id a, k.chain a, k.status a, k.tx_hash a)
        (ground (arith, eq_iff a.chain b.chain, eq_iff b.chain a.chain))

  taker_second :
      (tx : String) (f : Order D → Order D) (a b : Order D)
      → Takes tx f
      → conflicts a b ≡ false
      → (str_eq a.chain b.chain && has_tx tx a.tx_hash) ≡ false
      → conflicts a (f b) ≡ false
  unfolding conflicts same_pending_amount same_tx
  taker_second tx f a b k apart free =
      rw (k.id b, k.chain b, k.status b)
        (ground (arith, not_held tx a.tx_hash (f b).tx_hash (k.tx_hash b)))

  -- The row of `t` takes a transfer that no order of its chain holds, and the indexes admit it.
  pub taker_consistent :
      (tx : String) (f : Order D → Order D) (t : Order D) (os : List (Order D))
      → Takes tx f
      → consistent os ≡ true
      → Memᴰ t os
      → is_claimed t.chain tx os ≡ false
      → consistent (update (λ o. o.id == t.id) f os) ≡ true
  taker_consistent tx f t os k c m free = consistent_updated (λ o. o.id == t.id) f os apart_still c
    where
      free_of :
          (a b : Order D)
          → Memᴰ a os
          → Memᴰ b os
          → a.id ≡ t.id
          → (str_eq b.chain a.chain && has_tx tx b.tx_hash) ≡ false
      free_of a b i j e = rw (id_unique os c i m e) (any-none _ free j)

      apart_still :
          (a b : Order D)
          → Memᴰ a os
          → Memᴰ b os
          → conflicts a b ≡ false
          → conflicts (if a.id == t.id then f a else a) (if b.id == t.id then f b else b) ≡ false
      apart_still a b i j apart = elim (Bool-cases (a.id == t.id)) [
        | inl first ↦ elim (Bool-cases (b.id == t.id)) [
          | inl second ↦
              absurd
                (same_id a b apart ((==_iff a.id t.id).0 first ∙ sym ((==_iff b.id t.id).0 second)))
          | inr other ↦
              rw (first, other)
                (taker_first tx f a b k apart (free_of a b i j ((==_iff a.id t.id).0 first)))
        ]
        | inr other ↦ elim (Bool-cases (b.id == t.id)) [
          | inl second ↦
              rw (other, second)
                (taker_second tx f a b k apart (free_of b a j i ((==_iff b.id t.id).0 second)))
          | inr neither ↦ rw (other, neither) apart
        ]
      ]
