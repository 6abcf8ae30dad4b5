-- ===== src/Orders/Contracts/Creation.antt =====
-- The order that CreateWithUniqueAmount returns, and the row that it leaves.
use frpay.Prelude.{
  pos_part, ltb_ℤ, zero, suc, arith, ℤ, String, ℕ, ◌⊎◌, ◌≡◌, refl, Option, none, some, [], ◌∷◌,
  ◌++◌, Bool-cases, inl, inr,
}
use frpay.Decimal.{Decimals}
use frpay.Store.{
  pure, bound, DbError, consistent, Result, write_orders, Action, ◌>>=◌, Order, Database, Statement,
  ok, statement-cases, raise,
}
use frpay.Orders.Repository.{
  create_with_unique_amount, or_else, try_insert, new_order, Error, draw_offset, attempt, attempts,
  tried, Draw, stored, checked, insert_row, insert_order,
}
use frpay.Orders.Contracts.Expiry.{wrote}

module _ {D : Type 0} ⦃dec : Decimals D⦄ where
  -- The row is the order as its columns store it, and stands behind the rows that there were.
  abbrev pub IsInserted : Order D → Database D → Database D → Type 0
  IsInserted o w w' = (row : Order D) × (stored o ≡ some row) × (w'.orders ≡ w.orders ++ row ∷ [])

  insert_row-IsInserted :
      (o : Order D) (found : Option (Order D)) (w : Database D)
      → stored o ≡ found
      → (insert_row found w).0 ≡ ok tt
      → IsInserted o w (insert_row found w).1
  unfolding insert_row raise
  insert_row-IsInserted o none w h e = cc
  insert_row-IsInserted o (some row) w h e = elim (Bool-cases (checked row)) [
    | inl good ↦ let (same, state) = wrote _ _ _ w (rw good at e) in (row, h, rw (good, state) refl)
    | inr bad ↦ cc (rw bad at e)
  ]

  inserted :
      (o : Order D) (w : Database D)
      → (insert_order o w).0 ≡ ok tt
      → IsInserted o w (insert_order o w).1
  unfolding insert_order
  inserted o w =
      statement-cases Statement.insert_order _ w (λ r. r.0 ≡ ok tt → IsInserted o w r.1) (λ e. cc)
        (insert_row-IsInserted o (stored o) w refl)

  kept_row :
      (found : Option (Order D)) (w : Database D)
      → ((insert_row found w).1 ≡ w) ⊎ ((insert_row found w).0 ≡ ok tt)
  unfolding insert_row raise write_orders
  kept_row none w = inl refl
  kept_row (some row) w = elim (Bool-cases (checked row)) [
    | inl good ↦ elim (Bool-cases (consistent (w.orders ++ row ∷ []))) [
      | inl admitted ↦ inr (rw (good, admitted) refl)
      | inr clash ↦ inl (rw (good, clash) refl)
    ]
    | inr bad ↦ inl (rw bad refl)
  ]

  -- An insert that fails leaves everything as it was.
  kept :
      (o : Order D) (w : Database D) → ((insert_order o w).1 ≡ w) ⊎ ((insert_order o w).0 ≡ ok tt)
  unfolding insert_order
  kept o w =
      statement-cases Statement.insert_order _ w (λ r. (r.1 ≡ w) ⊎ (r.0 ≡ ok tt)) (inl refl)
        (kept_row (stored o) w)

  tried-some :
      (order : Order D) (r : Result DbError Unit) {o : Order D}
      → tried order r ≡ ok (some o)
      → (o ≡ order) × (r ≡ ok tt)
  unfolding tried
  tried-some order r h = ground arith

  tried-none : (order : Order D) (r : Result DbError Unit) → tried order r ≡ ok none → r ≡ ok tt → ⊥
  unfolding tried
  tried-none order r h e = ground arith

  -- What one attempt leaves: the order that it returns, or nothing.
  module _ (d : Draw) (user_id chain : String) (base : D) (required expiry : ℤ) where
    attempt-some :
        (offset : Option ℤ) (w : Database D) {o : Order D}
        → (attempt d user_id chain base required expiry offset w).0 ≡ ok (some o)
        → (k : ℤ) × (offset ≡ some k)
          × (o ≡ new_order d user_id chain base required expiry k)
          × IsInserted o w (attempt d user_id chain base required expiry offset w).1
    unfolding attempt try_insert raise
    attempt-some none w h = cc
    attempt-some (some k) w {o} h =
        let order = new_order d user_id chain base required expiry k in
        let (same, did) = tried-some order (insert_order order w).0 h in
        (k, refl, same, rw same (inserted order w did))

    attempt-none :
        (offset : Option ℤ) (w : Database D)
        → (attempt d user_id chain base required expiry offset w).0 ≡ ok none
        → (attempt d user_id chain base required expiry offset w).1 ≡ w
    unfolding attempt try_insert raise
    attempt-none none w h = refl
    attempt-none (some k) w h =
        let order = new_order d user_id chain base required expiry k in
        elim (kept order w) [
          | inl same ↦ same
          | inr did ↦ absurd (tried-none order (insert_order order w).0 h did)
        ]

  module _ (draws : ℕ → Draw) (user_id chain : String) (base : D)
      (required expiry offset_min offset_max : ℤ) where
    -- The order of one of the draws, stored behind the rows that there were.
    abbrev pub IsCreated : Order D → Database D → Database D → Type 0
    IsCreated o w w' =
        (i : ℕ) × (k : ℤ) × (draw_offset offset_min offset_max (draws i).intn ≡ some k)
        × (o ≡ new_order (draws i) user_id chain base required expiry k)
        × IsInserted o w w'

    abbrev body : ℕ → Action D Error (Option (Order D))
    body number =
        attempt (draws number) user_id chain base required expiry
          (draw_offset offset_min offset_max (draws number).intn)

    last_one :
        (again : Action D Error (Order D)) (found : Order D) (w : Database D) {o : Order D}
        → (or_else again (some found) w).0 ≡ ok o
        → found ≡ o
    unfolding or_else pure
    last_one again found w h = cc

    or_else_pure :
        (again : Action D Error (Order D)) (found : Order D) (w : Database D)
        → (or_else again (some found) w).1 ≡ w
    unfolding or_else pure
    or_else_pure again found w = refl

    attempts_lem :
        (left number : ℕ) (w : Database D) {o : Order D}
        → (attempts left number body w).0 ≡ ok o
        → IsCreated o w (attempts left number body w).1
    unfolding attempts raise
    attempts_lem zero number w h = cc
    attempts_lem (suc left) number w {o} h =
        let (r, did, next) = bound (body number) (or_else (attempts left (suc number) body)) w h in
        go r did next (attempts_lem left (suc number) w)
      where
        go :
            (r : Option (Order D))
            → (body number w).0 ≡ ok r
            → (body number >>= or_else (attempts left (suc number) body)) w
              ≡ or_else (attempts left (suc number) body) r (body number w).1
            → ((attempts left (suc number) body w).0 ≡ ok o
                → IsCreated o w (attempts left (suc number) body w).1)
            → IsCreated o w ((body number >>= or_else (attempts left (suc number) body)) w).1
        go none did next ih =
            let same =
              attempt-none (draws number) user_id chain base required expiry
                (draw_offset offset_min offset_max (draws number).intn) w did in
            let e = rw (next, or_else, same) at h in rw (next, or_else, same) (ih e)
        go (some found) did next ih =
            let e : found ≡ o =
              last_one (attempts left (suc number) body) found (body number w).1 (rw next at h) in
            let (k, drawn, made, row) =
              attempt-some (draws number) user_id chain base required expiry
                (draw_offset offset_min offset_max (draws number).intn) w (rw e at did) in
            rw (next, or_else_pure (attempts left (suc number) body) found)
              (number, k, drawn, made, row)

    -- When CreateWithUniqueAmount returns an order, it is the order of one of the draws, with an
    -- offset that the draw gave, and the table has one row more than before, at its end: this order
    -- as its columns store it. Attempts that collided have left nothing.
    pub create_with_unique_amount_lem :
        (retries : ℤ) (w : Database D) {o : Order D}
        → (create_with_unique_amount draws user_id chain base required expiry offset_min offset_max
            retries w).0
          ≡ ok o
        → IsCreated o w
            (create_with_unique_amount draws user_id chain base required expiry offset_min
              offset_max retries w).1
    unfolding create_with_unique_amount raise
    create_with_unique_amount_lem retries w {o} h =
        elim (Bool-cases (ltb_ℤ offset_max offset_min)) [
          | inl invalid ↦ cc (rw (invalid, create_with_unique_amount) at h)
          | inr valid ↦
              rw (valid, create_with_unique_amount)
                (attempts_lem (pos_part retries) 0 w (rw (valid, create_with_unique_amount) at h))
        ]
