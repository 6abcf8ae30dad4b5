-- ===== src/Orders/Lifecycle/Creation.antt =====
-- The INSERT of CreateWithUniqueAmount, and the lifecycle.
use frpay.Prelude.{
  All-append, ◌≡◌, refl, ℤ, String, Option, none, some, [], ◌∷◌, ◌++◌, Extends-append, Bool-cases,
  inl, inr,
}
use frpay.Decimal.{Decimals}
use frpay.Store.{Statement, statement-Follows, Order, raise, Follows}
use frpay.Orders.Repository.{
  with_times, new_order, stored, Draw, checked, insert_order, try_insert, insert_row,
}
use frpay.Orders.Lifecycle.{arith, IsWellFormed, Progress, Progress-refl, Later, Later-preorder}
use frpay.Orders.Lifecycle.Methods.{write_orders-Later}

module _ {D : Type 0} ⦃dec : Decimals D⦄ where
  insert_row-Later :
      (row : Option (Order D))
      → ((o : Order D) → row ≡ some o → IsWellFormed o)
      → Follows Later (insert_row row)
  unfolding insert_row raise
  insert_row-Later none fresh = record { at = Later-preorder.reflexive }
  insert_row-Later (some row) fresh = record {
    at = λ w. elim (Bool-cases (checked row)) [
      | inl fits ↦ rw fits (
          write_orders-Later (w.orders ++ row ∷ []) tt w
            (λ _. Extends-append Progress Progress-refl w.orders _)
            (λ _ all. All-append IsWellFormed w.orders (row ∷ []) all (fresh row refl, tt)))
      | inr refused ↦ rw refused (Later-preorder.reflexive w)
    ];
  }

  new_order-IsWellFormed :
      (d : Draw) (user_id chain : String) (base : D) (required expiry offset : ℤ) (row : Order D)
      → stored (new_order d user_id chain base required expiry offset) ≡ some row
      → IsWellFormed row
  unfolding stored new_order with_times
  new_order-IsWellFormed d user_id chain base required expiry offset row e = ground arith

  pub try_insert-Later :
      (d : Draw) (user_id chain : String) (base : D) (required expiry offset : ℤ)
      → Follows Later (try_insert (new_order d user_id chain base required expiry offset))
  unfolding try_insert insert_order
  try_insert-Later d user_id chain base required expiry offset = record {
    at =
        (statement-Follows Later-preorder Statement.insert_order (
          insert_row-Later _
            (new_order-IsWellFormed d user_id chain base required expiry offset))).at;
  }
