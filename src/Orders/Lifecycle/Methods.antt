-- ===== src/Orders/Lifecycle/Methods.antt =====
-- UpdateConfirmations, ClaimExactMatch and writes to one row, and the lifecycle.
use frpay.Prelude.{
  All-update, ℕ, ℤ, String, ◌≡◌, refl, inl, inr, arith, Bool, true, Option, none, some, List, [],
  ◌∷◌, update, select, mem-select, Memᴰ, subst, sym, ==_iff, leb_ℤ, fits_int32, Extends,
  Extends-update, Bool-cases, Option-cases,
}
use frpay.Decimal.{Decimals}
use frpay.Store.{
  Order, Database, pure, write_orders, consistent, update_id_unique, Follows, wrap-Follows,
  statement-Follows,
}
use frpay.Orders.Repository.{
  awaits, advanced, update_confirmations, in_window, oldest, matched, update_by_id, claim_found,
  claim_exact_match,
}
use frpay.Orders.Lifecycle.{
  IsWellFormed, All, Progress, Progress-refl, Later, Later-preorder, same_refl,
}

module _ {D : Type 0} ⦃dec : Decimals D⦄ where
  -- A write that the indexes admit, of rows that only progressed.
  pub write_orders-Later :
      {A : Type 0} (rows : List (Order D)) (a : A) (w : Database D)
      → (consistent rows ≡ true → Extends Progress w.orders rows)
      → (consistent rows ≡ true → All IsWellFormed w.orders → All IsWellFormed rows)
      → Later w (write_orders rows a w).1
  unfolding write_orders
  write_orders-Later rows a w h k = elim (Bool-cases (consistent rows)) [
    | inl good ↦ rw good (record {
      orders = h good;
      well_formed = k good;
      consistent_orders = λ _. good;
      review_items = same_refl w.review_items;
      audit_log = same_refl w.audit_log;
      cursors = refl;
      now = refl;
      locked = refl;
      fails = refl;
    })
    | inr bad ↦ rw bad (Later-preorder.reflexive w)
  ]

  pub update-Later :
      {A : Type 0} (p : Order D → Bool) (f : Order D → Order D) (a : A) (w : Database D)
      → (consistent (update p f w.orders) ≡ true
          → (o : Order D) → Memᴰ o w.orders
          → p o ≡ true
          → Progress o (f o))
      → Later w (write_orders (update p f w.orders) a w).1
  update-Later p f a w h =
      write_orders-Later (update p f w.orders) a w
        (λ good. Extends-update Progress Progress-refl p f w.orders (h good))
        (λ good. All-update IsWellFormed p f w.orders (λ o m hit. (h good o m hit).well_formed))

  pub advanced-Progress :
      (chain tx : String) (now height n : ℤ) (o : Order D)
      → awaits chain tx n o ≡ true
      → Progress o (advanced now height n o)
  unfolding awaits advanced
  advanced-Progress chain tx now height n o h = ground arith

  pub update_confirmations-Later :
      (chain tx : String) (height n : ℤ)
      → Follows Later (update_confirmations {D = D} chain tx height n)
  unfolding update_confirmations
  update_confirmations-Later chain tx height n = wrap-Follows Later-preorder _ (
      statement-Follows Later-preorder _ (record {
        at = λ w. elim (Bool-cases (fits_int32 n)) [
          | inl fits ↦
              rw fits (update-Later _ _ _ w (λ _ o m. advanced-Progress chain tx w.now height n o))
          | inr too_big ↦ rw too_big (Later-preorder.reflexive w)
        ];
      }))

  -- A write to the row with the key of `t`, where that write is progress for `t`.
  pub update_by_id-Later :
      (t : Order D) (amount : D) (set : D → Order D → Order D) (w : Database D)
      → ((received : D) (o : Order D) → (set received o).id ≡ o.id)
      → ((received : D) → Progress t (set received t))
      → Memᴰ t w.orders
      → Later w (update_by_id t.id amount set w).1
  unfolding update_by_id
  update_by_id-Later t amount set w keeps progress m = elim (Option-cases (dec.column amount)) [
    | inl too_big ↦ rw (too_big, update_by_id) (Later-preorder.reflexive w)
    | inr (received, fits) ↦
        rw (fits, update_by_id)
          (update-Later _ _ _ w (λ good o k e.
            subst (λ x. Progress x (set received x))
              (update_id_unique _ _ (keeps received) w.orders good m k
                (sym ((==_iff o.id t.id).0 e)))
              (progress received)))
  ]

  pub oldest-mem : (os : List (Order D)) {o : Order D} → oldest os ≡ some o → Memᴰ o os
  unfolding oldest
  oldest-mem [] e = cc
  oldest-mem (x ∷ xs) {o} e = elim (Option-cases (oldest xs)) [
    | inl no_more ↦ Memᴰ.head (ground arith)
    | inr (p, later) ↦ elim (Bool-cases (leb_ℤ x.expires_at p.expires_at)) [
      | inl first_row ↦ Memᴰ.head (ground arith)
      | inr a_later_row ↦ Memᴰ.tail (oldest-mem xs (ground arith))
    ]
  ]

  matched-Progress :
      (chain : String) (low high : D) (locked : ℕ → Bool) (now : ℤ) (tx : String) (received : D)
      (height n : ℤ) (o : Order D)
      → in_window chain low high locked o ≡ true
      → Progress o (matched now tx received height n o)
  unfolding in_window matched
  matched-Progress chain low high locked now tx received height n o h = ground arith

  claim_found-Later :
      (chain : String) (low high : D) (tx : String) (amount : D) (height n : ℤ) (w : Database D)
      (found : Option (Order D))
      → oldest (select (in_window chain low high w.locked) w.orders) ≡ found
      → Later w (claim_found tx amount height n found w).1
  unfolding claim_found pure
  claim_found-Later chain low high tx amount height n w none e = Later-preorder.reflexive w
  claim_found-Later chain low high tx amount height n w (some o) e =
      let (m, hit) = mem-select (in_window chain low high w.locked) w.orders (oldest-mem _ e) in
      update_by_id-Later o amount (λ received. matched w.now tx received height n) w
        (λ received x. unfold matched in refl)
        (λ received. matched-Progress chain low high w.locked w.now tx received height n o hit) m

  pub claim_exact_match-Later :
      (chain tx : String) (amount : D) (height n : ℤ) (tolerance : D)
      → Follows Later (claim_exact_match chain tx amount height n tolerance)
  unfolding claim_exact_match
  claim_exact_match-Later chain tx amount height n tolerance = wrap-Follows Later-preorder _ (
      statement-Follows Later-preorder _ (record {
        at = λ w. elim (Bool-cases (fits_int32 n)) [
          | inl fits ↦ rw fits (claim_found-Later chain _ _ tx amount height n w _ refl)
          | inr too_big ↦ rw too_big (Later-preorder.reflexive w)
        ];
      }))
