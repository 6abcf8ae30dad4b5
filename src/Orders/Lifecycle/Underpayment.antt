-- ===== src/Orders/Lifecycle/Underpayment.antt =====
-- ClaimUnderpaid, and the lifecycle.
use frpay.Prelude.{
  ℕ, ℤ, String, ◌≡◌, refl, ◌⊎◌, inl, inr, arith, Bool, true, Option, none, some, List, [], ◌∷◌,
  mem-select, Memᴰ, Bool-cases,
}
use frpay.Decimal.{Decimals}
use frpay.Store.{
  Order, Database, Statement, ◌>>=◌, Follows, read-cases, go_on, >>=-from, wrap-from,
  statement-from, raise-Follows, pure-Follows, select_candidates,
}
use frpay.Orders.Repository.{
  falls_short, insert_by_expected, order_by_expected, consider, closest, short_paid, returned,
  mark_underpaid, send_mark, mark_best, candidates, find_and_mark, claim_underpaid,
  candidates_failed, mark_failed,
}
use frpay.Orders.Lifecycle.{Progress, Later, Later-preorder}
use frpay.Orders.Lifecycle.Trail.{later_rules}
use frpay.Orders.Lifecycle.Methods.{update_by_id-Later}

module _ {D : Type 0} ⦃dec : Decimals D⦄ where
  mem-insert :
      (o : Order D) {x : Order D} (ps : List (Order D))
      → Memᴰ x (insert_by_expected o ps)
      → (x ≡ o) ⊎ Memᴰ x ps
  unfolding insert_by_expected
  mem-insert o [] (Memᴰ.head e) = inl e
  mem-insert o [] (Memᴰ.tail m) = elim m [ ]
  mem-insert o {x} (p ∷ ps) m = elim (Bool-cases (dec.lt p.expected_amount o.expected_amount)) [
    | inl after ↦ behind (mem-insert o ps) (rw after at m)
    | inr before ↦ in_front (rw before at m)
  ]
    where
      behind :
          (Memᴰ x (insert_by_expected o ps) → (x ≡ o) ⊎ Memᴰ x ps)
          → Memᴰ x (p ∷ insert_by_expected o ps)
          → (x ≡ o) ⊎ Memᴰ x (p ∷ ps)
      behind ih (Memᴰ.head e) = inr (Memᴰ.head e)
      behind ih (Memᴰ.tail k) = elim (ih k) [ inl e ↦ inl e | inr j ↦ inr (Memᴰ.tail j) ]

      in_front : Memᴰ x (o ∷ p ∷ ps) → (x ≡ o) ⊎ Memᴰ x (p ∷ ps)
      in_front (Memᴰ.head e) = inl e
      in_front (Memᴰ.tail k) = inr k

  pub mem-order_by_expected :
      {x : Order D} (os : List (Order D)) → Memᴰ x (order_by_expected os) → Memᴰ x os
  unfolding order_by_expected
  mem-order_by_expected [] m = elim m [ ]
  mem-order_by_expected (o ∷ os) m = elim (mem-insert o (order_by_expected os) m) [
    | inl e ↦ Memᴰ.head e
    | inr k ↦ Memᴰ.tail (mem-order_by_expected os k)
  ]

  pub consider-cases :
      (amount max_gap : D) (c : Order D) (best : Option (Order D × D)) {o : Order D} {g : D}
      → consider amount max_gap c best ≡ some (o, g)
      → (best ≡ some (o, g)) ⊎ (o ≡ c)
  unfolding consider
  consider-cases amount max_gap c best h = ground arith

  pub closest-mem :
      (amount max_gap : D) (best : Option (Order D × D)) (cs : List (Order D)) {o : Order D} {g : D}
      → closest amount max_gap best cs ≡ some (o, g)
      → (best ≡ some (o, g)) ⊎ Memᴰ o cs
  unfolding closest
  closest-mem amount max_gap best [] h = inl h
  closest-mem amount max_gap best (c ∷ cs) h =
      elim (closest-mem amount max_gap (consider amount max_gap c best) cs h) [
        | inr m ↦ inr (Memᴰ.tail m)
        | inl e ↦ elim (consider-cases amount max_gap c best e) [
          | inl kept ↦ inl kept
          | inr new ↦ inr (Memᴰ.head new)
        ]
      ]

  pub closest_found :
      (amount max_gap : D) (cs : List (Order D)) {o : Order D} {g : D}
      → closest amount max_gap none cs ≡ some (o, g)
      → Memᴰ o cs
  closest_found amount max_gap cs e = elim (closest-mem amount max_gap none cs e) [
    | inl never ↦ cc
    | inr m ↦ m
  ]

  short_paid-Progress :
      (chain tx : String) (amount received : D) (locked : ℕ → Bool) (now height : ℤ) (o : Order D)
      → falls_short chain amount locked o ≡ true
      → Progress o (short_paid now tx height received o)
  unfolding falls_short short_paid
  short_paid-Progress chain tx amount received locked now height o h = ground arith

  returned-Later : (found : Option (Order D)) → Follows Later (returned found)
  unfolding returned
  returned-Later none = raise-Follows Later-preorder _
  returned-Later (some o) = pure-Follows Later-preorder o

  mark_underpaid-Later :
      (chain tx : String) (amount : D) (height : ℤ) (w : Database D) (o : Order D)
      → Memᴰ o w.orders
      → falls_short chain amount w.locked o ≡ true
      → Later w (mark_underpaid o.id tx amount height w).1
  unfolding mark_underpaid
  mark_underpaid-Later chain tx amount height w o m h =
      >>=-from Later-preorder _ _ w
        (update_by_id-Later o amount (short_paid w.now tx height) w
          (λ received x. unfold short_paid in refl)
          (λ received. short_paid-Progress chain tx amount received w.locked w.now height o h) m)
        returned-Later

  pub send_mark-Later :
      (chain tx : String) (amount : D) (height : ℤ) (w : Database D) (o : Order D)
      → Memᴰ o w.orders
      → falls_short chain amount w.locked o ≡ true
      → Later w (send_mark tx amount height o w).1
  unfolding send_mark
  send_mark-Later chain tx amount height w o m h = wrap-from Later-preorder mark_failed _ w (
      statement-from Later-preorder Statement.mark_underpaid _ w
        (mark_underpaid-Later chain tx amount height w o m h))

  mark_best-Later :
      (chain tx : String) (amount : D) (height : ℤ) (max_gap : D) (w : Database D)
      (best : Option (Order D × D))
      → closest amount max_gap none (candidates chain amount w) ≡ best
      → Later w (mark_best tx amount height best w).1
  unfolding mark_best candidates
  mark_best-Later chain tx amount height max_gap w none e = (pure-Follows Later-preorder none).at w
  mark_best-Later chain tx amount height max_gap w (some (o, g)) e =
      >>=-from Later-preorder (send_mark tx amount height o) _ w
        (send_mark-Later chain tx amount height w o found.0 found.1) (λ o'. search later_rules)
    where
      found : Memᴰ o w.orders × (falls_short chain amount w.locked o ≡ true)
      found = mem-select _ w.orders (mem-order_by_expected _ (closest_found amount max_gap _ e))

  find_and_mark-Later :
      (chain tx : String) (amount : D) (height : ℤ) (max_gap : D)
      → Follows Later (find_and_mark chain tx amount height max_gap)
  unfolding find_and_mark ◌>>=◌
  find_and_mark-Later chain tx amount height max_gap = record {
    at = λ w.
        read-cases candidates_failed select_candidates (candidates chain amount) w
          (λ r.
            Later w
              (go_on (λ found. mark_best tx amount height (closest amount max_gap none found)) r.0
                r.1).1)
          (Later-preorder.reflexive w) (mark_best-Later chain tx amount height max_gap w _ refl);
  }

  pub claim_underpaid-Later :
      (chain tx : String) (amount : D) (height : ℤ) (max_gap : D)
      → Follows Later (claim_underpaid chain tx amount height max_gap)
  unfolding claim_underpaid
  claim_underpaid-Later chain tx amount height max_gap = search (later_rules, find_and_mark-Later)
