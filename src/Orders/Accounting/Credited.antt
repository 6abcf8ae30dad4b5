-- ===== src/Orders/Accounting/Credited.antt =====
-- OnTransfer on the payment of an order, while nothing fails.
use frpay.Prelude.{
  ℕ, ℤ, String, eq_iff, ◌≡◌, refl, ap, ◌∙◌, arith, Bool, true, false, ◌==◌, ==_iff, none, some,
  List, [], ◌∷◌, Memᴰ, any, any-none, any-false, select, update, map, first, mem-select, select-mem,
  fits_int32, Bool-cases, inl, inr,
}
use frpay.Orders.Contracts.Exact.{oldest-exists}
use frpay.Decimal.{Decimals}
use frpay.Store.{
  statement-cases, Order, Database, Statement, ok, go_on, statement, wrap, gets, ignore, ◌>>=◌,
  write_orders, consistent,
}
use frpay.Audit.{log}
use frpay.Chains.Watcher.{TransferEvent}
use frpay.Orders.Repository.{
  oldest, awaits, update_confirmations, in_window, matched, update_by_id, claim_found,
  claim_exact_match, tx_already_claimed,
}
use frpay.Orders.Service.{Settings, on_new, unless_claimed, after_update, settle, on_transfer}
use frpay.Orders.Composition.Transfers.{after_exact-Follows}
use frpay.Orders.Lifecycle.Transfers.{Statements-Later}
use frpay.Orders.Lifecycle.Methods.{oldest-mem}
use frpay.Orders.Accounting.{is_claimed}
use frpay.Orders.Accounting.Claims.{awaits-claimed, exact_claimed}
use frpay.Orders.Accounting.Recorded.{is_claimed-Later}
use frpay.Orders.Accounting.Admitted.{Takes, taker_consistent}

module _ {A : Type 0} where
  update_none : (p : A → Bool) (f : A → A) (xs : List A) → any p xs ≡ false → update p f xs ≡ xs
  unfolding any update
  update_none p f [] h = refl
  update_none p f (x ∷ xs) h = ground (arith, update_none p f xs)

  select_none : (p : A → Bool) (xs : List A) → any p xs ≡ false → select p xs ≡ []
  unfolding any select
  select_none p [] h = refl
  select_none p (x ∷ xs) h = ground (arith, select_none p xs)

  pub first_mapped :
      {B : Type 0} (f : A → B) (xs : List A) {x : A}
      → Memᴰ x xs
      → (y : B) × (first (map f xs) ≡ some y)
  first_mapped f [] m = elim m [ ]
  first_mapped f (x ∷ xs) m = (f x, refl)

module _ {D : Type 0} ⦃dec : Decimals D⦄ where
  matched-Takes :
      (now : ℤ) (tx : String) (received : D) (height n : ℤ)
      → Takes tx (matched now tx received height n)
  unfolding matched
  matched-Takes now tx received height n = record {
    id = λ o. refl;
    chain = λ o. refl;
    status = λ o. ground arith;
    tx_hash = λ o. refl;
  }

module _ {D : Type 0} ⦃dec : Decimals D⦄ (s : Settings D) (e : TransferEvent D) {received : D}
    (fits : dec.column e.amount ≡ some received) (counts : fits_int32 e.confirmations ≡ true) where
  -- Nothing fails, and no order of the chain holds the transfer.
  pub record IsReady (w : Database D) : Type 0 where
    pub up : (st : Statement) → w.fails st ≡ false
    pub rows : consistent w.orders ≡ true
    pub free : is_claimed e.chain e.tx_hash w.orders ≡ false

  not_updated :
      (w : Database D)
      → IsReady w
      → update_confirmations e.chain e.tx_hash e.block_height e.confirmations w ≡ (ok none, w)
  unfolding update_confirmations wrap statement write_orders
  not_updated w r =
      rw
        (
          r.up Statement.update_confirmations,
          counts,
          update_none _ _ w.orders nobody,
          select_none _ w.orders nobody,
          r.rows,
        )
        refl
    where
      nobody : any (awaits e.chain e.tx_hash e.confirmations) w.orders ≡ false
      nobody = any-false _ w.orders (λ o m.
          elim (Bool-cases (awaits e.chain e.tx_hash e.confirmations o)) [
            | inl hit ↦
                absurd
                  (cc (any-none _ r.free m, awaits-claimed e.chain e.tx_hash e.confirmations o hit))
            | inr miss ↦ miss
          ])

  not_claimed :
      (w : Database D) → IsReady w → tx_already_claimed e.chain e.tx_hash w ≡ (ok false, w)
  unfolding tx_already_claimed wrap statement gets
  not_claimed w r = rw (r.up Statement.tx_already_claimed, r.free) refl

  settle_new : (w : Database D) → IsReady w → settle s e w ≡ on_new s e w
  unfolding settle after_update unless_claimed ◌>>=◌
  settle_new w r =
      ap (λ x. go_on (after_update s e) x.0 x.1) (not_updated w r)
      ∙ ap (λ x. go_on (unless_claimed s e) x.0 x.1) (not_claimed w r)

  of_chain :
      (chain : String) (low high : D) (locked : ℕ → Bool) (o : Order D)
      → in_window chain low high locked o ≡ true
      → o.chain ≡ chain
  unfolding in_window
  of_chain chain low high locked o h = ground (arith, eq_iff o.chain chain)

  -- The order that the subselect finds takes the transfer.
  pub taken :
      (w : Database D) (q : Order D)
      → IsReady w
      → oldest (
          select
            (in_window e.chain
              (dec.sub e.amount s.tolerance)
              (dec.add e.amount s.tolerance)
              w.locked)
            w.orders)
        ≡ some q
      → (o : Order D) × ((claim_exact_match e.chain e.tx_hash e.amount e.block_height
            e.confirmations s.tolerance w).0
          ≡ ok (some o))
  unfolding claim_exact_match wrap statement claim_found update_by_id write_orders
  taken w q r found =
      let fit =
        in_window e.chain (dec.sub e.amount s.tolerance) (dec.add e.amount s.tolerance) w.locked in
      let (k, chosen) = mem-select fit w.orders (oldest-mem _ found) in
      let set = matched w.now e.tx_hash received e.block_height e.confirmations in
      let (o, returned) =
        first_mapped set (select (λ p. p.id == q.id) w.orders)
          (select-mem _ w.orders k ((==_iff q.id q.id).1 refl)) in
      let admitted =
        taker_consistent e.tx_hash set q w.orders
          (matched-Takes w.now e.tx_hash received e.block_height e.confirmations) r.rows k
          (rw (of_chain _ _ _ _ q chosen) r.free) in
      (
        o,
        rw
            (
              r.up Statement.claim_exact_match,
              counts,
              found,
              claim_found,
              fits,
              update_by_id,
              admitted,
              returned,
            )
            refl,
      )

  -- Some order takes the transfer if one matches it.
  claims :
      (w : Database D) (t : Order D)
      → IsReady w
      → Memᴰ t w.orders
      → in_window e.chain (dec.sub e.amount s.tolerance) (dec.add e.amount s.tolerance) w.locked t
        ≡ true
      → (o : Order D) × ((claim_exact_match e.chain e.tx_hash e.amount e.block_height
            e.confirmations s.tolerance w).0
          ≡ ok (some o))
  claims w t r m hit =
      let fit =
        in_window e.chain (dec.sub e.amount s.tolerance) (dec.add e.amount s.tolerance) w.locked in
      let (q, found, le) = oldest-exists (select fit w.orders) (select-mem fit w.orders m hit) in
      taken w q r found

  new_credited :
      (w : Database D) (t : Order D)
      → IsReady w
      → Memᴰ t w.orders
      → in_window e.chain (dec.sub e.amount s.tolerance) (dec.add e.amount s.tolerance) w.locked t
        ≡ true
      → is_claimed e.chain e.tx_hash (on_new s e w).1.orders ≡ true
  unfolding on_new ◌>>=◌
  new_credited w t r m hit =
      let claim =
        claim_exact_match e.chain e.tx_hash e.amount e.block_height e.confirmations s.tolerance in
      let (o, did) = claims w t r m hit in
      rw did (
        is_claimed-Later e.chain e.tx_hash (claim w).1 _
          ((after_exact-Follows Statements-Later s e (some o)).at (claim w).1)
          (exact_claimed e.chain e.tx_hash e.amount e.block_height e.confirmations s.tolerance w
            did))

  settled :
      (w : Database D) (t : Order D)
      → IsReady w
      → Memᴰ t w.orders
      → in_window e.chain (dec.sub e.amount s.tolerance) (dec.add e.amount s.tolerance) w.locked t
        ≡ true
      → is_claimed e.chain e.tx_hash (settle s e w).1.orders ≡ true
  settled w t r m hit =
      ap (λ x. is_claimed e.chain e.tx_hash x.1.orders) (settle_new w r) ∙ new_credited w t r m hit

  -- While no statement fails, the orders are consistent, the amount fits its column and the count
  -- of confirmations an int32: a transfer that no order of its chain holds, and whose amount is
  -- within the tolerance of a pending, unclaimed and unlocked order of the chain, is held by an
  -- order of the chain once OnTransfer has run.
  pub matching_payment_credited :
      (w : Database D) (t : Order D)
      → ((st : Statement) → w.fails st ≡ false)
      → consistent w.orders ≡ true
      → is_claimed e.chain e.tx_hash w.orders ≡ false
      → Memᴰ t w.orders
      → in_window e.chain (dec.sub e.amount s.tolerance) (dec.add e.amount s.tolerance) w.locked t
        ≡ true
      → is_claimed e.chain e.tx_hash (on_transfer s e w).1.orders ≡ true
  unfolding on_transfer ignore log ◌>>=◌
  matching_payment_credited w t up rows free m hit =
      statement-cases (Statement.log_audit "transfer_observed") _ w
        (λ r. is_claimed e.chain e.tx_hash (settle s e r.1).1.orders ≡ true)
        (settled w t (record { up = up; rows = rows; free = free }) m hit)
        (settled _ t (record { up = up; rows = rows; free = free }) m hit)
