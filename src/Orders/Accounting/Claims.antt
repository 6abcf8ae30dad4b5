-- ===== src/Orders/Accounting/Claims.antt =====
-- UpdateConfirmations and ClaimExactMatch, and the transfers that the table holds.
use frpay.Prelude.{
  update, ℕ, ℤ, String, ◌≡◌, refl, arith, Bool, true, Option, none, some, List, ◌&&◌, ◌==◌, ==_iff,
  str_eq, eq_iff, any-some, any_mono, any-of_first, mem-update, mem-select, select, Memᴰ,
  fits_int32, Bool-cases, Option-cases, inl, inr,
}
use frpay.Decimal.{Decimals}
use frpay.Store.{Order, Database, Statement, ok, write_orders, sent, has_tx, pure}
use frpay.Orders.Repository.{
  awaits, update_confirmations, update_failed, in_window, oldest, matched, update_by_id,
  claim_found, claim_exact_match, claim_exact_failed, falls_short, short_paid,
}
use frpay.Orders.Lifecycle.Methods.{oldest-mem}
use frpay.Orders.Accounting.{is_claimed}

module _ {D : Type 0} ⦃dec : Decimals D⦄ where
  pub awaits-claimed :
      (chain tx : String) (n : ℤ) (o : Order D)
      → awaits chain tx n o ≡ true
      → (str_eq o.chain chain && has_tx tx o.tx_hash) ≡ true
  unfolding awaits
  awaits-claimed chain tx n o h = ground arith

  written_first :
      {A : Type 0} (rows : List (Order D)) (a b : A) (w : Database D)
      → (write_orders rows a w).0 ≡ ok b
      → (a ≡ b) × ((write_orders rows a w).1.orders ≡ rows)
  unfolding write_orders
  written_first rows a b w h = ground arith

  -- UpdateConfirmations returns an order only if one held the transfer before.
  pub updated_claimed :
      (chain tx : String) (height n : ℤ) (w : Database D) {o : Order D}
      → (update_confirmations chain tx height n w).0 ≡ ok (some o)
      → is_claimed chain tx w.orders ≡ true
  unfolding update_confirmations
  updated_claimed chain tx height n w {o} e =
      let done = (sent update_failed Statement.update_confirmations _ w e).0 in
      elim (Bool-cases (fits_int32 n)) [
        | inl fits ↦ any_mono _ _ (awaits-claimed chain tx n) w.orders (
            any-of_first (awaits chain tx n) _ w.orders (written_first _ _ _ w (rw fits at done)).0)
        | inr too_big ↦ cc (rw too_big at done)
      ]

  matched-claimed :
      (chain tx : String) (low high : D) (locked : ℕ → Bool) (now : ℤ) (received : D) (height n : ℤ)
      (o : Order D)
      → in_window chain low high locked o ≡ true
      → (str_eq (matched now tx received height n o).chain chain
          && has_tx tx (matched now tx received height n o).tx_hash)
        ≡ true
  unfolding in_window matched
  matched-claimed chain tx low high locked now received height n o h =
      ground (arith, (eq_iff tx tx).1 refl)

  pub short_paid-claimed :
      (chain tx : String) (amount : D) (locked : ℕ → Bool) (now : ℤ) (received : D) (height : ℤ)
      (o : Order D)
      → falls_short chain amount locked o ≡ true
      → (str_eq (short_paid now tx height received o).chain chain
          && has_tx tx (short_paid now tx height received o).tx_hash)
        ≡ true
  unfolding falls_short short_paid
  short_paid-claimed chain tx amount locked now received height o h =
      ground (arith, (eq_iff tx tx).1 refl)

  -- A write to the row of `t` that returned leaves the row as `set` makes it.
  pub written_by_id :
      (t : Order D) (amount : D) (set : D → Order D → Order D) (w : Database D)
      {found : Option (Order D)}
      → Memᴰ t w.orders
      → (update_by_id t.id amount set w).0 ≡ ok found
      → (received : D) × Memᴰ (set received t) (update_by_id t.id amount set w).1.orders
  unfolding update_by_id
  written_by_id t amount set w {found} m e = elim (Option-cases (dec.column amount)) [
    | inl too_big ↦ cc (rw (too_big, update_by_id) at e)
    | inr (received, fits) ↦
        let wrote = written_first _ _ _ w (rw (fits, update_by_id) at e) in
        (received, rw (fits, update_by_id, wrote.1) (here received))
  ]
    where
      here :
          (received : D)
          → Memᴰ (set received t) (update (λ o. o.id == t.id) (set received) w.orders)
      here received =
          rw ((==_iff t.id t.id).1 refl) at (mem-update (λ o. o.id == t.id) (set received) m)

  found_claimed :
      (chain tx : String) (low high amount : D) (height n : ℤ) (w : Database D)
      (best : Option (Order D)) {o : Order D}
      → oldest (select (in_window chain low high w.locked) w.orders) ≡ best
      → (claim_found tx amount height n best w).0 ≡ ok (some o)
      → is_claimed chain tx (claim_found tx amount height n best w).1.orders ≡ true
  unfolding claim_found pure
  found_claimed chain tx low high amount height n w none h e = cc
  found_claimed chain tx low high amount height n w (some t) h e =
      let (m, hit) = mem-select (in_window chain low high w.locked) w.orders (oldest-mem _ h) in
      let (received, k) =
        written_by_id t amount (λ received. matched w.now tx received height n) w m e in
      any-some _ k (matched-claimed chain tx low high w.locked w.now received height n t hit)

  -- ClaimExactMatch returns an order only if one holds the transfer afterwards.
  pub exact_claimed :
      (chain tx : String) (amount : D) (height n : ℤ) (tolerance : D) (w : Database D) {o : Order D}
      → (claim_exact_match chain tx amount height n tolerance w).0 ≡ ok (some o)
      → is_claimed chain tx (claim_exact_match chain tx amount height n tolerance w).1.orders ≡ true
  unfolding claim_exact_match
  exact_claimed chain tx amount height n tolerance w {o} e =
      let (done, same) = sent claim_exact_failed Statement.claim_exact_match _ w e in
      elim (Bool-cases (fits_int32 n)) [
        | inl fits ↦
            rw (same, fits) (found_claimed chain tx _ _ amount height n w _ refl (rw fits at done))
        | inr too_big ↦ cc (rw too_big at done)
      ]
