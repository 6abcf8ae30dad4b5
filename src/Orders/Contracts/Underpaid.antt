-- ===== src/Orders/Contracts/Underpaid.antt =====
-- The order that ClaimUnderpaid gives a transfer to.
use frpay.Prelude.{
  any, any-false, select-mem, mem-select, update, ◌==◌, ℤ, String, ◌≡◌, refl, true, false, not,
  ◌&&◌, Option, none, some, Memᴰ, Bool-cases, Option-cases, inl, inr, select,
}
use frpay.Decimal.{Decimals, IsOrdered}
use frpay.Store.{pure, Order, Database, Statement, ok, bound, committed, read_only, ping, sent}
use frpay.Orders.Repository.{
  falls_short, gap_percent, closest, short_paid, update_by_id, returned, mark_underpaid, send_mark,
  mark_best, candidates, find_and_mark, claim_underpaid, begin_failed, candidates_failed,
  mark_failed, commit_failed,
}
use frpay.Orders.Lifecycle.Underpayment.{mem-order_by_expected, closest_found}
use frpay.Orders.Contracts.Expiry.{wrote}
use frpay.Orders.Contracts.Closest.{order_by_expected-mem, closest-least, closest-within}
use frpay.Orders.Accounting.Shortfalls.{returned_same}

module _ {D : Type 0} ⦃dec : Decimals D⦄ where
  rows_by_id :
      (amount : D) (t : Order D) (set : D → Order D → Order D) (w : Database D)
      {found : Option (Order D)}
      → (update_by_id t.id amount set w).0 ≡ ok found
      → (received : D) × (dec.column amount ≡ some received)
        × ((update_by_id t.id amount set w).1.orders
            ≡ update (λ p. p.id == t.id) (set received) w.orders)
  unfolding update_by_id
  rows_by_id amount t set w e = elim (Option-cases (dec.column amount)) [
    | inl too_big ↦ cc (rw (too_big, update_by_id) at e)
    | inr (received, fits) ↦
        let (these, state) = wrote _ _ _ w (rw (fits, update_by_id) at e) in
        (received, fits, rw (fits, update_by_id, state) refl)
  ]

module _ {D : Type 0} ⦃dec : Decimals D⦄ (order : IsOrdered dec) (chain tx : String) (amount : D)
    (height : ℤ) (max_gap : D) where
  -- A pending, unclaimed and unlocked order that expects more, within the limit, and none nearer.
  abbrev pub IsNearest : Database D → Order D → Type 0
  IsNearest w t =
      Memᴰ t w.orders
      × (falls_short chain amount w.locked t ≡ true)
      × (dec.lt max_gap (gap_percent amount t) ≡ false)
      × (any
            (λ p.
              (falls_short chain amount w.locked p && not (dec.lt max_gap (gap_percent amount p)))
              && dec.lt (gap_percent amount p) (gap_percent amount t))
            w.orders
          ≡ false)

  nearest :
      (w : Database D) (t : Order D) (g : D)
      → closest amount max_gap none (candidates chain amount w) ≡ some (t, g)
      → IsNearest w t
  unfolding candidates
  nearest w t g e =
      let shown = select (falls_short chain amount w.locked) w.orders in
      let (m, hit) =
        mem-select _ w.orders (mem-order_by_expected shown (closest_found amount max_gap _ e)) in
      let (own, inside) = closest-within order amount max_gap _ e in
      (
        m,
        hit,
        rw own at inside,
        any-false _ w.orders (λ p k. elim (Bool-cases (falls_short chain amount w.locked p)) [
          | inl short ↦ elim (Bool-cases (dec.lt max_gap (gap_percent amount p))) [
            | inl outside ↦ rw (short, outside) refl
            | inr within ↦
                rw (short, within)
                  (rw own at (
                    closest-least order amount max_gap none _ e
                      (order_by_expected-mem shown (select-mem _ w.orders k short)) within))
          ]
          | inr other ↦ rw other refl
        ]),
      )

  -- What the write to the chosen row leaves.
  abbrev pub Marks : Database D → Database D → Type 0
  Marks w w' =
      (t : Order D) × (received : D) × IsNearest w t
      × (dec.column amount ≡ some received)
      × (w'.orders ≡ update (λ p. p.id == t.id) (short_paid w.now tx height received) w.orders)

  marked :
      (w : Database D) (t : Order D) {o : Order D}
      → IsNearest w t
      → (send_mark tx amount height t w).0 ≡ ok o
      → Marks w (send_mark tx amount height t w).1
  unfolding send_mark mark_underpaid
  marked w t {o} chosen e =
      let (done, same) = sent mark_failed Statement.mark_underpaid _ w e in
      let (found, written, next) = bound _ returned w done in
      let (received, fits, rows) = rows_by_id amount t (short_paid w.now tx height) w written in
      (t, received, chosen, fits, rw (same, next, returned_same found _ (rw next at done)) rows)

  best_marked :
      (w : Database D) (best : Option (Order D × D)) {o : Order D}
      → closest amount max_gap none (candidates chain amount w) ≡ best
      → (mark_best tx amount height best w).0 ≡ ok (some o)
      → Marks w (mark_best tx amount height best w).1
  unfolding mark_best pure
  best_marked w none h e = cc
  best_marked w (some (t, g)) h e =
      let (updated, wrote_it, next) = bound (send_mark tx amount height t) _ w e in
      let (done, answered, end) = bound _ (λ _. pure (some updated)) _ (rw next at e) in
      rw (next, end, ping commit_failed Statement.commit_tx _ answered)
        (marked w t (nearest w t g h) wrote_it)

  found_marked :
      (w : Database D) {o : Order D}
      → (find_and_mark chain tx amount height max_gap w).0 ≡ ok (some o)
      → Marks w (find_and_mark chain tx amount height max_gap w).1
  unfolding find_and_mark
  found_marked w {o} e =
      let (found, answered, next) = bound _ _ w e in
      let (these, same) =
        read_only candidates_failed Statement.select_candidates (candidates chain amount) w
          answered in
      rw (next, same) (best_marked w _ (rw these refl) (rw (next, same) at e))

  pub claim_underpaid_lem :
      (w : Database D) {o : Order D}
      → (claim_underpaid chain tx amount height max_gap w).0 ≡ ok (some o)
      → (t : Order D) × (received : D) × IsNearest w t
        × (dec.column amount ≡ some received)
        × ((claim_underpaid chain tx amount height max_gap w).1.orders
            ≡ update (λ p. p.id == t.id) (short_paid w.now tx height received) w.orders)
  unfolding claim_underpaid
  claim_underpaid_lem w {o} e =
      let (begun, answered, next) = bound _ _ w e in
      let same = ping begin_failed Statement.begin_tx w answered in
      let whole = rw (next, same) at e in
      let kept = committed (find_and_mark chain tx amount height max_gap) w whole in
      rw (next, same, kept) (found_marked w (rw kept at whole))
