-- ===== src/Orders/Repository/Exact.antt =====
-- internal/orders/repository.go: ClaimExactMatch.
use frpay.Prelude.{
  ℕ, ℤ, leb_ℤ, fits_int32, String, Bool, not, ◌&&◌, Option, none, some, List, [], ◌∷◌, ◌==◌, str_eq,
  select, update, first, map, if◌then◌else◌,
}
use frpay.Decimal.{Decimals}
use frpay.Store.{
  confirming, confirmed, is_pending, Order, is_null, Statement, err, Action, pure, wrap, DbError,
  out_of_range, statement, write_orders,
}
use frpay.Orders.Repository.Errors.{Error, claim_exact_failed}

module _ {D : Type 0} ⦃dec : Decimals D⦄ where
  -- ClaimExactMatch: the subselect. Of rows that expire together the first is taken.
  unfoldable pub in_window : String → D → D → (ℕ → Bool) → Order D → Bool
  in_window chain low high locked o =
      str_eq o.chain chain
      && (is_pending o.status
          && (is_null o.tx_hash
              && (not (dec.lt o.expected_amount low)
                  && (not (dec.lt high o.expected_amount) && not (locked o.id)))))

  unfoldable pub oldest : List (Order D) → Option (Order D)
  oldest [] = none
  oldest (o ∷ os) = elim (oldest os) [
    | none ↦ some o
    | some p ↦ if leb_ℤ o.expires_at p.expires_at then some o else some p
  ]

  unfoldable pub matched : ℤ → String → D → ℤ → ℤ → Order D → Order D
  matched now tx received block_height confirmations o =
      let reached = leb_ℤ o.required_confirmations confirmations in
      record o {
        tx_hash = some tx;
        tx_block_height = some block_height;
        received_amount = some received;
        confirmations = confirmations;
        status = if reached then confirmed else confirming;
        confirmed_at = if reached then some now else none;
        updated_at = now;
      }

  -- UPDATE ... WHERE id = ... RETURNING *, with the value of a NUMERIC(20,8) column.
  unfoldable pub update_by_id :
      ℕ → D → (D → Order D → Order D) → Action D DbError (Option (Order D))
  update_by_id id amount set w = elim (dec.column amount) [
    | none ↦ (err out_of_range, w)
    | some received ↦
        write_orders (update (λ o. o.id == id) (set received) w.orders)
          (first (map (set received) (select (λ o. o.id == id) w.orders))) w
  ]

  -- The UPDATE, on the row that the subselect found.
  unfoldable pub claim_found :
      String → D → ℤ → ℤ → Option (Order D) → Action D DbError (Option (Order D))
  claim_found tx amount block_height confirmations none = pure none
  claim_found tx amount block_height confirmations (some o) = λ w.
      update_by_id o.id amount (λ received. matched w.now tx received block_height confirmations) w

  unfoldable pub claim_exact_match :
      String → String → D → ℤ → ℤ → D → Action D Error (Option (Order D))
  claim_exact_match chain tx amount block_height confirmations tolerance = wrap claim_exact_failed (
      statement Statement.claim_exact_match λ w.
        let low = dec.sub amount tolerance in
        let high = dec.add amount tolerance in
        if fits_int32 confirmations
        then claim_found tx amount block_height confirmations
            (oldest (select (in_window chain low high w.locked) w.orders)) w
        else (err out_of_range, w))
