-- ===== src/Orders/Repository/Underpaid.antt =====
-- internal/orders/repository.go: ClaimUnderpaid.
use frpay.Prelude.{
  ℕ, ℤ, pos, String, Bool, not, ◌&&◌, Option, none, some, List, [], ◌∷◌, str_eq, select,
  if◌then◌else◌,
}
use frpay.Decimal.{Decimals}
use frpay.Store.{
  underpaid, is_pending, Order, Database, is_null, Statement, Action, pure, raise, gets, ◌>>=◌,
  ◌>>◌, transaction, wrap, DbError, no_rows, statement, begin_tx, select_candidates, commit_tx,
}
use frpay.Orders.Repository.Errors.{
  Error, begin_failed, candidates_failed, mark_failed, commit_failed,
}
use frpay.Orders.Repository.Exact.{update_by_id}

module _ {D : Type 0} ⦃dec : Decimals D⦄ where
  -- ClaimUnderpaid: the candidates, in the order of ORDER BY expected_amount ASC
  unfoldable pub falls_short : String → D → (ℕ → Bool) → Order D → Bool
  falls_short chain amount locked o =
      str_eq o.chain chain
      && (is_pending o.status
          && (is_null o.tx_hash && (dec.lt amount o.expected_amount && not (locked o.id))))

  unfoldable pub insert_by_expected : Order D → List (Order D) → List (Order D)
  insert_by_expected o [] = o ∷ []
  insert_by_expected o (p ∷ ps) =
      if dec.lt p.expected_amount o.expected_amount
      then p ∷ insert_by_expected o ps
      else (o ∷ p ∷ ps)

  unfoldable pub order_by_expected : List (Order D) → List (Order D)
  order_by_expected [] = []
  order_by_expected (o ∷ os) = insert_by_expected o (order_by_expected os)

  unfoldable pub gap_percent : D → Order D → D
  gap_percent amount o =
      dec.mul (dec.div (dec.sub o.expected_amount amount) o.expected_amount)
        (dec.new (pos 100) (pos 0))

  -- One round of the loop over the candidates, on `best` and `bestGapPercent`.
  unfoldable pub consider : D → D → Order D → Option (Order D × D) → Option (Order D × D)
  consider amount max_gap c best =
      let gap = gap_percent amount c in
      if dec.lt max_gap gap then best else elim best [
        | none ↦ some (c, gap)
        | some (b, best_gap) ↦ if dec.lt gap best_gap then some (c, gap) else some (b, best_gap)
      ]

  unfoldable pub closest : D → D → Option (Order D × D) → List (Order D) → Option (Order D × D)
  closest amount max_gap best [] = best
  closest amount max_gap best (c ∷ cs) = closest amount max_gap (consider amount max_gap c best) cs

  unfoldable pub short_paid : ℤ → String → ℤ → D → Order D → Order D
  short_paid now tx block_height received o = record o {
    tx_hash = some tx;
    tx_block_height = some block_height;
    received_amount = some received;
    status = underpaid;
    updated_at = now;
  }

  -- The one row of RETURNING *; sql.ErrNoRows if there is none.
  unfoldable pub returned : Option (Order D) → Action D DbError (Order D)
  returned none = raise no_rows
  returned (some o) = pure o

  -- UPDATE ... SET status = 'underpaid' ... RETURNING *
  unfoldable pub mark_underpaid : ℕ → String → D → ℤ → Action D DbError (Order D)
  mark_underpaid id tx amount block_height w =
      (update_by_id id amount (short_paid w.now tx block_height) >>= returned) w

  unfoldable pub send_mark : String → D → ℤ → Order D → Action D Error (Order D)
  send_mark tx amount block_height best =
      wrap mark_failed
        (statement Statement.mark_underpaid (mark_underpaid best.id tx amount block_height))

  -- The end of the transaction, on the row that the loop chose.
  unfoldable pub mark_best :
      String → D → ℤ → Option (Order D × D) → Action D Error (Option (Order D))
  mark_best tx amount block_height none = pure none
  mark_best tx amount block_height (some (best, _)) = do
    updated ← send_mark tx amount block_height best
    wrap commit_failed (statement commit_tx (pure tt))
    pure (some updated)

  unfoldable pub candidates : String → D → Database D → List (Order D)
  candidates chain amount w =
      order_by_expected (select (falls_short chain amount w.locked) w.orders)

  unfoldable pub find_and_mark : String → String → D → ℤ → D → Action D Error (Option (Order D))
  find_and_mark chain tx amount block_height max_gap = do
    found ← wrap candidates_failed (statement select_candidates (gets (candidates chain amount)))
    mark_best tx amount block_height (closest amount max_gap none found)

  unfoldable pub claim_underpaid : String → String → D → ℤ → D → Action D Error (Option (Order D))
  claim_underpaid chain tx amount block_height max_gap = do
    wrap begin_failed (statement begin_tx (pure tt))
    transaction (find_and_mark chain tx amount block_height max_gap)
