-- ===== src/Orders/Accounting/Unhindered.antt =====
-- The claims of OnTransfer return no error while the database answers.
use frpay.Prelude.{
  ℕ, ℤ, String, eq_iff, ◌≡◌, refl, sym, subst, ap, ◌∙◌, arith, Bool, true, ◌==◌, ==_iff, none, some,
  Option, Option-cases, Memᴰ, select, select-mem, mem-select, fits_int32, inl, inr, ◌⊎◌,
}
use frpay.Decimal.{Decimals}
use frpay.Store.{
  Status, pending, confirming, confirmed, underpaid, expired, Order, Database, Statement, ok,
  statement, wrap, commit_tx, begin_tx, select_candidates, gets, ◌>>=◌, pure, write_orders, Returns,
  pure-Returns, ignore-Returns, >>=-Returns, sent-Returns, transaction-Returns, ping, read_only,
}
use frpay.Chains.Watcher.{TransferEvent}
use frpay.Orders.Repository.{
  in_window, oldest, update_by_id, claim_found, claim_exact_match, falls_short, short_paid,
  mark_underpaid, send_mark, mark_best, candidates, find_and_mark, claim_underpaid, closest,
  returned, mark_failed, begin_failed, candidates_failed, commit_failed,
}
use frpay.Orders.Service.{
  Settings, log_progress, after_underpaid, after_exact, on_unmatched, on_underpaid, log_amounts,
  log_if_confirmed, on_new,
}
use frpay.Orders.Lifecycle.Underpayment.{send_mark-Later, mem-order_by_expected, closest_found}
use frpay.Orders.Accounting.Admitted.{Takes, taker_consistent}
use frpay.Orders.Accounting.Credited.{IsReady, taken, first_mapped}

module _ {D : Type 0} ⦃dec : Decimals D⦄ where
  short_paid-Takes :
      (now : ℤ) (tx : String) (height : ℤ) (received : D)
      → Takes tx (short_paid now tx height received)
  unfolding short_paid
  short_paid-Takes now tx height received = record {
    id = λ o. refl;
    chain = λ o. refl;
    status = λ o. refl;
    tx_hash = λ o. refl;
  }

  of_candidate :
      (chain : String) (amount : D) (locked : ℕ → Bool) (t : Order D)
      → falls_short chain amount locked t ≡ true
      → t.chain ≡ chain
  unfolding falls_short
  of_candidate chain amount locked t h = ground (arith, eq_iff t.chain chain)

  -- What is only logged returns whatever fails.
  log_if_confirmed-Returns :
      (status : Status) (o : Order D) (e : TransferEvent D) (w : Database D)
      → Returns (log_if_confirmed status o e) w
  unfolding log_if_confirmed
  log_if_confirmed-Returns confirmed o e w = ignore-Returns _ w
  log_if_confirmed-Returns pending o e w = pure-Returns tt w
  log_if_confirmed-Returns confirming o e w = pure-Returns tt w
  log_if_confirmed-Returns underpaid o e w = pure-Returns tt w
  log_if_confirmed-Returns expired o e w = pure-Returns tt w

  pub log_progress-Returns :
      (o : Order D) (e : TransferEvent D) (w : Database D) → Returns (log_progress o e) w
  unfolding log_progress
  log_progress-Returns o e w =
      >>=-Returns _ _ w (ignore-Returns _ w) (log_if_confirmed-Returns o.status o e _)

  after_underpaid-Returns :
      (e : TransferEvent D) (short : Option (Order D)) (w : Database D)
      → Returns (after_underpaid e short) w
  unfolding after_underpaid on_unmatched on_underpaid log_amounts
  after_underpaid-Returns e none w = >>=-Returns _ _ w (ignore-Returns _ w) (ignore-Returns _ _)
  after_underpaid-Returns e (some o) w = >>=-Returns _ _ w (ignore-Returns _ w) (ignore-Returns _ _)

  after_exact-Returns :
      (s : Settings D) (e : TransferEvent D) (o : Order D) (w : Database D)
      → Returns (after_exact s e (some o)) w
  unfolding after_exact log_amounts
  after_exact-Returns s e o w = >>=-Returns _ _ w (ignore-Returns _ w) (log_progress-Returns o e _)

module _ {D : Type 0} ⦃dec : Decimals D⦄ (s : Settings D) (e : TransferEvent D) {received : D}
    (fits : dec.column e.amount ≡ some received) (counts : fits_int32 e.confirmations ≡ true) where
  -- ClaimExactMatch finds nothing and changes nothing, or returns an order.
  exact-cases :
      (w : Database D)
      → IsReady s e fits counts w
      → (claim_exact_match e.chain e.tx_hash e.amount e.block_height e.confirmations s.tolerance w
          ≡ (ok none, w))
        ⊎ ((o : Order D) × ((claim_exact_match e.chain e.tx_hash e.amount e.block_height
                e.confirmations s.tolerance w).0
              ≡ ok (some o)))
  unfolding claim_exact_match wrap statement claim_found pure
  exact-cases w r =
      elim (Option-cases (
        oldest (
          select
            (in_window e.chain (dec.sub e.amount s.tolerance) (dec.add e.amount s.tolerance)
              w.locked)
            w.orders))) [
              | inl nothing ↦ inl (rw (r.up Statement.claim_exact_match, counts, nothing) refl)
              | inr (q, found) ↦ inr (taken s e fits counts w q r found)
            ]

  module _ (w : Database D) (r : IsReady s e fits counts w) where
    -- The row of the candidate that was chosen is written.
    mark_underpaid-Returns :
        (t : Order D)
        → Memᴰ t w.orders
        → t.chain ≡ e.chain
        → Returns (mark_underpaid t.id e.tx_hash e.amount e.block_height) w
    unfolding mark_underpaid update_by_id write_orders returned ◌>>=◌
    mark_underpaid-Returns t m of_chain =
        let set = short_paid w.now e.tx_hash e.block_height received in
        let (o, first_one) =
          first_mapped set (select (λ p. p.id == t.id) w.orders)
            (select-mem _ w.orders m ((==_iff t.id t.id).1 refl)) in
        let admitted =
          taker_consistent e.tx_hash set t w.orders
            (short_paid-Takes w.now e.tx_hash e.block_height received) r.rows m
            (rw of_chain r.free) in
        >>=-Returns _ returned w
          (record { value = some o; done = rw (fits, update_by_id, admitted, first_one) refl })
          (pure-Returns o _)

    mark_best-Returns :
        (best : Option (Order D × D))
        → closest e.amount s.underpayment_max_gap_percent none (candidates e.chain e.amount w)
          ≡ best
        → Returns (mark_best e.tx_hash e.amount e.block_height best) w
    unfolding mark_best send_mark candidates
    mark_best-Returns none found = pure-Returns none w
    mark_best-Returns (some (t, gap)) found =
        let (m, hit) = mem-select _ w.orders (
          mem-order_by_expected _
            (closest_found e.amount s.underpayment_max_gap_percent _ found)) in
        let marked =
          sent-Returns mark_failed Statement.mark_underpaid _ w (r.up Statement.mark_underpaid)
            (mark_underpaid-Returns t m (of_candidate _ _ _ t hit)) in
        let later = send_mark-Later e.chain e.tx_hash e.amount e.block_height w t m hit in
        >>=-Returns _ _ w marked (
          >>=-Returns _ _ _
            (sent-Returns commit_failed commit_tx _ _
              (ap (λ f. f commit_tx) later.fails ∙ r.up commit_tx) (pure-Returns tt _))
            (pure-Returns _ _))

    find_and_mark-Returns :
        Returns
          (find_and_mark e.chain e.tx_hash e.amount e.block_height s.underpayment_max_gap_percent)
          w
    unfolding find_and_mark gets
    find_and_mark-Returns =
        let found =
          sent-Returns candidates_failed select_candidates (gets (candidates e.chain e.amount)) w
            (r.up select_candidates)
            (record { value = candidates e.chain e.amount w; done = refl }) in
        let (these, same) =
          read_only candidates_failed select_candidates (candidates e.chain e.amount) w
            found.done in
        >>=-Returns _ _ w found (rw (same, ← these) (mark_best-Returns _ refl))

    claim_underpaid-Returns :
        Returns
          (claim_underpaid e.chain e.tx_hash e.amount e.block_height s.underpayment_max_gap_percent)
          w
    unfolding claim_underpaid
    claim_underpaid-Returns =
        let begun =
          sent-Returns begin_failed begin_tx (pure tt) w (r.up begin_tx) (pure-Returns tt w) in
        >>=-Returns _ _ w begun (
          rw (ping begin_failed begin_tx w begun.done)
            (transaction-Returns _ w find_and_mark-Returns))

    pub on_new-Returns : Returns (on_new s e) w
    unfolding on_new after_exact
    on_new-Returns =
        let claim =
          claim_exact_match e.chain e.tx_hash e.amount e.block_height e.confirmations s.tolerance in
        elim (exact-cases w r) [
          | inl nothing ↦
              >>=-Returns claim (after_exact s e) w
                (record { value = none; done = ap (λ x. x.0) nothing })
                (subst (Returns (after_exact s e none)) (sym (ap (λ x. x.1) nothing)) (
                  >>=-Returns _ (after_underpaid e) w claim_underpaid-Returns
                    (after_underpaid-Returns e _ _)))
          | inr (o, did) ↦
              >>=-Returns claim (after_exact s e) w (record { value = some o; done = did })
                (after_exact-Returns s e o _)
        ]
