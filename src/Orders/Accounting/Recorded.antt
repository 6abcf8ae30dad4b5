-- ===== src/Orders/Accounting/Recorded.antt =====
-- OnTransfer, and where the transfer is recorded at its end, stage by stage.
use frpay.Prelude.{
  any-last, ℕ, String, ◌≡◌, refl, arith, Bool, true, false, ◌||◌, Option, none, some, str_eq,
  eq_iff, any-Extends, Extends, List, Bool-cases, inl, inr, ◌∙◌, ◌&&◌,
}
use frpay.Decimal.{Decimals}
use frpay.Store.{
  ignore-Follows, Order, ReviewReason, ReviewItem, Database, Statement, ok, Action, pure, statement,
  wrap, ◌>>=◌, ignore, bound, read_only, has_tx, reason_unmatched,
}
use frpay.Chains.Watcher.{TransferEvent}
use frpay.Orders.Repository.{
  Error, is_reviewed, add_review, log_review_item, tx_already_claimed, check_tx_failed,
}
use frpay.Orders.Service.{
  Settings, after_underpaid, after_exact, unless_claimed, after_update, on_unmatched, on_new,
  settle, on_transfer,
}
use frpay.Orders.Composition.Transfers.{
  after_underpaid-Follows, after_exact-Follows, after_update-Follows,
}
use frpay.Orders.Lifecycle.{Later-preorder, Progress, Later}
use frpay.Orders.Lifecycle.Transfers.{Statements-Later}
use frpay.Orders.Lifecycle.Methods.{update_confirmations-Later, claim_exact_match-Later}
use frpay.Orders.Lifecycle.Underpayment.{claim_underpaid-Later}
use frpay.Orders.Lifecycle.Trail.{log-Later}
use frpay.Orders.Accounting.{is_claimed, is_recorded}
use frpay.Orders.Accounting.Claims.{updated_claimed, exact_claimed}
use frpay.Orders.Accounting.Shortfalls.{underpaid_claimed}

or_else_true : (b : Bool) {c : Bool} → c ≡ true → (b || c) ≡ true
or_else_true b h = ground arith

module _ {D : Type 0} ⦃dec : Decimals D⦄ where
  holds-Progress :
      (chain tx : String) (o p : Order D)
      → Progress o p
      → (str_eq o.chain chain && has_tx tx o.tx_hash) ≡ true
      → (str_eq p.chain chain && has_tx tx p.tx_hash) ≡ true
  holds-Progress chain tx o p h e = rw (h.chain, h.tx_hash (ground arith)) e

  is_claimed_kept :
      (chain tx : String) (os os' : List (Order D))
      → Extends Progress os os'
      → is_claimed chain tx os ≡ true
      → is_claimed chain tx os' ≡ true
  is_claimed_kept chain tx = any-Extends Progress _ (holds-Progress chain tx)

  is_reviewed_kept :
      (chain tx : String) (is is' : List (ReviewItem D))
      → Extends ◌≡◌ is is'
      → is_reviewed chain tx is ≡ true
      → is_reviewed chain tx is' ≡ true
  unfolding is_reviewed
  is_reviewed_kept chain tx = any-Extends ◌≡◌ _ (λ i j e k. rw (← e) k)

  -- What is recorded stays recorded.
  pub is_recorded_kept :
      (e : TransferEvent D) (w w' : Database D)
      → Extends Progress w.orders w'.orders
      → Extends ◌≡◌ w.review_items w'.review_items
      → is_recorded e w ≡ true
      → is_recorded e w' ≡ true
  is_recorded_kept e w w' os is r = ground (
    arith,
    is_claimed_kept e.chain e.tx_hash w.orders w'.orders os,
    is_reviewed_kept e.chain e.tx_hash w.review_items w'.review_items is,
  )

  pub is_claimed-Later :
      (chain tx : String) (w w' : Database D)
      → Later w w'
      → is_claimed chain tx w.orders ≡ true
      → is_claimed chain tx w'.orders ≡ true
  is_claimed-Later chain tx w w' h = is_claimed_kept chain tx w.orders w'.orders h.orders

  is_recorded-Later :
      (e : TransferEvent D) (w w' : Database D)
      → Later w w'
      → is_recorded e w ≡ true
      → is_recorded e w' ≡ true
  is_recorded-Later e w w' h = is_recorded_kept e w w' h.orders h.review_items

  claimed_recorded :
      (e : TransferEvent D) (w w' : Database D)
      → Later w w'
      → is_claimed e.chain e.tx_hash w.orders ≡ true
      → is_recorded e w' ≡ true
  claimed_recorded e w w' h c = is_recorded-Later e w w' h (rw c refl)

  added :
      (chain tx : String) (reason : ReviewReason) (related : Option ℕ) (a : D) (w : Database D)
      → is_reviewed chain tx (add_review chain tx reason related (some a) w).1.review_items ≡ true
  unfolding add_review is_reviewed
  added chain tx reason related a w = elim (Bool-cases (is_reviewed chain tx w.review_items)) [
    | inl old ↦ rw (old, old) refl
    | inr new ↦
        rw new
          (any-last _ w.review_items (rw ((eq_iff chain chain).1 refl, (eq_iff tx tx).1 refl) refl))
  ]

  reviewed :
      (chain tx : String) (amount : D) (reason : ReviewReason) (related : Option ℕ) (w : Database D)
      {a : D}
      → dec.column amount ≡ some a
      → w.fails Statement.log_review_item ≡ false
      → is_reviewed chain tx (log_review_item chain tx amount reason related w).1.review_items
        ≡ true
  unfolding log_review_item wrap statement
  reviewed chain tx amount reason related w fits up =
      rw (up, fits) (added chain tx reason related _ w)

  still_up :
      {st : Statement} {w w' : Database D} → Later w w' → w.fails st ≡ false → w'.fails st ≡ false
  still_up h up = rw h.fails up

module _ {D : Type 0} ⦃dec : Decimals D⦄ (s : Settings D) (e : TransferEvent D) {a : D}
    (fits : dec.column e.amount ≡ some a) where
  -- The code runs without an error from this state, with the review queue up: the transfer is
  -- recorded at its end.
  abbrev Records : Action D Error Unit → Database D → Type 0
  Records m w =
      (m w).0 ≡ ok tt → w.fails Statement.log_review_item ≡ false → is_recorded e (m w).1 ≡ true

  -- The order that a claim handed over holds the transfer.
  abbrev Holds : Option (Order D) → Database D → Type 0
  Holds found w = (o : Order D) → found ≡ some o → is_claimed e.chain e.tx_hash w.orders ≡ true

  on_unmatched_lem : (w : Database D) → Records (on_unmatched e) w
  unfolding on_unmatched ignore ◌>>=◌
  on_unmatched_lem w done up = or_else_true _ (
      reviewed e.chain e.tx_hash e.amount reason_unmatched none _ fits
        (still_up ((log-Later none e.chain e.tx_hash "transfer_unmatched" _).at w) up))

  after_underpaid_lem :
      (o : Option (Order D)) (w : Database D) → Holds o w → Records (after_underpaid e o) w
  unfolding after_underpaid
  after_underpaid_lem none w h done up = on_unmatched_lem w done up
  after_underpaid_lem (some o) w h done up =
      claimed_recorded e w _ ((after_underpaid-Follows Statements-Later e (some o)).at w) (h o refl)

  after_exact_lem :
      (o : Option (Order D)) (w : Database D) → Holds o w → Records (after_exact s e o) w
  unfolding after_exact
  after_exact_lem (some o) w h done up =
      claimed_recorded e w _ ((after_exact-Follows Statements-Later s e (some o)).at w) (h o refl)
  after_exact_lem none w h done up =
      let (short, did, next) = bound _ (after_underpaid e) w done in
      rw next (
        after_underpaid_lem short _
          (λ o q. underpaid_claimed e.chain e.tx_hash e.amount e.block_height _ w (rw q at did))
          (rw next at done)
          (still_up ((claim_underpaid-Later e.chain e.tx_hash e.amount e.block_height _).at w) up))

  unless_claimed_lem :
      (claimed : Bool) (w : Database D)
      → (claimed ≡ true → is_claimed e.chain e.tx_hash w.orders ≡ true)
      → Records (unless_claimed s e claimed) w
  unfolding unless_claimed on_new pure
  unless_claimed_lem true w h done up = rw (h refl) refl
  unless_claimed_lem false w h done up =
      let (exact, did, next) = bound _ (after_exact s e) w done in
      rw next (
        after_exact_lem exact _
          (λ o q.
            exact_claimed e.chain e.tx_hash e.amount e.block_height e.confirmations s.tolerance w
              (rw q at did))
          (rw next at done)
          (still_up
            ((claim_exact_match-Later e.chain e.tx_hash e.amount e.block_height e.confirmations
                s.tolerance).at
              w)
            up))

  after_update_lem :
      (o : Option (Order D)) (w : Database D) → Holds o w → Records (after_update s e o) w
  unfolding after_update tx_already_claimed
  after_update_lem (some o) w h done up =
      claimed_recorded e w _ ((after_update-Follows Statements-Later s e (some o)).at w) (h o refl)
  after_update_lem none w h done up =
      let (claimed, did, next) = bound _ (unless_claimed s e) w done in
      let (answer, same) = read_only check_tx_failed Statement.tx_already_claimed _ w did in
      rw (next, same) (unless_claimed_lem claimed w (λ q. answer ∙ q) (rw (next, same) at done) up)

  settle_lem : (w : Database D) → Records (settle s e) w
  unfolding settle
  settle_lem w done up =
      let (known, did, next) = bound _ (after_update s e) w done in
      let later =
        (update_confirmations-Later e.chain e.tx_hash e.block_height e.confirmations).at w in
      rw next (
        after_update_lem known _
          (λ o q.
            is_claimed-Later e.chain e.tx_hash w _ later
              (updated_claimed e.chain e.tx_hash e.block_height e.confirmations w (rw q at did)))
          (rw next at done) (still_up later up))

  -- A transfer that OnTransfer has handled without an error is, at the end, held by an order of its
  -- chain or listed in the review queue, if the statement that writes to the queue does not fail
  -- and the amount fits the NUMERIC(20,8) column.
  pub nothing_dropped :
      (w : Database D)
      → (on_transfer s e w).0 ≡ ok tt
      → w.fails Statement.log_review_item ≡ false
      → is_recorded e (on_transfer s e w).1 ≡ true
  unfolding on_transfer
  nothing_dropped w done up =
      let (observed, did, next) = bound _ (λ _. settle s e) w done in
      let later =
        (ignore-Follows Later-preorder (log-Later none e.chain e.tx_hash "transfer_observed" _)).at
          w in
      rw next (settle_lem _ (rw next at done) (still_up later up))
