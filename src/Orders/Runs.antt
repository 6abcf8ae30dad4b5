-- ===== src/Orders/Runs.antt =====
-- The service under concurrency: the goroutines of the watchers, the HTTP handlers and the expiry job
-- send their statements in any order, each of them atomic, and the rest of the world moves the clock,
-- the locks and the outages between them.
use frpay.Prelude.{
  ◌∷◌, ◌∙◌, Memᴰ, refl, [], true, ◌≡◌, Extends, All, Extends-trans, Extends-refl, false, ◌≤ℤ◌,
  All-mem, sym, some, ℕ, ℤ, String, Bool, Option, List,
}
use frpay.Decimal.{Decimals}
use frpay.Store.{
  IsPreorder, Follows, consistent, read-cases, Order, confirmed, is_null, tx_unique, Detail, Cursor,
  ReviewReason, Statement, Database,
}
use frpay.Audit.{log}
use frpay.Chains.Cursors.{get_cursor, set_cursor}
use frpay.Chains.Cursors.Only.{get_cursor_by, set_cursor_by}
use frpay.Orders.Repository.{
  check_tx_failed, tx_already_claimed, Draw, new_order, try_insert, update_confirmations,
  claim_exact_match, claim_underpaid, log_review_item, expire_past_due,
}
use frpay.Orders.Composition.{Statements}
use frpay.Orders.Lifecycle.{
  Progress, Progress-refl, Progress-trans, IsWellFormed, Later, Later-preorder, is_final, same_refl,
  same_trans,
}
use frpay.Orders.Lifecycle.Transfers.{Statements-Later}

module _ {D : Type 0} ⦃dec : Decimals D⦄ where
  -- One statement of any goroutine, or a move of the environment.
  pub data Step (w : Database D) : Database D → Type 0 where
    logs :
        (id : Option ℕ) (chain tx event_type : String) (details : List (String × Detail))
        → Step w (log id chain tx event_type details w).1
    inserts :
        (d : Draw) (user_id chain : String) (base : D) (required expiry offset : ℤ)
        → Step w (try_insert (new_order d user_id chain base required expiry offset) w).1
    updates :
        (chain tx : String) (height n : ℤ) → Step w (update_confirmations chain tx height n w).1
    claims_exact :
        (chain tx : String) (amount : D) (height n : ℤ) (tolerance : D)
        → Step w (claim_exact_match chain tx amount height n tolerance w).1
    claims_underpaid :
        (chain tx : String) (amount : D) (height : ℤ) (max_gap : D)
        → Step w (claim_underpaid chain tx amount height max_gap w).1
    reviews :
        (chain tx : String) (amount : D) (reason : ReviewReason) (related : Option ℕ)
        → Step w (log_review_item chain tx amount reason related w).1
    expires : Step w (expire_past_due w).1
    reads_cursor : (chain : String) → Step w (get_cursor chain w).1
    saves_cursor : (chain : String) (height at : ℤ) → Step w (set_cursor chain height at w).1
    environment :
        (now : ℤ) (locked : ℕ → Bool) (fails : Statement → Bool)
        → Step w (record w { now = now; locked = locked; fails = fails })

  pub data Run (u : Database D) : Database D → Type 0 where
    start : Run u u
    then_step : {v w : Database D} → Run u v → Step v w → Run u w

  pub Run-trans : {u v w : Database D} → Run u v → Run v w → Run u w
  Run-trans r start = r
  Run-trans r (then_step q s) = then_step (Run-trans r q) s

  pub Run-preorder : IsPreorder Run
  Run-preorder = record { reflexive = λ w. start; transitive = λ u v w r q. Run-trans r q }

  finds-Run : (chain tx : String) → Follows Run (tx_already_claimed chain tx)
  unfolding tx_already_claimed
  finds-Run chain tx = record {
    at = λ w.
        read-cases check_tx_failed Statement.tx_already_claimed _ w (λ r. Run w r.1) start start;
  }

  -- The statements of the service are steps, so its operations are runs.
  pub Statements-Run : Statements Run
  Statements-Run = record {
    preorder = Run-preorder;
    logs = λ id chain tx kind details. record {
      at = λ w. then_step start (logs id chain tx kind details);
    };
    inserts = λ d u c b r x o. record { at = λ w. then_step start (inserts d u c b r x o) };
    updates = λ c t h n. record { at = λ w. then_step start (updates c t h n) };
    finds = finds-Run;
    claims_exact = λ c t a h n e. record { at = λ w. then_step start (claims_exact c t a h n e) };
    claims_underpaid =
        λ c t a h g. record { at = λ w. then_step start (claims_underpaid c t a h g) };
    reviews = λ c t a r o. record { at = λ w. then_step start (reviews c t a r o) };
    expires = record { at = λ w. then_step start expires };
  }

-- What a run keeps, whatever happens in it.
pub record Persists {D : Type 0} ⦃dec : Decimals D⦄ (w w' : Database D) : Type 0 where
  pub orders : Extends Progress w.orders w'.orders
  pub well_formed : All IsWellFormed w.orders → All IsWellFormed w'.orders
  pub consistent_orders : consistent w.orders ≡ true → consistent w'.orders ≡ true
  pub review_items : Extends ◌≡◌ w.review_items w'.review_items
  pub audit_log : Extends ◌≡◌ w.audit_log w'.audit_log

module _ {D : Type 0} ⦃dec : Decimals D⦄ where
  pub of_Later : {w w' : Database D} → Later w w' → Persists w w'
  of_Later h = record {
    orders = h.orders;
    well_formed = h.well_formed;
    consistent_orders = h.consistent_orders;
    review_items = h.review_items;
    audit_log = h.audit_log;
  }

  pub Persists-trans : (u v w : Database D) → Persists u v → Persists v w → Persists u w
  Persists-trans u v w h k = record {
    orders = Extends-trans Progress Progress-trans u.orders v.orders w.orders h.orders k.orders;
    well_formed = λ x. k.well_formed (h.well_formed x);
    consistent_orders = λ x. k.consistent_orders (h.consistent_orders x);
    review_items =
        same_trans u.review_items v.review_items w.review_items h.review_items k.review_items;
    audit_log = same_trans u.audit_log v.audit_log w.audit_log h.audit_log k.audit_log;
  }

  -- What the rest of the world decides is written.
  outside_only :
      (w : Database D) (cs : List Cursor) (now : ℤ) (locked : ℕ → Bool) (fails : Statement → Bool)
      → Persists w (record w { cursors = cs; now = now; locked = locked; fails = fails })
  outside_only w cs now locked fails = record {
    orders = Extends-refl Progress Progress-refl w.orders;
    well_formed = λ h. h;
    consistent_orders = λ h. h;
    review_items = same_refl w.review_items;
    audit_log = same_refl w.audit_log;
  }

  -- Only the cursors are written.
  pub cursors_only : (w : Database D) (cs : List Cursor) → Persists w (record w { cursors = cs })
  cursors_only w cs = outside_only w cs w.now w.locked w.fails

  pub Persists-preorder : IsPreorder (Persists {D = D})
  Persists-preorder = record {
    reflexive = λ w. cursors_only w w.cursors;
    transitive = Persists-trans;
  }

  Step-Persists : {w w' : Database D} → Step w w' → Persists w w'
  Step-Persists {w} (logs i c t k d) = of_Later ((Statements-Later.logs i c t k d).at w)
  Step-Persists {w} (inserts d u c b r x o) =
      of_Later ((Statements-Later.inserts d u c b r x o).at w)
  Step-Persists {w} (updates c t h n) = of_Later ((Statements-Later.updates c t h n).at w)
  Step-Persists {w} (claims_exact c t a h n e) =
      of_Later ((Statements-Later.claims_exact c t a h n e).at w)
  Step-Persists {w} (claims_underpaid c t a h g) =
      of_Later ((Statements-Later.claims_underpaid c t a h g).at w)
  Step-Persists {w} (reviews c t a r o) = of_Later ((Statements-Later.reviews c t a r o).at w)
  Step-Persists {w} expires = of_Later (Statements-Later.expires.at w)
  Step-Persists {w} (reads_cursor c) = get_cursor_by Persists Persists-preorder cursors_only c w
  Step-Persists {w} (saves_cursor c h t) =
      set_cursor_by Persists Persists-preorder cursors_only c h t w
  Step-Persists {w} (environment now locked fails) = outside_only w w.cursors now locked fails

  -- However the statements of all goroutines interleave, and however the clock, the locks and the
  -- outages move between them, every order only progresses: it keeps what was agreed, follows the
  -- arrows of the lifecycle and, once claimed, keeps its transfer while its count of confirmations
  -- never falls. The orders stay well-formed and consistent if they were, and neither the review
  -- queue nor the audit trail loses an entry.
  pub Run-Persists : {u v : Database D} → Run u v → Persists u v
  Run-Persists {u} start = of_Later (Later-preorder.reflexive u)
  Run-Persists {u} (then_step {v} {w} r s) = Persists-trans u v w (Run-Persists r) (Step-Persists s)

  pub extends-final :
      (xs ys : List (Order D)) {o : Order D}
      → Extends Progress xs ys
      → Memᴰ o xs
      → is_final o.status ≡ true
      → Memᴰ o ys
  extends-final [] ys h m f = elim m [ ]
  extends-final (x ∷ xs) [] h m f = absurd h
  extends-final (x ∷ xs) (y ∷ ys) h (Memᴰ.head e) f = Memᴰ.head (e ∙ sym (h.0.final (rw (← e) f)))
  extends-final (x ∷ xs) (y ∷ ys) h (Memᴰ.tail m) f = Memᴰ.tail (extends-final xs ys h.1 m f)

  -- A row whose status is confirmed, underpaid or expired is never written again: it stands in
  -- every later state of a run as it is.
  pub final_forever :
      {u v : Database D} {o : Order D}
      → Run u v
      → Memᴰ o u.orders
      → is_final o.status ≡ true
      → Memᴰ o v.orders
  final_forever {u} {v} r m f = extends-final u.orders v.orders (Run-Persists r).orders m f

  -- Starting from an empty database, however the statements of the service interleave, no two
  -- orders of a chain hold the same transfer.
  pub no_double_credit :
      {u v : Database D} {o p : Order D} {tx : String}
      → u.orders ≡ []
      → Run u v
      → Memᴰ o v.orders
      → Memᴰ p v.orders
      → o.chain ≡ p.chain
      → o.tx_hash ≡ some tx
      → p.tx_hash ≡ some tx
      → o ≡ p
  unfolding consistent
  no_double_credit {u} {v} e r m k c a b =
      tx_unique v.orders ((Run-Persists r).consistent_orders (rw e refl)) m k c a b

  -- Starting from an empty database, however the statements interleave, a confirmed order has a
  -- transfer, an amount received and a time of confirmation, and at least the confirmations that
  -- were required when it was created.
  pub confirmed_is_paid :
      {u v : Database D} {o : Order D}
      → u.orders ≡ []
      → Run u v
      → Memᴰ o v.orders
      → o.status ≡ confirmed
      → (is_null o.tx_hash ≡ false)
        × (is_null o.received_amount ≡ false)
        × (is_null o.confirmed_at ≡ false)
        × (o.required_confirmations ≤ℤ o.confirmations)
  confirmed_is_paid {u} {v} {o} e r m s =
      rw s at (All-mem IsWellFormed v.orders ((Run-Persists r).well_formed (rw e tt)) m)
