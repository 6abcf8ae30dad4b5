-- ===== src/Orders/Lifecycle.antt =====
-- The lifecycle of docs.md ("Order lifecycle"): which states an order may come to, and what an
-- order keeps on its way.
pub mod Methods
pub mod Underpayment
pub mod Trail
pub mod Creation
pub mod Transfers
pub mod Lapse
use frpay.Prelude.{
  ◌<ℤ◌, All, ◌≤ℤ◌, ◌≡◌, refl, ◌∙◌, arith, Bool, true, false, List, Extends, Extends-refl,
  Extends-trans,
}
use frpay.Decimal.{Decimals}
use frpay.Store.{
  consistent, Status, pending, confirming, confirmed, underpaid, expired, Order, Database, is_null,
  IsPreorder,
}

-- The arrows of the diagram, one or more of them, or none.
abbrev pub may_become : Status → Status → Bool
may_become pending _ = true
may_become confirming confirming = true
may_become confirming confirmed = true
may_become confirmed confirmed = true
may_become underpaid underpaid = true
may_become expired expired = true
may_become _ _ = false

abbrev pub is_final : Status → Bool
is_final pending = false
is_final confirming = false
is_final _ = true

-- What the fields of an order hold, by its status.
abbrev pub Shape : {D : Type 0} → Status → Order D → Type 0
Shape pending o =
    (is_null o.tx_hash ≡ true)
    × (is_null o.received_amount ≡ true)
    × (is_null o.confirmed_at ≡ true)
Shape confirming o =
    (is_null o.tx_hash ≡ false)
    × (is_null o.received_amount ≡ false)
    × (is_null o.confirmed_at ≡ true)
    × (o.confirmations <ℤ o.required_confirmations)
Shape confirmed o =
    (is_null o.tx_hash ≡ false)
    × (is_null o.received_amount ≡ false)
    × (is_null o.confirmed_at ≡ false)
    × (o.required_confirmations ≤ℤ o.confirmations)
Shape underpaid o =
    (is_null o.tx_hash ≡ false)
    × (is_null o.received_amount ≡ false)
    × (is_null o.confirmed_at ≡ true)
Shape expired o =
    (is_null o.tx_hash ≡ true)
    × (is_null o.received_amount ≡ true)
    × (is_null o.confirmed_at ≡ true)

-- An order waits for a transfer, waits for confirmations or has them, and has the fields that say so.
abbrev pub IsWellFormed : {D : Type 0} → Order D → Type 0
IsWellFormed o = Shape o.status o

-- `p` is the order `o`, at the same time or later.
pub record Progress {D : Type 0} (o p : Order D) : Type 0 where
  -- what was agreed with the customer stays
  pub id : p.id ≡ o.id
  pub user_id : p.user_id ≡ o.user_id
  pub chain : p.chain ≡ o.chain
  pub token : p.token ≡ o.token
  pub base_amount_usd : p.base_amount_usd ≡ o.base_amount_usd
  pub expected_amount : p.expected_amount ≡ o.expected_amount
  pub required_confirmations : p.required_confirmations ≡ o.required_confirmations
  pub created_at : p.created_at ≡ o.created_at
  pub expires_at : p.expires_at ≡ o.expires_at
  -- the status follows the arrows, and a final one is the row's last
  pub status : may_become o.status p.status ≡ true
  pub final : is_final o.status ≡ true → p ≡ o
  -- a claimed order keeps its transfer, and its count never falls
  pub tx_hash : is_null o.tx_hash ≡ false → p.tx_hash ≡ o.tx_hash
  pub received_amount : is_null o.tx_hash ≡ false → p.received_amount ≡ o.received_amount
  pub confirmations : is_null o.tx_hash ≡ false → o.confirmations ≤ℤ p.confirmations
  -- and a well-formed order stays one
  pub well_formed : IsWellFormed o → IsWellFormed p

may_become_trans :
    (a b c : Status) → may_become a b ≡ true → may_become b c ≡ true → may_become a c ≡ true
may_become_trans a b c h k = ground arith

module _ {D : Type 0} where
  pub Progress-refl : (o : Order D) → Progress o o
  Progress-refl o = ground arith

  pub Progress-trans : (o p q : Order D) → Progress o p → Progress p q → Progress o q
  Progress-trans o p q h k = record {
    id = k.id ∙ h.id;
    user_id = k.user_id ∙ h.user_id;
    chain = k.chain ∙ h.chain;
    token = k.token ∙ h.token;
    base_amount_usd = k.base_amount_usd ∙ h.base_amount_usd;
    expected_amount = k.expected_amount ∙ h.expected_amount;
    required_confirmations = k.required_confirmations ∙ h.required_confirmations;
    created_at = k.created_at ∙ h.created_at;
    expires_at = k.expires_at ∙ h.expires_at;
    status = may_become_trans o.status p.status q.status h.status k.status;
    final = λ f. k.final (rw (h.final f) f) ∙ h.final f;
    tx_hash = λ n. k.tx_hash (rw (h.tx_hash n) n) ∙ h.tx_hash n;
    received_amount = λ n. k.received_amount (rw (h.tx_hash n) n) ∙ h.received_amount n;
    confirmations = λ n. omega (arith, h.confirmations n, k.confirmations (rw (h.tx_hash n) n));
    well_formed = λ n. k.well_formed (h.well_formed n);
  }

-- What any method may do to the database: rows only progress, and nothing is taken out of a table.
-- The clock, the locks of others and the outages are not the service's.
pub record Later {D : Type 0} ⦃dec : Decimals D⦄ (w w' : Database D) : Type 0 where
  pub orders : Extends Progress w.orders w'.orders
  -- the tables stay well-formed, and the indexes of `orders` stay enforced
  pub well_formed : All IsWellFormed w.orders → All IsWellFormed w'.orders
  pub consistent_orders : consistent w.orders ≡ true → consistent w'.orders ≡ true
  pub review_items : Extends ◌≡◌ w.review_items w'.review_items
  pub audit_log : Extends ◌≡◌ w.audit_log w'.audit_log
  pub cursors : w'.cursors ≡ w.cursors
  pub now : w'.now ≡ w.now
  pub locked : w'.locked ≡ w.locked
  pub fails : w'.fails ≡ w.fails

pub same_refl : {A : Type 0} (xs : List A) → Extends ◌≡◌ xs xs
same_refl xs = Extends-refl ◌≡◌ (λ x. refl) xs

pub same_trans :
    {A : Type 0} (xs ys zs : List A) → Extends ◌≡◌ xs ys → Extends ◌≡◌ ys zs → Extends ◌≡◌ xs zs
same_trans = Extends-trans ◌≡◌ (λ x y z p q. p ∙ q)

module _ {D : Type 0} ⦃dec : Decimals D⦄ where
  pub Later-preorder : IsPreorder (Later {D = D})
  Later-preorder = record {
    reflexive = λ w. record {
      orders = Extends-refl Progress Progress-refl w.orders;
      well_formed = λ h. h;
      consistent_orders = λ h. h;
      review_items = same_refl w.review_items;
      audit_log = same_refl w.audit_log;
      cursors = refl;
      now = refl;
      locked = refl;
      fails = refl;
    };
    transitive = λ u v w h k. record {
      orders = Extends-trans Progress Progress-trans u.orders v.orders w.orders h.orders k.orders;
      well_formed = λ x. k.well_formed (h.well_formed x);
      consistent_orders = λ x. k.consistent_orders (h.consistent_orders x);
      review_items =
          same_trans u.review_items v.review_items w.review_items h.review_items k.review_items;
      audit_log = same_trans u.audit_log v.audit_log w.audit_log h.audit_log k.audit_log;
      cursors = k.cursors ∙ h.cursors;
      now = k.now ∙ h.now;
      locked = k.locked ∙ h.locked;
      fails = k.fails ∙ h.fails;
    };
  }
