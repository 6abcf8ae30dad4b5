-- ===== src/Orders/Polls/Confirms.antt =====
-- A poll while nothing fails: every transfer that the watcher waits for is reported, and an order that
-- waits with it, and requires no more confirmations than are reported, is confirmed.
use frpay.Prelude.{
  pos_part, neg_part, ℤ, String, eq_iff, str_eq, ◌≡◌, refl, ap, ◌∙◌, sym, subst, arith, Bool, true,
  false, some, List, [], ◌∷◌, Memᴰ, Dict, lookup, fits_int32, ◌≤ℤ◌, Extends, Bool-cases, inl, inr,
  ◌⊎◌,
}
use frpay.Decimal.{Decimals}
use frpay.Store.{Order, Database, Statement, Status, confirming, confirmed, consistent}
use frpay.Chains.Watcher.{TransferEvent}
use frpay.Chains.Pending.{refresh_items}
use frpay.Orders.Service.{Settings, on_transfer}
use frpay.Orders.Lifecycle.{Progress, Progress-trans, IsWellFormed, Later, may_become}
use frpay.Orders.Lifecycle.Transfers.{on_transfer-Later}
use frpay.Orders.Runs.{of_Later, Persists, extends-final}
use frpay.Orders.Polls.{refresh_items-Persists}
use frpay.Orders.Accounting.Confirmed.{deep_transfer_confirmed}

pub mem-lookup :
    {I : Type 0} (k : String) (it : I) (m : Dict I) → lookup k m ≡ some it → Memᴰ (k, it) m
unfolding lookup
mem-lookup k it [] h = cc
mem-lookup k it ((j, v) ∷ m) h = elim (Bool-cases (str_eq j k)) [
  | inl same ↦ Memᴰ.head (ground (arith, eq_iff j k))
  | inr other ↦ Memᴰ.tail (mem-lookup k it m (rw other at h))
]

-- A confirming order goes on to wait or is confirmed.
on_its_way :
    (a b : Status) → a ≡ confirming → may_become a b ≡ true → (b ≡ confirming) ⊎ (b ≡ confirmed)
on_its_way a b h m = ground arith

module _ {D : Type 0} ⦃dec : Decimals D⦄ where
  Extends-mem :
      (xs ys : List (Order D)) {o : Order D}
      → Extends Progress xs ys
      → Memᴰ o xs
      → (p : Order D) × Memᴰ p ys × Progress o p
  Extends-mem [] ys h m = elim m [ ]
  Extends-mem (x ∷ xs) [] h m = absurd h
  Extends-mem (x ∷ xs) (y ∷ ys) h (Memᴰ.head e) =
      (y, Memᴰ.head refl, subst (λ z. Progress z y) (sym e) h.0)
  Extends-mem (x ∷ xs) (y ∷ ys) h (Memᴰ.tail m) =
      let (p, k, q) = Extends-mem xs ys h.1 m in (p, Memᴰ.tail k, q)

  -- The order `o`, as it is now, is in the table.
  abbrev pub Holds : Order D → Database D → Type 0
  Holds o w = (p : Order D) × Memᴰ p w.orders × Progress o p

  -- It is confirmed by now.
  abbrev pub HoldsConfirmed : Order D → Database D → Type 0
  HoldsConfirmed o w = (p : Order D) × Memᴰ p w.orders × (p.status ≡ confirmed) × Progress o p

  pub confirmed_stays :
      (o : Order D) (w w' : Database D) → Persists w w' → HoldsConfirmed o w → HoldsConfirmed o w'
  confirmed_stays o w w' h (p, m, c, q) =
      (p, extends-final w.orders w'.orders h.orders m (rw c refl), c, q)

  -- Nothing fails, and the order is there.
  pub record IsUp (o : Order D) (w : Database D) : Type 0 where
    pub up : (st : Statement) → w.fails st ≡ false
    pub rows : consistent w.orders ≡ true
    pub there : Holds o w

  IsUp-Later : (o : Order D) (w w' : Database D) → Later w w' → IsUp o w → IsUp o w'
  IsUp-Later o w w' h u = record {
    up = λ st. ap (λ f. f st) h.fails ∙ u.up st;
    rows = h.consistent_orders u.rows;
    there =
        let (p, m, q) = u.there in
        let (p', m', q') = Extends-mem w.orders w'.orders h.orders m in
        (p', m', Progress-trans o p p' q q');
  }

  -- The event is of the order's transfer, with the confirmations that the order requires.
  pub record Reaches (o : Order D) (tx : String) (e : TransferEvent D) : Type 0 where
    pub chain : e.chain ≡ o.chain
    pub tx_hash : e.tx_hash ≡ tx
    pub counts : fits_int32 e.confirmations ≡ true
    pub deep : o.required_confirmations ≤ℤ e.confirmations

module _ {D : Type 0} ⦃dec : Decimals D⦄ (s : Settings D) (o : Order D) (tx : String)
    (well : IsWellFormed o) (waits : o.status ≡ confirming) (held : o.tx_hash ≡ some tx) where
  not_yet :
      (p : Order D)
      → Progress o p
      → p.status ≡ confirming
      → (n : ℤ) → o.required_confirmations ≤ℤ n
      → p.confirmations ≤ℤ n
  not_yet p q still n deep =
      let (hash, amount, time, below) = rw still at (q.well_formed well) in
      omega (arith, ap pos_part q.required_confirmations, ap neg_part q.required_confirmations)

  -- OnTransfer on it.
  confirms :
      (e : TransferEvent D) (w : Database D)
      → IsUp o w
      → Reaches o tx e
      → HoldsConfirmed o (on_transfer s e w).1
  confirms e w u r =
      let (p, m, q) = u.there in
      elim (on_its_way o.status p.status waits q.status) [
        | inl still ↦
            let short : p.confirmations ≤ℤ e.confirmations =
              not_yet p q still e.confirmations r.deep in
            let (p', m', c', q') =
              deep_transfer_confirmed s e w p (u.up Statement.update_confirmations) r.counts u.rows
                m (q.chain ∙ sym r.chain)
                (q.tx_hash (rw held refl) ∙ held ∙ ap some (sym r.tx_hash)) still short
                (rw q.required_confirmations r.deep) in
            (p', m', c', Progress-trans o p p' q q')
        | inr done ↦ confirmed_stays o w _ (of_Later (on_transfer-Later s e w)) (p, m, done, q)
      ]

  module _ {I : Type 0} (report : String → I → TransferEvent D) (settled : I → Bool) where
    -- One round over the transfers that wait, this one among them.
    pub refresh_confirms :
        (items p : Dict I) (it : I) (w : Database D)
        → IsUp o w
        → Memᴰ (tx, it) items
        → Reaches o tx (report tx it)
        → HoldsConfirmed o (refresh_items (on_transfer s) report settled items p w).1
    unfolding refresh_items
    refresh_confirms [] p it w u k r = elim k [ ]
    refresh_confirms ((k, v) ∷ items) p it w u (Memᴰ.head e) r =
        confirmed_stays o _ _ (refresh_items-Persists s report settled items _ _) (
          subst (λ x. HoldsConfirmed o (on_transfer s (report x.0 x.1) w).1) e
            (confirms (report tx it) w u r))
    refresh_confirms ((k, v) ∷ items) p it w u (Memᴰ.tail m) r =
        refresh_confirms items _ it _ (IsUp-Later o w _ (on_transfer-Later s (report k v) w) u) m r
