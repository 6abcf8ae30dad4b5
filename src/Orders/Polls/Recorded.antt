-- ===== src/Orders/Polls/Recorded.antt =====
-- A poll of an EVM watcher while nothing fails, from the logs of the new blocks to the tables.
use frpay.Prelude.{
  ℤ, String, ◌≡◌, refl, subst, Bool, true, false, some, List, [], ◌∷◌, Memᴰ, Dict, lookup,
  fits_int32, ltb, length, lookup-insert, is_some, eq_iff,
}
use frpay.Decimal.{Decimals}
use frpay.Store.{Database, IsPreorder}
use frpay.Chains.Watcher.{TransferEvent}
use frpay.Chains.Pending.{refresh_items}
use frpay.Chains.Evm.Types.{RpcLog, parse_hex_big_int, parse_hex_quantity}
use frpay.Chains.Evm.Watcher.{Watcher, Node, Seen, add_log, handle_log, handle_logs}
use frpay.Chains.Evm.Scan.{scan_new_logs}
use frpay.Chains.Evm.Kept.{handle_logs-KeepsKeys}
use frpay.Chains.Evm.Only.{scan_new_logs_by}
use frpay.Orders.Service.{Settings, on_transfer}
use frpay.Orders.Lifecycle.Transfers.{on_transfer-Later}
use frpay.Orders.Runs.{Persists}
use frpay.Orders.Polls.{refresh_items-Persists}
use frpay.Orders.Accounting.{is_recorded}
use frpay.Orders.Accounting.Recorded.{is_recorded_kept}
use frpay.Orders.Accounting.Returned.{IsCalm, IsCalm-Later, always_recorded}

module _ {D : Type 0} ⦃dec : Decimals D⦄ where
  -- The columns take the amount and the count of confirmations.
  pub record Fits (e : TransferEvent D) : Type 0 where
    pub received : D
    pub amount : dec.column e.amount ≡ some received
    pub counts : fits_int32 e.confirmations ≡ true

  is_recorded-Persists :
      (e : TransferEvent D) (w w' : Database D)
      → Persists w w'
      → is_recorded e w ≡ true
      → is_recorded e w' ≡ true
  is_recorded-Persists e w w' h = is_recorded_kept e w w' h.orders h.review_items

  module _ {I : Type 0} (s : Settings D) (report : String → I → TransferEvent D)
      (settled : I → Bool) where
    -- One round over the transfers that wait, this one among them.
    pub refresh_records :
        (items p : Dict I) (tx : String) (it : I) (w : Database D)
        → IsCalm w
        → Memᴰ (tx, it) items
        → Fits (report tx it)
        → is_recorded (report tx it) (refresh_items (on_transfer s) report settled items p w).1
          ≡ true
    unfolding refresh_items
    refresh_records [] p tx it w c k f = elim k [ ]
    refresh_records ((k, v) ∷ items) p tx it w c (Memᴰ.head e) f =
        let rest =
          refresh_items-Persists s report settled items _ (on_transfer s (report k v) w).1 in
        is_recorded-Persists (report tx it) _ _ rest (
          subst (λ x. is_recorded (report tx it) (on_transfer s (report x.0 x.1) w).1 ≡ true) e
            (always_recorded s (report tx it) f.amount f.counts w c.up c.rows).1)
    refresh_records ((k, v) ∷ items) p tx it w c (Memᴰ.tail m) f =
        refresh_records items _ tx it _ (IsCalm-Later w _ (on_transfer-Later s (report k v) w) c) m
          f

  abbrev pub Calms : Database D → Database D → Type 0
  Calms w w' = IsCalm w → IsCalm w'

  pub Calms-preorder : IsPreorder Calms
  Calms-preorder = record { reflexive = λ w h. h; transitive = λ a b c h k x. k (h x) }

  pub scan-Calms :
      (t : ℤ) (node : Node) (latest : ℤ) (w : Watcher D) (db : Database D)
      → IsCalm db
      → IsCalm (scan_new_logs t node latest w db).2
  scan-Calms = scan_new_logs_by Calms Calms-preorder (λ w cs c. record { up = c.up; rows = c.rows })

  -- The log is of a transfer, and its hash waits once it is handled.
  handle_log-adds :
      (l : RpcLog) (p : Dict (Seen D)) {raw height : ℤ}
      → ltb (length l.topics) 3 ≡ false
      → parse_hex_big_int l.log_data ≡ some raw
      → parse_hex_quantity l.block_number ≡ some height
      → is_some (lookup l.transaction_hash (handle_log l p)) ≡ true
  unfolding handle_log add_log
  handle_log-adds l p whole value block =
      rw
        (
          whole,
          value,
          block,
          lookup-insert l.transaction_hash l.transaction_hash _ p,
          (eq_iff l.transaction_hash l.transaction_hash).1 refl,
        )
        refl

  pub handle_logs-adds :
      (ls : List RpcLog) (l : RpcLog) (p : Dict (Seen D)) {raw height : ℤ}
      → Memᴰ l ls
      → ltb (length l.topics) 3 ≡ false
      → parse_hex_big_int l.log_data ≡ some raw
      → parse_hex_quantity l.block_number ≡ some height
      → is_some (lookup l.transaction_hash (handle_logs ls p)) ≡ true
  unfolding handle_logs
  handle_logs-adds [] l p m whole value block = elim m [ ]
  handle_logs-adds (k ∷ ls) l p (Memᴰ.head e) whole value block =
      handle_logs-KeepsKeys ls (handle_log k p) l.transaction_hash (
        subst (λ x. is_some (lookup l.transaction_hash (handle_log x p)) ≡ true) e
          (handle_log-adds l p whole value block))
  handle_logs-adds (k ∷ ls) l p (Memᴰ.tail m) whole value block =
      handle_logs-adds ls l (handle_log k p) m whole value block
