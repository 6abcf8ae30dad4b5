-- ===== src/Chains/Evm/Kept.antt =====
-- What a scan of internal/chains/evm/watcher.go leaves of the watcher: what NewWatcher has set, and every
-- transfer that waits.
use frpay.Prelude.{
  ℕ, zero, suc, ℤ, ltb, length, ltb_ℤ, leb_ℤ, String, ◌≡◌, refl, Bool-cases, inl, inr, Option, none,
  some, List, [], ◌∷◌, Dict,
}
use frpay.Decimal.{Decimals}
use frpay.Store.{Database, Result, ok, err, DbError}
use frpay.Chains.Pending.{KeepsKeys, insert-KeepsKeys}
use frpay.Chains.Cursors.{get_cursor}
use frpay.Chains.Evm.Types.{RpcLog}
use frpay.Chains.Evm.Watcher.{Seen, Watcher, Node, add_log, handle_log, handle_logs}
use frpay.Chains.Evm.Scan.{
  Scan, reached, nothing_new, get_logs_failed, out_of_fuel, load_cursor_failed, save_cursor_failed,
  first_block, after_logs, scan_batches, save_cursor, scan_from, on_cursor, scan_new_logs,
  batch_end,
}

module _ {D : Type 0} where
  pub record Keeps (w w' : Watcher D) : Type 0 where
    pub chain : w'.chain ≡ w.chain
    pub required_confirms : w'.required_confirms ≡ w.required_confirms
    pub pending : KeepsKeys w.pending w'.pending

  Keeps-refl : (w : Watcher D) → Keeps w w
  Keeps-refl w = record { chain = refl; required_confirms = refl; pending = λ tx h. h }

module _ {D : Type 0} ⦃dec : Decimals D⦄ where
  add_log-KeepsKeys :
      (tx : String) (raw height : Option ℤ) (p : Dict (Seen D))
      → KeepsKeys p (add_log tx raw height p)
  unfolding add_log
  add_log-KeepsKeys tx (some raw) (some height) p = insert-KeepsKeys tx _ p
  add_log-KeepsKeys tx (some raw) none p = λ j h. h
  add_log-KeepsKeys tx none height p = λ j h. h

  handle_log-KeepsKeys : (l : RpcLog) (p : Dict (Seen D)) → KeepsKeys p (handle_log l p)
  unfolding handle_log
  handle_log-KeepsKeys l p = elim (Bool-cases (ltb (length l.topics) 3)) [
    | inl short ↦ rw short (λ j h. h)
    | inr whole ↦ rw whole (add_log-KeepsKeys l.transaction_hash _ _ p)
  ]

  pub handle_logs-KeepsKeys :
      (ls : List RpcLog) (p : Dict (Seen D)) → KeepsKeys p (handle_logs ls p)
  unfolding handle_logs
  handle_logs-KeepsKeys [] p j h = h
  handle_logs-KeepsKeys (l ∷ ls) p j h =
      handle_logs-KeepsKeys ls (handle_log l p) j (handle_log-KeepsKeys l p j h)

  after_logs-KeepsKeys :
      (answer : Option (List RpcLog)) (again : Dict (Seen D) → Scan × Dict (Seen D))
      (p : Dict (Seen D))
      → ((q : Dict (Seen D)) → KeepsKeys q (again q).1)
      → KeepsKeys p (after_logs answer again p).1
  unfolding after_logs
  after_logs-KeepsKeys none again p h j k = k
  after_logs-KeepsKeys (some logs) again p h j k =
      h (handle_logs logs p) j (handle_logs-KeepsKeys logs p j k)

  scan_batches-KeepsKeys :
      (fuel : ℕ) (ask : ℤ → ℤ → Option (List RpcLog)) (latest batch cursor last_completed : ℤ)
      (p : Dict (Seen D))
      → KeepsKeys p (scan_batches fuel ask latest batch cursor last_completed p).1
  unfolding scan_batches
  scan_batches-KeepsKeys zero ask latest batch cursor last_completed p = λ j k. k
  scan_batches-KeepsKeys (suc fuel) ask latest batch cursor last_completed p =
      elim (Bool-cases (leb_ℤ cursor latest)) [
        | inl more ↦ rw more (
            after_logs-KeepsKeys _ _ p (λ q.
              scan_batches-KeepsKeys fuel ask latest batch _ (batch_end latest batch cursor) q))
        | inr done ↦ rw done (λ j k. k)
      ]

  save_cursor-Keeps :
      (t : ℤ) (w : Watcher D) (scan : Scan) (p : Dict (Seen D)) (db : Database D)
      → KeepsKeys w.pending p
      → Keeps w (save_cursor t w (scan, p) db).1
  unfolding save_cursor
  save_cursor-Keeps t w (reached n) p db h = record {
    chain = refl;
    required_confirms = refl;
    pending = h;
  }
  save_cursor-Keeps t w nothing_new p db h = record {
    chain = refl;
    required_confirms = refl;
    pending = h;
  }
  save_cursor-Keeps t w get_logs_failed p db h = record {
    chain = refl;
    required_confirms = refl;
    pending = h;
  }
  save_cursor-Keeps t w out_of_fuel p db h = record {
    chain = refl;
    required_confirms = refl;
    pending = h;
  }
  save_cursor-Keeps t w (load_cursor_failed e) p db h = record {
    chain = refl;
    required_confirms = refl;
    pending = h;
  }
  save_cursor-Keeps t w (save_cursor_failed e) p db h = record {
    chain = refl;
    required_confirms = refl;
    pending = h;
  }

  on_cursor-Keeps :
      (t : ℤ) (node : Node) (latest : ℤ) (w : Watcher D) (r : Result DbError (ℤ × Option ℤ))
      (db : Database D)
      → Keeps w (on_cursor t node latest w r db).1
  unfolding on_cursor scan_from
  on_cursor-Keeps t node latest w (err e) db = Keeps-refl w
  on_cursor-Keeps t node latest w (ok (height, at)) db =
      elim (Bool-cases (ltb_ℤ latest (first_block latest height))) [
        | inl up_to_date ↦ rw up_to_date (Keeps-refl w)
        | inr new_blocks ↦
            rw new_blocks
              (save_cursor-Keeps t w _ _ db (scan_batches-KeepsKeys _ _ latest _ _ _ w.pending))
      ]

  pub scan_new_logs-Keeps :
      (t : ℤ) (node : Node) (latest : ℤ) (w : Watcher D) (db : Database D)
      → Keeps w (scan_new_logs t node latest w db).1
  unfolding scan_new_logs
  scan_new_logs-Keeps t node latest w db =
      on_cursor-Keeps t node latest w (get_cursor w.chain db).0 (get_cursor w.chain db).1
