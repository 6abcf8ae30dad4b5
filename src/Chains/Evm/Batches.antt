-- ===== src/Chains/Evm/Batches.antt =====
-- The batches of scanNewLogs, in internal/chains/evm/watcher.go, over a chain given block by block.
use frpay.Prelude.{
  pos_part, ℕ, zero, suc, ℤ, pos, negsuc, ◌+ℤ◌, ◌-ℤ◌, ltb_ℤ, leb_ℤ, int64, ◌≡◌, refl, sym, ap, ◌∙◌,
  arith, true, false, Option, some, List, [], ◌∷◌, ◌++◌, ◌+◌, ◌-◌, ◌^◌, ◌≤◌, ◌<◌, ltb, leb, Dict,
  Bool-cases, inl, inr, if◌then◌else◌,
}
use frpay.Decimal.{Decimals}
use frpay.Store.{Database}
use frpay.Chains.Evm.Types.{RpcLog}
use frpay.Chains.Evm.Watcher.{Watcher, Node, Seen, handle_logs}
use frpay.Chains.Evm.Scan.{
  save_cursor, ask_logs, batch_size, scan_from, reached, batch_end, after_logs, scan_batches,
}

-- The logs of `n` blocks from block `a` on, for a chain given block by block.
unfoldable pub logs_between : (ℕ → List RpcLog) → ℕ → ℕ → List RpcLog
logs_between blocks a zero = []
logs_between blocks a (suc n) = blocks a ++ logs_between blocks (suc a) n

append_assoc : {A : Type 0} (xs ys zs : List A) → (xs ++ ys) ++ zs ≡ xs ++ (ys ++ zs)
append_assoc [] ys zs = refl
append_assoc (x ∷ xs) ys zs = ap (λ l. x ∷ l) (append_assoc xs ys zs)

-- A range, cut after its first `m` blocks.
logs_between-cut :
    (blocks : ℕ → List RpcLog) (a m n b k : ℕ)
    → b ≡ a + m
    → k ≡ m + n
    → logs_between blocks a k ≡ logs_between blocks a m ++ logs_between blocks b n
unfolding logs_between
logs_between-cut blocks a zero n b k h e =
    let kn : k ≡ n = omega arith in let ba : b ≡ a = omega arith in rw (kn, ba) refl
logs_between-cut blocks a (suc m) n b zero h e = absurd (omega arith)
logs_between-cut blocks a (suc m) n b (suc k) h e =
    ap (λ l. blocks a ++ l) (logs_between-cut blocks (suc a) m n b k (omega arith) (omega arith))
    ∙ sym (append_assoc (blocks a) _ _)

abbrev smaller : ℕ → ℕ → ℕ
smaller m n = if ltb m n then m else n

batch_end_lem :
    (l b a : ℕ)
    → a + suc b < 2 ^ 63
    → batch_end (pos l) (pos (suc b)) (pos a) ≡ pos (smaller l (a + b))
unfolding batch_end int64 ◌+ℤ◌ ◌-ℤ◌
batch_end_lem l b a h = ground arith

next_cursor : (e : ℕ) → suc e < 2 ^ 63 → int64 (pos e +ℤ pos 1) ≡ pos (suc e)
unfolding int64 ◌+ℤ◌
next_cursor e h = ground arith

-- The node answers every range of scanned blocks with the logs of its blocks.
abbrev pub Answers : (ℤ → ℤ → Option (List RpcLog)) → (ℕ → List RpcLog) → ℕ → Type 0
Answers ask blocks latest =
    (a b : ℕ) → a ≤ b → b ≤ latest → ask (pos a) (pos b) ≡ some (logs_between blocks a (suc b - a))

batch_size_lem : (z : ℤ) → (b : ℕ) × (batch_size z ≡ pos (suc b))
unfolding batch_size
batch_size_lem (pos zero) = (1999, refl)
batch_size_lem (pos (suc b)) = (b, ground arith)
batch_size_lem (negsuc n) = (1999, ground arith)

enough_fuel : (l a : ℕ) → a ≤ l → suc l - a < suc (suc (pos_part (pos l -ℤ pos a)))
unfolding ◌-ℤ◌
enough_fuel l a h = ground arith

module _ {D : Type 0} ⦃dec : Decimals D⦄ where
  handle_logs-append :
      (xs ys : List RpcLog) (p : Dict (Seen D))
      → handle_logs (xs ++ ys) p ≡ handle_logs ys (handle_logs xs p)
  unfolding handle_logs
  handle_logs-append [] ys p = refl
  handle_logs-append (x ∷ xs) ys p = handle_logs-append xs ys _

  module _ (ask : ℤ → ℤ → Option (List RpcLog)) (blocks : ℕ → List RpcLog) (l b : ℕ)
      (answers : Answers ask blocks l) (small : l + suc b < 2 ^ 63) where
    scan_done :
        (fuel : ℕ) (p : Dict (Seen D))
        → 0 < fuel
        → scan_batches fuel ask (pos l) (pos (suc b)) (pos (suc l)) (pos l) p ≡ (reached (pos l), p)
    unfolding scan_batches
    scan_done zero p h = absurd (omega arith)
    scan_done (suc f) p h =
        let over : leb_ℤ (pos (suc l)) (pos l) ≡ false = ground arith in rw over refl

    scan_step :
        (f a e : ℕ) (last : ℤ) (p : Dict (Seen D))
        → a ≤ l
        → e ≡ smaller l (a + b)
        → scan_batches (suc f) ask (pos l) (pos (suc b)) (pos a) last p
          ≡ scan_batches f ask
              (pos l)
              (pos (suc b))
              (pos (suc e))
              (pos e)
              (handle_logs (logs_between blocks a (suc e - a)) p)
    unfolding scan_batches after_logs
    scan_step f a e last p h q =
        let more : leb_ℤ (pos a) (pos l) ≡ true = ground arith in
        let ae : a ≤ e = ground arith in
        let el : e ≤ l = ground arith in
        let to : batch_end (pos l) (pos (suc b)) (pos a) ≡ pos e =
          batch_end_lem l b a (omega arith) ∙ ap (λ n. pos n) (sym q) in
        rw (more, to, next_cursor e (omega arith), answers a e ae el) refl

    -- With fuel for the blocks that are left, the loop handles the logs of them all, and ends at the
    -- last one.
    scan_batches_lem :
        (fuel a : ℕ) (last : ℤ) (p : Dict (Seen D))
        → a ≤ l
        → suc l - a < fuel
        → scan_batches fuel ask (pos l) (pos (suc b)) (pos a) last p
          ≡ (reached (pos l), handle_logs (logs_between blocks a (suc l - a)) p)
    scan_batches_lem zero a last p h enough = absurd (omega arith)
    scan_batches_lem (suc f) a last p h enough = elim (Bool-cases (leb l (a + b))) [
      | inl last_batch ↦ scan_step f a l last p h (ground arith) ∙ scan_done f _ (omega arith)
      | inr more ↦
          let short : suc (a + b) ≤ l = ground arith in
          scan_step f a (a + b) last p h (ground arith)
          ∙ scan_batches_lem f (suc (a + b)) (pos (a + b)) _ short (omega arith)
          ∙ ap (λ q. (reached (pos l), q))
              (sym (handle_logs-append _ _ p)
                ∙ ap (λ ls. handle_logs ls p)
                    (sym (
                      logs_between-cut blocks a (suc (a + b) - a) (suc l - suc (a + b))
                        (suc (a + b)) (suc l - a) (omega arith) (omega arith))))
    ]

  -- If the node answers every range up to the latest block with the logs of its blocks, and the
  -- latest block and the size of a batch together fit an int64, a scan of the blocks from `a` to
  -- the latest ends: it handles the logs of all those blocks, each once and in order, whatever the
  -- size of a batch is, and then sends the latest block to the cursor store.
  pub scan_from_lem :
      (t : ℤ) (node : Node) (blocks : ℕ → List RpcLog) (l a : ℕ) (w : Watcher D) (db : Database D)
      → Answers (ask_logs node w) blocks l
      → l + pos_part (batch_size w.logs_batch_blocks) < 2 ^ 63
      → a ≤ l
      → scan_from t node (pos l) (pos a) w db
        ≡ save_cursor t w
            (reached (pos l), handle_logs (logs_between blocks a (suc l - a)) w.pending)
            db
  unfolding scan_from
  scan_from_lem t node blocks l a w db answers small h =
      let (b, size) = batch_size_lem w.logs_batch_blocks in
      let new : ltb_ℤ (pos l) (pos a) ≡ false = ground arith in
      rw
        (
          new,
          size,
          scan_batches_lem (ask_logs node w) blocks l b answers (rw size at small)
              (suc (suc (pos_part (pos l -ℤ pos a)))) a (int64 (pos a -ℤ pos 1)) w.pending h
              (enough_fuel l a h),
        )
        refl
