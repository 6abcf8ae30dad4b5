-- ===== src/Chains/Ton/Watcher.antt =====
-- internal/chains/ton/watcher.go and types.go: the watcher's state, and what it does with a transfer.
-- A time of the host is in nanoseconds; the watcher keeps seconds.
use frpay.Prelude.{
  ℤ, pos, negsuc, floor_ℤ, later_of, parse_int, String, refl, ap, Option, none, some, List, [], ◌∷◌,
  Dict, insert,
}
use frpay.Decimal.{Decimals}
use frpay.Config.Load.{TonConfig}
use frpay.Store.{returned, ok}
use frpay.Chains.Watcher.{PendingTransfer, ChainWatcher, ton}
use frpay.Chains.Pending.{add_unseen}

pub record JettonTransfer : Type 0 where
  pub amount : String
  pub transaction_hash : String
  pub transaction_lt : String
  pub transaction_now : ℤ

-- pendingTransfer
pub record TonTransfer (D : Type 0) : Type 0 where
  pub amount : D
  pub lt : ℤ
  pub observed : ℤ

pub record TonWatcher (D : Type 0) : Type 0 where
  pub address : String
  pub usdt_jetton_master : String
  pub required_confirms : ℤ
  pub pending : Dict (TonTransfer D)

-- Unix
-- NewWatcher
unfoldable pub new_watcher : {D : Type 0} → TonConfig → TonWatcher D
new_watcher cfg = record {
  address = cfg.address;
  usdt_jetton_master = cfg.usdt_jetton_master;
  required_confirms = cfg.required_confirms;
  pending = [];
}

abbrev pub unix : ℤ → ℤ
unix t = floor_ℤ t 1_000_000_000

module _ {D : Type 0} where
  -- What a seed becomes at the host's time `t`.
  abbrev pub ton_transfer : ℤ → PendingTransfer D → TonTransfer D
  ton_transfer t p = record { amount = p.amount; lt = p.block_height; observed = unix t }

  unfoldable pub seed_pending : ℤ → PendingTransfer D → TonWatcher D → TonWatcher D
  seed_pending t p w = record w { pending = add_unseen p.tx_hash (ton_transfer t p) w.pending }

  -- The watcher as the manager uses it; its SeedPending does not fail.
  unfoldable pub ton_watcher : ChainWatcher D (TonWatcher D)
  unfolding seed_pending
  ton_watcher = record {
    chain = λ w. ton;
    required_confirmations = λ w. w.required_confirms;
    seed_pending = λ t p w. ok (seed_pending t p w);
    seed_chain = λ t p w w' e. refl;
    seed_required = λ t p w w' e. ap (λ v. v.required_confirms) (returned e);
  }

-- The logical time and the second of the latest transfer that the scan has seen.
pub record TonMarks : Type 0 where
  pub lt : ℤ
  pub utime : ℤ

abbrev pub no_ton_marks : TonMarks
no_ton_marks = record { lt = pos 0; utime = pos 0 }

-- A logical time that is no number is passed over.
abbrev pub later_lt : Option ℤ → ℤ → ℤ
later_lt none old = old
later_lt (some lt) old = later_of lt old

unfoldable pub mark_transfer : JettonTransfer → TonMarks → TonMarks
mark_transfer tr m = record {
  lt = later_lt (parse_int tr.transaction_lt) m.lt;
  utime = later_of tr.transaction_now m.utime;
}

module _ {D : Type 0} ⦃dec : Decimals D⦄ where
  -- An amount in millionths; a transfer without one, or without a logical time, is skipped.
  unfoldable pub add_transfer :
      JettonTransfer → Option D → Option ℤ → Dict (TonTransfer D) → Dict (TonTransfer D)
  add_transfer tr (some raw) (some lt) p =
      insert tr.transaction_hash
        (record { amount = dec.shift raw (negsuc 5); lt = lt; observed = tr.transaction_now }) p
  add_transfer tr _ _ p = p

  unfoldable pub handle_transfer : JettonTransfer → Dict (TonTransfer D) → Dict (TonTransfer D)
  handle_transfer tr p = add_transfer tr (dec.parse tr.amount) (parse_int tr.transaction_lt) p

  -- The loop over the transfers of a page.
  unfoldable pub see_transfers :
      List JettonTransfer → Dict (TonTransfer D) × TonMarks → Dict (TonTransfer D) × TonMarks
  see_transfers [] s = s
  see_transfers (tr ∷ trs) (p, m) = see_transfers trs (handle_transfer tr p, mark_transfer tr m)
