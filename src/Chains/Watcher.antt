-- ===== src/Chains/Watcher.antt =====
-- internal/chains/watcher.go: the values that watchers report, and the interface of a watcher.
use frpay.Prelude.{ℤ, String, ◌≡◌}
use frpay.Store.{Result, ok}

pub record PendingTransfer (D : Type 0) : Type 0 where
  pub tx_hash : String
  pub amount : D
  pub block_height : ℤ

-- A chain is its name.
abbrev pub tron : String
tron = "tron"

abbrev pub ton : String
ton = "ton"

abbrev pub polygon : String
polygon = "polygon"

abbrev pub bsc : String
bsc = "bsc"

pub record TransferEvent (D : Type 0) : Type 0 where
  pub chain : String
  pub tx_hash : String
  pub amount : D
  pub block_height : ℤ
  pub confirmations : ℤ
  pub observed_at : ℤ

-- ChainWatcher, without Run, which the manager starts in a goroutine. SeedPending runs at the
-- host's time, and may return an error. Its laws: seeding changes neither what the watcher serves
-- nor what it requires.
pub record ChainWatcher (D W : Type 0) : Type 0 where
  pub chain : W → String
  pub required_confirmations : W → ℤ
  pub seed_pending : ℤ → PendingTransfer D → W → Result Unit W
  pub seed_chain :
      (t : ℤ) (p : PendingTransfer D) (w w' : W) → seed_pending t p w ≡ ok w' → chain w' ≡ chain w
  pub seed_required :
      (t : ℤ) (p : PendingTransfer D) (w w' : W)
      → seed_pending t p w ≡ ok w'
      → required_confirmations w' ≡ required_confirmations w
