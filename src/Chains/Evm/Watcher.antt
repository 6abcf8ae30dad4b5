-- ===== src/Chains/Evm/Watcher.antt =====
-- internal/chains/evm/watcher.go: the watcher's state and its operations.
use frpay.Prelude.{
  ℤ, negsuc, String, Option, some, List, [], ◌∷◌, Dict, insert, ltb, length, if◌then◌else◌,
}
use frpay.Decimal.{Decimals}
use frpay.Chains.Watcher.{PendingTransfer}
use frpay.Chains.Pending.{add_unseen}
use frpay.Config.Load.{EvmConfig}
use frpay.Chains.Evm.Types.{address_to_topic, RpcLog, parse_hex_big_int, parse_hex_quantity}

-- A transfer that is waiting for confirmations.
pub record Seen (D : Type 0) : Type 0 where
  pub amount : D
  pub block_height : ℤ

-- Watcher: what NewWatcher sets, and the map of transfers.
pub record Watcher (D : Type 0) : Type 0 where
  pub chain : String
  pub address_topic : String
  pub usdt_contract : String
  pub required_confirms : ℤ
  pub logs_batch_blocks : ℤ
  pub pending : Dict (Seen D)

-- NewWatcher
unfoldable pub new_watcher : {D : Type 0} → String → EvmConfig → Watcher D
new_watcher chain cfg = record {
  chain = chain;
  address_topic = address_to_topic cfg.address;
  usdt_contract = cfg.usdt_contract;
  required_confirms = cfg.required_confirms;
  logs_batch_blocks = cfg.logs_batch_blocks;
  pending = [];
}

-- What the RPC node answers during a poll; none is an error of the client. `get_logs` takes
-- fromBlock, toBlock, the contract and the third topic.
pub record Node : Type 0 where
  pub block_number : Option String
  pub get_logs : String → String → String → String → Option (List RpcLog)

module _ {D : Type 0} where
  -- The transfer of a seed.
  abbrev pub seen_of : PendingTransfer D → Seen D
  seen_of t = record { amount = t.amount; block_height = t.block_height }

  unfoldable pub seed_pending : PendingTransfer D → Watcher D → Watcher D
  seed_pending t w = record w { pending = add_unseen t.tx_hash (seen_of t) w.pending }

-- -usdtDecimals
unfoldable pub minus_usdt_decimals : ℤ
minus_usdt_decimals = negsuc 5

module _ {D : Type 0} ⦃dec : Decimals D⦄ where
  unfoldable pub add_log : String → Option ℤ → Option ℤ → Dict (Seen D) → Dict (Seen D)
  unfolding minus_usdt_decimals
  add_log tx (some raw) (some height) p =
      insert tx (record { amount = dec.new raw minus_usdt_decimals; block_height = height }) p
  add_log tx _ _ p = p

  unfoldable pub handle_log : RpcLog → Dict (Seen D) → Dict (Seen D)
  handle_log l p =
      if ltb (length l.topics) 3
      then p
      else add_log l.transaction_hash (parse_hex_big_int l.log_data)
          (parse_hex_quantity l.block_number) p

  unfoldable pub handle_logs : List RpcLog → Dict (Seen D) → Dict (Seen D)
  handle_logs [] p = p
  handle_logs (l ∷ ls) p = handle_logs ls (handle_log l p)
