-- ===== src/Chains/Tron/Watcher.antt =====
-- internal/chains/tron/watcher.go and types.go: the watcher's state, and what it does with an event.
use frpay.Prelude.{
  ℤ, pos, negsuc, later_of, String, refl, ap, Option, none, some, List, [], ◌∷◌, Dict, lookup,
  insert, equal_fold, if◌then◌else◌,
}
use frpay.Decimal.{Decimals}
use frpay.Config.Load.{TronConfig}
use frpay.Store.{returned, Result, ok, err}
use frpay.Chains.Watcher.{PendingTransfer, ChainWatcher, tron}
use frpay.Chains.Pending.{add_unseen}
use frpay.Chains.Tron.Address.{Codecs, AddressError, address_to_hex}

pub record ContractEvent : Type 0 where
  pub block_number : ℤ
  pub block_timestamp : ℤ
  pub result : Dict String
  pub transaction_id : String

-- pendingTransfer
pub record TronTransfer (D : Type 0) : Type 0 where
  pub amount : D
  pub block_height : ℤ

pub record TronWatcher (D : Type 0) : Type 0 where
  pub usdt_contract : String
  pub required_confirms : ℤ
  pub address_hex : String
  pub pending : Dict (TronTransfer D)

-- ev.Result[key]
unfoldable pub or_empty : Option String → String
or_empty none = ""
or_empty (some s) = s

abbrev pub field_of : String → ContractEvent → String
field_of key ev = or_empty (lookup key ev.result)

unfoldable pub with_address :
    {D : Type 0} → TronConfig → Result AddressError String → Result AddressError (TronWatcher D)
with_address cfg (err e) = err e
with_address cfg (ok hex) = ok (record {
  usdt_contract = cfg.usdt_contract;
  required_confirms = cfg.required_confirms;
  address_hex = hex;
  pending = [];
})

-- NewWatcher, of the settings that the watcher reads.
unfoldable pub new_watcher :
    {D : Type 0} → Codecs → TronConfig → Result AddressError (TronWatcher D)
new_watcher codecs cfg = with_address cfg (address_to_hex codecs cfg.address)

module _ {D : Type 0} where
  abbrev pub tron_transfer : PendingTransfer D → TronTransfer D
  tron_transfer t = record { amount = t.amount; block_height = t.block_height }

  unfoldable pub seed_pending : PendingTransfer D → TronWatcher D → TronWatcher D
  seed_pending t w = record w { pending = add_unseen t.tx_hash (tron_transfer t) w.pending }

  -- The watcher as the manager uses it; its SeedPending does not fail.
  unfoldable pub tron_watcher : ChainWatcher D (TronWatcher D)
  unfolding seed_pending
  tron_watcher = record {
    chain = λ w. tron;
    required_confirmations = λ w. w.required_confirms;
    seed_pending = λ t p w. ok (seed_pending p w);
    seed_chain = λ t p w w' e. refl;
    seed_required = λ t p w w' e. ap (λ v. v.required_confirms) (returned e);
  }

-- The block and the time of the latest event that the scan has seen.
pub record Marks : Type 0 where
  pub block : ℤ
  pub timestamp : ℤ

abbrev pub no_marks : Marks
no_marks = record { block = pos 0; timestamp = pos 0 }

unfoldable pub mark : ContractEvent → Marks → Marks
mark ev m = record {
  block = later_of ev.block_number m.block;
  timestamp = later_of ev.block_timestamp m.timestamp;
}

module _ {D : Type 0} ⦃dec : Decimals D⦄ where
  -- An amount in millionths; an event without one is skipped.
  unfoldable pub add_event :
      ContractEvent → Option D → Dict (TronTransfer D) → Dict (TronTransfer D)
  add_event ev none p = p
  add_event ev (some raw) p =
      insert ev.transaction_id
        (record { amount = dec.shift raw (negsuc 5); block_height = ev.block_number }) p

  unfoldable pub handle_event :
      String → ContractEvent → Dict (TronTransfer D) → Dict (TronTransfer D)
  unfolding or_empty
  handle_event address_hex ev p =
      if equal_fold (field_of "to" ev) address_hex
      then add_event ev (dec.parse (field_of "value" ev)) p
      else p

  -- The loop over the events of a page.
  unfoldable pub see_events :
      String → List ContractEvent → Dict (TronTransfer D) × Marks → Dict (TronTransfer D) × Marks
  see_events address_hex [] s = s
  see_events address_hex (ev ∷ evs) (p, m) =
      see_events address_hex evs (handle_event address_hex ev p, mark ev m)
