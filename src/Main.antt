-- ===== src/Main.antt =====
-- cmd/frenixpay/main.go: the watchers of the enabled chains, the manager of them and their addresses.
pub mod Served
pub mod Confirmations
pub mod Restart
pub mod Start
pub mod Started
pub mod Starts
pub mod Ready
pub mod Running
pub mod Polls
pub mod Confirming
pub mod Paid
pub mod Lasting
pub mod Lives
use frpay.Prelude.{
  ℤ, String, Bool, true, false, ◌≡◌, ap, List, [], ◌∷◌, ◌++◌, Dict, insert, if◌then◌else◌,
}
use frpay.Decimal.{Decimals}
use frpay.Chains.Watcher.{PendingTransfer, ChainWatcher, tron, ton, polygon, bsc}
use frpay.Chains.Manager.{Manager, new_manager}
use frpay.Chains.Evm.Watcher.{Watcher, new_watcher}
use frpay.Chains.Evm.Pending.{evm_watcher}
use frpay.Chains.Tron.Address.{Codecs, AddressError}
use frpay.Chains.Tron.Watcher.{TronWatcher, tron_watcher, new_watcher as new_tron_watcher}
use frpay.Chains.Ton.Watcher.{TonWatcher, ton_watcher, new_watcher as new_ton_watcher}
use frpay.Config.Load.{TronConfig, TonConfig, EvmConfig, ChainsConfig, Config}
use frpay.Orders.Service.{Settings}
use frpay.Store.{Result, ok, err, returned}

-- The watchers that the manager holds together.
pub data AnyWatcher (D : Type 0) : Type 0 where
  tron_one : TronWatcher D → AnyWatcher D
  ton_one : TonWatcher D → AnyWatcher D
  evm_one : Watcher D → AnyWatcher D

abbrev pub result_map : {E A B : Type 0} → (A → B) → Result E A → Result E B
result_map f (ok a) = ok (f a)
result_map f (err e) = err e

module _ {D : Type 0} where
  unfoldable pub chain_of : AnyWatcher D → String
  chain_of (tron_one w) = tron_watcher.chain w
  chain_of (ton_one w) = ton_watcher.chain w
  chain_of (evm_one w) = evm_watcher.chain w

  unfoldable pub required_of : AnyWatcher D → ℤ
  required_of (tron_one w) = tron_watcher.required_confirmations w
  required_of (ton_one w) = ton_watcher.required_confirmations w
  required_of (evm_one w) = evm_watcher.required_confirmations w

  unfoldable pub seed_any : ℤ → PendingTransfer D → AnyWatcher D → Result Unit (AnyWatcher D)
  seed_any t p (tron_one w) = result_map tron_one (tron_watcher.seed_pending t p w)
  seed_any t p (ton_one w) = result_map ton_one (ton_watcher.seed_pending t p w)
  seed_any t p (evm_one w) = result_map evm_one (evm_watcher.seed_pending t p w)

  pub seed_any-chain :
      (t : ℤ) (p : PendingTransfer D) (w w' : AnyWatcher D)
      → seed_any t p w ≡ ok w'
      → chain_of w' ≡ chain_of w
  unfolding seed_any chain_of evm_watcher tron_watcher ton_watcher
  seed_any-chain t p (tron_one w) w' e = ap chain_of (returned e)
  seed_any-chain t p (ton_one w) w' e = ap chain_of (returned e)
  seed_any-chain t p (evm_one w) w' e = ap chain_of (returned e)

  pub seed_any-required :
      (t : ℤ) (p : PendingTransfer D) (w w' : AnyWatcher D)
      → seed_any t p w ≡ ok w'
      → required_of w' ≡ required_of w
  unfolding seed_any required_of evm_watcher tron_watcher ton_watcher
  seed_any-required t p (tron_one w) w' e = ap required_of (returned e)
  seed_any-required t p (ton_one w) w' e = ap required_of (returned e)
  seed_any-required t p (evm_one w) w' e = ap required_of (returned e)

  -- The interface of the manager, at any of the watchers.
  unfoldable pub any_watcher : ChainWatcher D (AnyWatcher D)
  any_watcher = record {
    chain = chain_of;
    required_confirmations = required_of;
    seed_pending = seed_any;
    seed_chain = seed_any-chain;
    seed_required = seed_any-required;
  }

-- `watchers` and `addresses` of main.
pub record Enabled (D : Type 0) : Type 0 where
  pub watchers : List (AnyWatcher D)
  pub addresses : Dict String

module _ {D : Type 0} where
  abbrev pub none_enabled : Enabled D
  none_enabled = record { watchers = []; addresses = [] }

  -- append(watchers, w), and the address of its chain
  unfoldable pub enable : String → String → AnyWatcher D → Enabled D → Enabled D
  enable chain address w s = record {
    watchers = s.watchers ++ w ∷ [];
    addresses = insert chain address s.addresses;
  }

  unfoldable pub enable_tron :
      TronConfig → Result AddressError (TronWatcher D) → Result AddressError (Enabled D)
  enable_tron cfg (err e) = err e
  enable_tron cfg (ok w) = ok (enable tron cfg.address (tron_one w) none_enabled)

  unfoldable pub with_tron : Codecs → TronConfig → Result AddressError (Enabled D)
  with_tron codecs cfg =
      if cfg.enabled then enable_tron cfg (new_tron_watcher codecs cfg) else ok none_enabled

  unfoldable pub with_ton : TonConfig → Enabled D → Enabled D
  with_ton cfg s =
      if cfg.enabled then enable ton cfg.address (ton_one (new_ton_watcher cfg)) s else s

  unfoldable pub with_evm : String → EvmConfig → Enabled D → Enabled D
  with_evm chain cfg s =
      if cfg.enabled then enable chain cfg.address (evm_one (new_watcher chain cfg)) s else s

  -- main from the empty list to NewManager; an address of TRON that does not decode ends it.
  unfoldable pub enabled_chains : Codecs → ChainsConfig → Result AddressError (Enabled D)
  enabled_chains codecs cfg =
      result_map (λ s. with_evm bsc cfg.bsc (with_evm polygon cfg.polygon (with_ton cfg.ton s)))
        (with_tron codecs cfg.tron)

  -- chainMgr
  unfoldable pub chain_manager : Enabled D → Manager (AnyWatcher D)
  chain_manager s = new_manager any_watcher s.watchers

-- The settings that main hands to NewService.
unfoldable pub settings_of : {D : Type 0} → Config D → Settings D
settings_of cfg = record {
  order_expiry = cfg.order_expiry;
  tolerance = cfg.amount_tolerance;
  underpayment_max_gap_percent = cfg.underpayment_max_gap_percent;
  offset_min = cfg.offset_min_ten_thousandths;
  offset_max = cfg.offset_max_ten_thousandths;
  max_collision_retries = cfg.max_collision_retries;
}
