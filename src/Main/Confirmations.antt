-- ===== src/Main/Confirmations.antt =====
-- The confirmations that the manager of main requires for each chain.
use frpay.Prelude.{
  ℤ, String, str_eq, ◌≡◌, refl, ap, ◌∙◌, Bool, true, false, ◌&&◌, Option, none, some, lookup,
  if◌then◌else◌,
}
use frpay.Store.{Result, ok, err, returned}
use frpay.Chains.Watcher.{tron, ton, polygon, bsc}
use frpay.Chains.Manager.{register, new_manager, required_confirmations}
use frpay.Chains.Evm.Watcher.{new_watcher}
use frpay.Chains.Evm.Pending.{evm_watcher}
use frpay.Chains.Tron.Address.{address_to_hex, Codecs, AddressError}
use frpay.Chains.Tron.Watcher.{tron_watcher, with_address, new_watcher as new_tron_watcher}
use frpay.Chains.Ton.Watcher.{ton_watcher, new_watcher as new_ton_watcher}
use frpay.Config.Load.{TronConfig, TonConfig, EvmConfig, ChainsConfig}
use frpay.Main.{
  AnyWatcher, ton_one, evm_one, chain_of, required_of, any_watcher, Enabled, none_enabled, enable,
  enable_tron, with_tron, with_ton, with_evm, enabled_chains, chain_manager,
}
use frpay.Main.Served.{lookup_enabled, mapped_ok}

-- What a chain requires if it is this one and enabled.
abbrev pub required_by : String → Bool → ℤ → String → Option ℤ → Option ℤ
required_by chain enabled n c others = if enabled && str_eq chain c then some n else others

-- What the configuration sets for a chain, none if it does not enable it.
unfoldable pub configured : ChainsConfig → String → Option ℤ
configured cfg c = required_by bsc cfg.bsc.enabled cfg.bsc.required_confirms c (
    required_by polygon cfg.polygon.enabled cfg.polygon.required_confirms c (
      required_by ton cfg.ton.enabled cfg.ton.required_confirms c
        (required_by tron cfg.tron.enabled cfg.tron.required_confirms c none)))

enabled-cases :
    {A : Type 0} (P : A → Bool → Type 0) (enabled : Bool) {x y : A}
    → P x true
    → P y false
    → P (if enabled then x else y) enabled
enabled-cases P true h k = h
enabled-cases P false h k = k

module _ {D : Type 0} where
  required : Enabled D → String → Option ℤ
  required s c = required_confirmations any_watcher c (chain_manager s)

  abbrev required_at : Option (AnyWatcher D) → Option ℤ
  required_at none = none
  required_at (some w) = some (required_of w)

  required_at-if :
      (b : Bool) (w : AnyWatcher D) (others : Option (AnyWatcher D))
      → required_at (if b then some w else others)
        ≡ (if b then some (required_of w) else required_at others)
  required_at-if true w others = refl
  required_at-if false w others = refl

  required_enabled :
      (chain address : String) (w : AnyWatcher D) (s : Enabled D) (c : String)
      → required (enable chain address w s) c
        ≡ (if str_eq (chain_of w) c then some (required_of w) else required s c)
  unfolding required required_confirmations any_watcher
  required_enabled chain address w s c =
      ap required_at (lookup_enabled chain address w s c)
      ∙ required_at-if (str_eq (chain_of w) c) w _

  by_enabled :
      (chain : String) (enabled : Bool) (n : ℤ) (s s' : Enabled D) (c : String)
      → required s' c ≡ (if str_eq chain c then some n else required s c)
      → required (if enabled then s' else s) c ≡ required_by chain enabled n c (required s c)
  by_enabled chain true n s s' c h = h
  by_enabled chain false n s s' c h = refl

  required-with_ton :
      (cfg : TonConfig) (s : Enabled D) (c : String)
      → required (with_ton cfg s) c
        ≡ required_by ton cfg.enabled cfg.required_confirms c (required s c)
  unfolding with_ton chain_of required_of ton_watcher new_ton_watcher
  required-with_ton cfg s c =
      by_enabled ton cfg.enabled cfg.required_confirms s _ c
        (required_enabled ton cfg.address (ton_one (new_ton_watcher cfg)) s c)

  required-with_evm :
      (chain : String) (cfg : EvmConfig) (s : Enabled D) (c : String)
      → required (with_evm chain cfg s) c
        ≡ required_by chain cfg.enabled cfg.required_confirms c (required s c)
  unfolding with_evm chain_of required_of evm_watcher new_watcher
  required-with_evm chain cfg s c =
      by_enabled chain cfg.enabled cfg.required_confirms s _ c
        (required_enabled chain cfg.address (evm_one (new_watcher chain cfg)) s c)

  required_of_none : (s : Enabled D) (c : String) → s ≡ none_enabled → required s c ≡ none
  unfolding required required_confirmations chain_manager new_manager register lookup
  required_of_none s c e = rw e refl

  required-enable_tron :
      (cfg : TronConfig) (address : Result AddressError String) (s : Enabled D) (c : String)
      → enable_tron cfg (with_address cfg address) ≡ ok s
      → required s c ≡ (if str_eq tron c then some cfg.required_confirms else none)
  unfolding enable_tron with_address chain_of required_of tron_watcher
  required-enable_tron cfg (err e) s c h = cc
  required-enable_tron cfg (ok hex) s c h =
      ap (λ x. required x c) (returned h)
      ∙ required_enabled tron cfg.address _ none_enabled c
      ∙ rw (required_of_none none_enabled c refl) refl

  required-with_tron :
      (codecs : Codecs) (cfg : TronConfig) (s : Enabled D) (c : String)
      → with_tron codecs cfg ≡ ok s
      → required s c ≡ required_by tron cfg.enabled cfg.required_confirms c none
  unfolding with_tron new_tron_watcher
  required-with_tron codecs cfg s c h =
      enabled-cases
        (λ r on. r ≡ ok s → required s c ≡ required_by tron on cfg.required_confirms c none)
        cfg.enabled (required-enable_tron cfg (address_to_hex codecs cfg.address) s c)
        (λ e. required_of_none s c (returned e)) h

  -- If main sets up the watchers, the manager requires for a chain the confirmations that the
  -- configuration sets for it, and serves no chain that is not enabled.
  pub manager_requires-configured :
      (codecs : Codecs) (cfg : ChainsConfig) (s : Enabled D) (c : String)
      → enabled_chains codecs cfg ≡ ok s
      → required_confirmations any_watcher c (chain_manager s) ≡ configured cfg c
  unfolding enabled_chains configured required
  manager_requires-configured codecs cfg s c h =
      let (first, e, same) = mapped_ok _ (with_tron codecs cfg.tron) s h in
      ap (λ x. required x c) same
      ∙ required-with_evm bsc cfg.bsc _ c
      ∙ ap (required_by bsc _ _ c) (
          required-with_evm polygon cfg.polygon _ c
          ∙ ap (required_by polygon _ _ c) (
              required-with_ton cfg.ton first c
              ∙ ap (required_by ton _ _ c) (required-with_tron codecs cfg.tron first c e)))
