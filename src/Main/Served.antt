-- ===== src/Main/Served.antt =====
-- The chains that main enables: each has a watcher in the manager, and the address it was set.
use frpay.Prelude.{
  ◌∙◌, subst, sym, refl, ◌≢◌, ◌∷◌, [], ℤ, String, str_eq, eq_iff, ◌≡◌, ap, arith, Bool, true, false,
  not, Option, none, some, List, ◌++◌, lookup, insert, lookup-insert, if◌then◌else◌, Bool-cases,
  inl, inr,
}
use frpay.Decimal.{Decimals}
use frpay.Store.{Result, ok, err, returned}
use frpay.Chains.Watcher.{ChainWatcher, tron, ton, polygon, bsc}
use frpay.Chains.Manager.{Manager, register, new_manager}
use frpay.Chains.Evm.Watcher.{new_watcher}
use frpay.Chains.Evm.Pending.{evm_watcher}
use frpay.Chains.Tron.Address.{Codecs, AddressError}
use frpay.Chains.Tron.Watcher.{TronWatcher, tron_watcher, new_watcher as new_tron_watcher}
use frpay.Chains.Ton.Watcher.{ton_watcher, new_watcher as new_ton_watcher}
use frpay.Config.Values.{Environment}
use frpay.Config.Load.{TronConfig, TonConfig, EvmConfig, Config, load}
use frpay.Config.Required.{HasAddress, load-IsUsable}
use frpay.Main.{
  result_map, AnyWatcher, tron_one, ton_one, evm_one, chain_of, any_watcher, Enabled, none_enabled,
  enable, enable_tron, with_tron, with_ton, with_evm, enabled_chains, chain_manager,
}

-- A watcher and an address that is set, or neither.
abbrev pub well_addressed : {W : Type 0} → Option W → Option String → Bool
well_addressed (some w) (some address) = not (str_eq address "")
well_addressed none none = true
well_addressed _ _ = false

register_last :
    {D W : Type 0} (cw : ChainWatcher D W) (m : Manager W) (ws : List W) (w : W)
    → register cw m (ws ++ w ∷ []) ≡ insert (cw.chain w) w (register cw m ws)
unfolding register
register_last cw m [] w = refl
register_last cw m (v ∷ ws) w = register_last cw (insert (cw.chain v) v m) ws w

enabled-cases :
    {A : Type 0} (P : A → Type 0) (enabled : Bool) {x y : A}
    → (enabled ≡ true → P x)
    → P y
    → P (if enabled then x else y)
enabled-cases P true h k = h refl
enabled-cases P false h k = k

pub mapped_ok :
    {E A B : Type 0} (f : A → B) (r : Result E A) (b : B)
    → result_map f r ≡ ok b
    → (a : A) × (r ≡ ok a) × (b ≡ f a)
mapped_ok f (ok a) b h = (a, refl, returned h)
mapped_ok f (err e) b h = cc

abbrev pub ServesAddressed : {D : Type 0} → Enabled D → Type 0
ServesAddressed s =
    (c : String) → well_addressed (lookup c (chain_manager s)) (lookup c s.addresses) ≡ true

none_served : (D : Type 0) → ServesAddressed (none_enabled {D = D})
unfolding chain_manager new_manager register lookup
none_served D c = refl

module _ {D : Type 0} where
  pub lookup_enabled :
      (chain address : String) (w : AnyWatcher D) (s : Enabled D) (c : String)
      → lookup c (chain_manager (enable chain address w s))
        ≡ (if str_eq (chain_of w) c then some w else lookup c (chain_manager s))
  unfolding chain_manager new_manager enable any_watcher
  lookup_enabled chain address w s c =
      ap (lookup c) (register_last any_watcher [] s.watchers w)
      ∙ lookup-insert (chain_of w) c w (register any_watcher [] s.watchers)

  address_enabled :
      (chain address : String) (w : AnyWatcher D) (s : Enabled D) (c : String)
      → lookup c (enable chain address w s).addresses
        ≡ (if str_eq chain c then some address else lookup c s.addresses)
  unfolding enable
  address_enabled chain address w s c = lookup-insert chain c address s.addresses

  enable-ServesAddressed :
      (chain address : String) (w : AnyWatcher D) (s : Enabled D)
      → chain_of w ≡ chain
      → address ≢ ""
      → ServesAddressed s
      → ServesAddressed (enable chain address w s)
  enable-ServesAddressed chain address w s e set serves c =
      rw (lookup_enabled chain address w s c, address_enabled chain address w s c, e)
        (elim (Bool-cases (str_eq chain c)) [
          | inl hit ↦ rw hit (ground (arith, eq_iff address ""))
          | inr miss ↦ rw miss (serves c)
        ])

  with_ton-ServesAddressed :
      (cfg : TonConfig) (s : Enabled D)
      → HasAddress cfg.enabled cfg.address
      → ServesAddressed s
      → ServesAddressed (with_ton cfg s)
  unfolding with_ton chain_of ton_watcher
  with_ton-ServesAddressed cfg s set serves =
      enabled-cases ServesAddressed cfg.enabled
        (λ on.
          enable-ServesAddressed ton cfg.address (ton_one (new_ton_watcher cfg)) s refl (set on)
            serves)
        serves

  with_evm-ServesAddressed :
      (chain : String) (cfg : EvmConfig) (s : Enabled D)
      → HasAddress cfg.enabled cfg.address
      → ServesAddressed s
      → ServesAddressed (with_evm chain cfg s)
  unfolding with_evm chain_of evm_watcher new_watcher
  with_evm-ServesAddressed chain cfg s set serves =
      enabled-cases ServesAddressed cfg.enabled
        (λ on.
          enable-ServesAddressed chain cfg.address (evm_one (new_watcher chain cfg)) s refl (set on)
            serves)
        serves

  enable_tron-ServesAddressed :
      (cfg : TronConfig) (r : Result AddressError (TronWatcher D)) (s : Enabled D)
      → cfg.address ≢ ""
      → enable_tron cfg r ≡ ok s
      → ServesAddressed s
  unfolding enable_tron chain_of tron_watcher
  enable_tron-ServesAddressed cfg (err e) s set h = cc
  enable_tron-ServesAddressed cfg (ok w) s set h =
      subst ServesAddressed (sym (returned h))
        (enable-ServesAddressed tron cfg.address (tron_one w) none_enabled refl set (none_served D))

  with_tron-ServesAddressed :
      (codecs : Codecs) (cfg : TronConfig) (s : Enabled D)
      → HasAddress cfg.enabled cfg.address
      → with_tron codecs cfg ≡ ok s
      → ServesAddressed s
  unfolding with_tron
  with_tron-ServesAddressed codecs cfg s set h =
      enabled-cases (λ r. r ≡ ok s → ServesAddressed s) cfg.enabled
        (λ on. enable_tron-ServesAddressed cfg (new_tron_watcher codecs cfg) s (set on))
        (λ e. subst ServesAddressed (sym (returned e)) (none_served D)) h

  -- If Load accepts the environment and main sets up the watchers, then every chain either has both
  -- a watcher in the manager and an address that is not empty, or neither.
  pub main-ServesAddressed :
      ⦃dec : Decimals D⦄ (codecs : Codecs) (parse_duration : String → Option ℤ) (env : Environment)
      (cfg : Config D) (s : Enabled D)
      → load parse_duration env ≡ ok cfg
      → enabled_chains codecs cfg.chains ≡ ok s
      → ServesAddressed s
  unfolding enabled_chains
  main-ServesAddressed codecs parse_duration env cfg s loaded h =
      let (dsn, key, at_tron, at_ton, at_polygon, at_bsc) =
        load-IsUsable env parse_duration cfg loaded in
      let (first, e, same) = mapped_ok _ (with_tron codecs cfg.chains.tron) s h in
      subst ServesAddressed (sym same) (
        with_evm-ServesAddressed bsc cfg.chains.bsc _ at_bsc (
          with_evm-ServesAddressed polygon cfg.chains.polygon _ at_polygon (
            with_ton-ServesAddressed cfg.chains.ton first at_ton
              (with_tron-ServesAddressed codecs cfg.chains.tron first at_tron e))))
