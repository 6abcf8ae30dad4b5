-- ===== src/Chains/Manager.antt =====
-- internal/chains/manager.go: the registry of watchers.
pub mod Exits
use frpay.Prelude.{Dict, lookup, insert, ℤ, String, Option, none, some, List, [], ◌∷◌, map}
use frpay.Store.{Result, ok, err}
use frpay.Chains.Watcher.{PendingTransfer, ChainWatcher}

-- The map `watchers`; the order of its entries stands for the order that Go iterates in.
abbrev pub Manager : Type 0 → Type 0
Manager = Dict

module _ {W : Type 0} where
  -- Manager.Chains
  unfoldable pub chains : Manager W → List String
  chains m = map (λ e. e.0) m

module _ {D W : Type 0} (cw : ChainWatcher D W) where
  -- The loop of NewManager.
  unfoldable pub register : Manager W → List W → Manager W
  register m [] = m
  register m (w ∷ ws) = register (insert (cw.chain w) w m) ws

  unfoldable pub new_manager : List W → Manager W
  new_manager = register []

  unfoldable pub required_confirmations : String → Manager W → Option ℤ
  required_confirmations c m = elim (lookup c m) [
    | none ↦ none
    | some w ↦ some (cw.required_confirmations w)
  ]

  -- Manager.SeedPending; `err` is the error of a missing watcher or of the watcher itself. The
  -- watcher is shared, so the entry of the map is the watcher as it was left.
  unfoldable pub seed_pending : ℤ → String → PendingTransfer D → Manager W → Result Unit (Manager W)
  seed_pending t c p m = elim (lookup c m) [
    | none ↦ err tt
    | some w ↦ elim (cw.seed_pending t p w) [ ok w' ↦ ok (insert c w' m) | err e ↦ err e ]
  ]
