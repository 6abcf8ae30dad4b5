-- ===== src/Orders/Service/Create.antt =====
-- internal/orders/service.go: the service's settings, CreateOrder and GetOrder.
use frpay.Prelude.{
  Option, ℕ, ℤ, pos, negsuc, String, Bool, ◌||◌, none, some, [], ◌∷◌, str_eq, to_lower,
  if◌then◌else◌,
}
use frpay.Decimal.{Decimals}
use frpay.Store.{Order, text, Action, pure, raise, ◌>>=◌, ◌>>◌, ignore}
use frpay.Audit.{log}
use frpay.Chains.Watcher.{ChainWatcher}
use frpay.Chains.Manager.{Manager, required_confirmations}
use frpay.Orders.Repository.{
  Error, user_id_required, amount_out_of_bounds, chain_required, chain_not_enabled, Draw,
  create_with_unique_amount,
}

-- Service, without its handles on the database and the manager.
pub record Settings (D : Type 0) : Type 0 where
  pub order_expiry : ℤ
  pub tolerance : D
  pub underpayment_max_gap_percent : D
  pub offset_min : ℤ
  pub offset_max : ℤ
  pub max_collision_retries : ℤ

module _ {D : Type 0} ⦃dec : Decimals D⦄ where
  unfoldable pub min_order_usd : D
  min_order_usd = dec.new (pos 1) (negsuc 1)

  unfoldable pub max_order_usd : D
  max_order_usd = dec.new (pos 1000000) (pos 0)

  unfoldable pub out_of_bounds : D → Bool
  unfolding min_order_usd max_order_usd
  out_of_bounds base = dec.lt base min_order_usd || dec.lt max_order_usd base

  -- CreateOrder, once its arguments are accepted.
  unfoldable pub create_on_chain :
      Settings D → (ℕ → Draw) → String → D → String → ℤ → Action D Error (Order D)
  create_on_chain s draws user_id base chain required = do
    order ←
        create_with_unique_amount draws user_id chain base required s.order_expiry s.offset_min
          s.offset_max s.max_collision_retries
    ignore (
        log (some order.id) chain "" "order_created" (
          ("user_id", text user_id)
          ∷ ("base_amount_usd", text (dec.to_text base))
          ∷ ("expected_amount", text (dec.to_text order.expected_amount))
          ∷ []))
    pure order

  -- The rest of CreateOrder, on what the manager says of the chain.
  unfoldable pub on_found :
      Settings D → (ℕ → Draw) → String → D → String → Option ℤ → Action D Error (Order D)
  on_found s draws user_id base chain none = raise chain_not_enabled
  on_found s draws user_id base chain (some required) =
      create_on_chain s draws user_id base chain required

  unfoldable pub create_order :
      {W : Type 0}
      → ChainWatcher D W
      → Manager W
      → Settings D
      → (ℕ → Draw)
      → String
      → D
      → String
      → Action D Error (Order D)
  create_order cw manager s draws user_id base chain_str =
      if str_eq user_id ""
      then raise user_id_required
      else if out_of_bounds base
      then raise amount_out_of_bounds
      else if str_eq chain_str ""
      then raise chain_required
      else (on_found s draws user_id base (to_lower chain_str)
          (required_confirmations cw (to_lower chain_str) manager))
