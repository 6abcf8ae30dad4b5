-- ===== src/Orders/Composition/Creation.antt =====
-- CreateOrder, from its statements.
use frpay.Prelude.{
  to_lower, str_eq, ℕ, zero, suc, ℤ, String, Bool, true, false, Option, none, some, if◌then◌else◌,
}
use frpay.Decimal.{Decimals}
use frpay.Store.{statement-Follows, Action, Follows, pure-Follows, raise-Follows, >>=-Follows}
use frpay.Chains.Watcher.{ChainWatcher}
use frpay.Chains.Manager.{required_confirmations, Manager}
use frpay.Orders.Repository.{
  chain_required, amount_out_of_bounds, user_id_required, Error, Draw, attempt, or_else, attempts,
  create_with_unique_amount,
}
use frpay.Orders.Service.{out_of_bounds, Settings, create_on_chain, on_found, create_order}
use frpay.Store.{
  Database, pure-Follows, raise-Follows, gets-Follows, >>=-Follows, transaction-Follows,
  statement-Follows, wrap-Follows, ignore-Follows,
}
use frpay.Orders.Composition.{Statements}

ruleset rules = (
  pure-Follows, raise-Follows, gets-Follows, >>=-Follows, transaction-Follows, statement-Follows,
  wrap-Follows, ignore-Follows,
)

module _ {D : Type 0} ⦃dec : Decimals D⦄ {R : Database D → Database D → Type 0}
    (st : Statements R) where
  attempt-Follows :
      (d : Draw) (user_id chain : String) (base : D) (required expiry : ℤ) (offset : Option ℤ)
      → Follows R (attempt d user_id chain base required expiry offset)
  unfolding attempt
  attempt-Follows d user_id chain base required expiry none = raise-Follows st.preorder _
  attempt-Follows d user_id chain base required expiry (some offset) =
      st.inserts d user_id chain base required expiry offset

  or_else-Follows :
      {A : Type 0} {again : Action D Error A} (o : Option A)
      → Follows R again
      → Follows R (or_else again o)
  unfolding or_else
  or_else-Follows none h = h
  or_else-Follows (some a) h = pure-Follows st.preorder a

  attempts-Follows :
      {A : Type 0} (left number : ℕ) (body : ℕ → Action D Error (Option A))
      → ((n : ℕ) → Follows R (body n))
      → Follows R (attempts left number body)
  unfolding attempts
  attempts-Follows zero number body h = raise-Follows st.preorder _
  attempts-Follows (suc left) number body h =
      >>=-Follows st.preorder (h number)
        (λ o. or_else-Follows o (attempts-Follows left (suc number) body h))

  if-Follows :
      {E A : Type 0} (b : Bool) {m k : Action D E A}
      → Follows R m
      → Follows R k
      → Follows R (if b then m else k)
  if-Follows true hm hk = hm
  if-Follows false hm hk = hk

  create_with_unique_amount-Follows :
      (draws : ℕ → Draw) (user_id chain : String) (base : D) (required expiry lo hi retries : ℤ)
      → Follows R (create_with_unique_amount draws user_id chain base required expiry lo hi retries)
  unfolding create_with_unique_amount
  create_with_unique_amount-Follows draws user_id chain base required expiry lo hi retries =
      if-Follows _ (raise-Follows st.preorder _) (
        attempts-Follows _ 0 _
          (λ n. attempt-Follows (draws n) user_id chain base required expiry _))

  create_on_chain-Follows :
      (s : Settings D) (draws : ℕ → Draw) (user_id : String) (base : D) (chain : String)
      (required : ℤ)
      → Follows R (create_on_chain s draws user_id base chain required)
  unfolding create_on_chain
  create_on_chain-Follows s draws user_id base chain required =
      search (st.preorder, rules, st.logs, create_with_unique_amount-Follows)

  on_found-Follows :
      (s : Settings D) (draws : ℕ → Draw) (user_id : String) (base : D) (chain : String)
      (required : Option ℤ)
      → Follows R (on_found s draws user_id base chain required)
  unfolding on_found
  on_found-Follows s draws user_id base chain none = raise-Follows st.preorder _
  on_found-Follows s draws user_id base chain (some r) =
      create_on_chain-Follows s draws user_id base chain r

  -- CreateOrder, with any arguments, in any state, however it ends.
  pub create_order-Follows :
      {W : Type 0} (cw : ChainWatcher D W) (manager : Manager W) (s : Settings D) (draws : ℕ → Draw)
      (user_id : String) (base : D) (chain : String)
      → Follows R (create_order cw manager s draws user_id base chain)
  unfolding create_order
  create_order-Follows cw manager s draws user_id base chain =
      if-Follows (str_eq user_id "") (raise-Follows st.preorder user_id_required) (
        if-Follows (out_of_bounds base) (raise-Follows st.preorder amount_out_of_bounds) (
          if-Follows (str_eq chain "") (raise-Follows st.preorder chain_required) (
            on_found-Follows s draws user_id base (to_lower chain)
              (required_confirmations cw (to_lower chain) manager))))
