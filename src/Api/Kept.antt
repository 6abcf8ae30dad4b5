-- ===== src/Api/Kept.antt =====
-- What any request keeps of the orders.
use frpay.Prelude.{ℕ, String, Bool-cases, inl, inr, not, ◌||◌, Option, none, some, str_eq}
use frpay.Decimal.{Decimals}
use frpay.Store.{Database}
use frpay.Orders.Repository.{Draw}
use frpay.Orders.Lifecycle.{Later-preorder}
use frpay.Orders.Lifecycle.Transfers.{create_order-Later}
use frpay.Orders.Runs.{Persists, of_Later}
use frpay.Api.Limiter.{Limiter, allow}
use frpay.Api.Responses.{
  handle_get, CreateOrderRequest, Response, Handlers, handle_create, create_decoded, create_for,
}
use frpay.Api.Access.{get_parsed-same}
use frpay.Api.Routes.{
  Route, Request, Router, State, get_health, get_chains, post_order, with_api_key, with_cors,
  with_rate_limit, on_database, route_to, serve,
}

module _ {D : Type 0} ⦃dec : Decimals D⦄ where
  pub Persists-refl : (w : Database D) → Persists w w
  Persists-refl w = of_Later (Later-preorder.reflexive w)

  with_rate_limit-Persists :
      (l : Limiter) (seconds : ℕ) (key : String) (next : State D → Response × State D)
      (st : State D)
      → ((s : State D) → Persists s.database (next s).1.database)
      → Persists st.database (with_rate_limit l seconds key next st).1.database
  unfolding with_rate_limit
  with_rate_limit-Persists l seconds key next st h =
      elim (Bool-cases (allow l seconds key st.counters).0) [
        | inl allowed ↦ rw allowed (h _)
        | inr refused ↦ rw refused (Persists-refl st.database)
      ]

  with_api_key-Persists :
      (expected provided : String) (next : State D → Response × State D) (st : State D)
      → Persists st.database (next st).1.database
      → Persists st.database (with_api_key expected provided next st).1.database
  unfolding with_api_key
  with_api_key-Persists expected provided next st h =
      elim (Bool-cases (str_eq provided "" || not (str_eq provided expected))) [
        | inl refused ↦ rw refused (Persists-refl st.database)
        | inr allowed ↦ rw allowed h
      ]

module _ {D W : Type 0} ⦃dec : Decimals D⦄ where
  create_for-Persists :
      (h : Handlers D W) (draws : ℕ → Draw) (req : CreateOrderRequest) (amount : Option D)
      (w : Database D)
      → Persists w (create_for h draws req amount w).1
  unfolding create_for
  create_for-Persists h draws req none w = Persists-refl w
  create_for-Persists h draws req (some amount) w =
      of_Later
        (create_order-Later h.watcher h.manager h.settings draws req.user_id amount req.chain w)

  create_decoded-Persists :
      (h : Handlers D W) (draws : ℕ → Draw) (req : Option CreateOrderRequest) (w : Database D)
      → Persists w (create_decoded h draws req w).1
  unfolding create_decoded
  create_decoded-Persists h draws none w = Persists-refl w
  create_decoded-Persists h draws (some req) w = create_for-Persists h draws req _ w

  route_to-Persists :
      (router : Router D W) (draws : ℕ → Draw) (seconds : ℕ) (req : Request) (r : Route)
      (st : State D)
      → Persists st.database (route_to router draws seconds req r st).1.database
  unfolding route_to with_cors on_database handle_create handle_get
  route_to-Persists router draws seconds req get_health st = Persists-refl st.database
  route_to-Persists router draws seconds req get_chains st =
      with_rate_limit-Persists router.public_limiter seconds req.remote_addr _ st
        (λ s. Persists-refl s.database)
  route_to-Persists router draws seconds req (Route.get_order id) st =
      with_rate_limit-Persists router.public_limiter seconds req.remote_addr _ st
        (λ s. rw (get_parsed-same router.handlers _ s.database) (Persists-refl s.database))
  route_to-Persists router draws seconds req (post_order body) st =
      with_api_key-Persists router.api_key req.api_key _ st (
        with_rate_limit-Persists router.orders_limiter seconds req.remote_addr _ st
          (λ s. create_decoded-Persists router.handlers draws _ s.database))

  -- Any request, whatever it answers.
  pub serve-Persists :
      (router : Router D W) (draws : ℕ → Draw) (seconds : ℕ) (req : Request) (st : State D)
      → Persists st.database (serve router draws seconds req st).1.database
  unfolding serve
  serve-Persists router draws seconds req st =
      route_to-Persists router draws seconds req req.route st
